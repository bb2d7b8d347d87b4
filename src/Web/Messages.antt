-- ===== src/Web/Messages.antt =====
-- crates/fomalhaut-web/src/protocol: requests (request.rs), and responses, errors and snapshots
-- (message.rs, error.rs). The version of the protocol is 1 in every envelope.
use fomalhaut.Common.{
  ℕ, Bool, true, false, ◌||◌, Option, none, some, String, List, [], ◌∷◌, Result, ok, err, ◌>=>◌,
  ltb, if◌then◌else◌, length, any,
}
use fomalhaut.Core.Types.{Text}
use fomalhaut.Session.Texts.{text_eq}
use fomalhaut.Web.Protocol.{
  validate_text, validate_avatar_url, max_auth_messages, max_username_bytes,
  max_user_display_name_bytes, max_safe_integer, AuthState, Prompt, AuthMessage, IdentitySummary,
  ProtocolValueError, too_many_items, unknown_selection, unsafe_integer,
}

abbrev pub max_session_id_bytes : ℕ
max_session_id_bytes = 256

abbrev pub max_session_name_bytes : ℕ
max_session_name_bytes = 256

abbrev pub max_sessions : ℕ
max_sessions = 128

abbrev pub max_users : ℕ
max_users = 128

abbrev pub max_auth_response_bytes : ℕ
max_auth_response_bytes = 16384

pub data ProtocolErrorCode : Type 0 where
  invalid_json message_too_large unsupported_version invalid_request unknown_method :
      ProtocolErrorCode
  invalid_params invalid_state stale_prompt session_not_found method_disabled : ProtocolErrorCode
  internal : ProtocolErrorCode

pub record ProtocolErrorBody : Type 0 where
  pub code : ProtocolErrorCode
  pub message : String
  pub retryable : Bool

unfoldable pub new_error : ProtocolErrorCode → String → Bool → ProtocolErrorBody
new_error code message retryable = record { code = code; message = message; retryable = retryable }

pub data UiLocale : Type 0 where
  english simplified_chinese : UiLocale

pub data LoginState : Type 0 where
  idle starting_session started failed : LoginState

pub data LockState : Type 0 where
  acquiring locked unlocking released failed : LockState

pub data SessionKind : Type 0 where
  wayland x11 : SessionKind

pub data PowerAction : Type 0 where
  poweroff reboot suspend : PowerAction

unfoldable pub action_eq : PowerAction → PowerAction → Bool
action_eq poweroff poweroff = true
action_eq reboot reboot = true
action_eq suspend suspend = true
action_eq _ _ = false

-- `Capabilities` holds the allowed power actions.
pub record Capabilities : Type 0 where
  pub power : List PowerAction

unfoldable pub disabled : Capabilities
disabled = record { power = [] }

abbrev pub keep_if : Bool → PowerAction → List PowerAction → List PowerAction
keep_if b action rest = if b then action ∷ rest else rest

abbrev pub has_action : PowerAction → List PowerAction → Bool
has_action action actions = any (action_eq action) actions

unfoldable pub with_power : List PowerAction → Capabilities
unfolding action_eq
with_power actions = record {
  power = keep_if (has_action poweroff actions) poweroff (
      keep_if (has_action reboot actions) reboot (keep_if (has_action suspend actions) suspend []));
}

pub record UserSummary : Type 0 where
  pub username : Text
  pub display_name : Text
  pub avatar_url : Option Text

unfoldable pub new_user_summary : Text → Text → Option Text → Result UserSummary ProtocolValueError
unfolding validate_text validate_avatar_url
new_user_summary username display_name avatar_url =
    validate_text username max_username_bytes false true >=> λ _.
    validate_text display_name max_user_display_name_bytes false true >=> λ _.
    validate_avatar_url avatar_url >=> λ _.
    ok (record { username = username; display_name = display_name; avatar_url = avatar_url })

pub record SessionSummary : Type 0 where
  pub id : Text
  pub name : Text
  pub kind : SessionKind

unfoldable pub new_session_summary :
    Text → Text → SessionKind → Result SessionSummary ProtocolValueError
unfolding validate_text
new_session_summary id name kind = validate_text id max_session_id_bytes false true >=> λ _.
    validate_text name max_session_name_bytes false false >=> λ _.
    ok (record { id = id; name = name; kind = kind })

pub data AuthBeginParams : Type 0 where
  greeter : Text → AuthBeginParams
  locker : AuthBeginParams

unfoldable pub username : AuthBeginParams → Option Text
username (greeter name) = some name
username locker = none

unfoldable pub is_locker : AuthBeginParams → Bool
is_locker (greeter name) = false
is_locker locker = true

pub data FrontendRequest : Type 0 where
  state_get : FrontendRequest
  auth_begin : AuthBeginParams → FrontendRequest
  auth_respond : ℕ → Text → FrontendRequest
  auth_cancel : FrontendRequest
  session_select : Text → FrontendRequest
  power_request : PowerAction → FrontendRequest

unfoldable pub new_request_id : ℕ → Result ℕ ProtocolValueError
new_request_id value = if ltb max_safe_integer value then err unsafe_integer else ok value

pub record RequestEnvelope : Type 0 where
  pub id : ℕ
  pub request : FrontendRequest

pub record GreeterSnapshot : Type 0 where
  pub locale : UiLocale
  pub authentication : AuthState
  pub login : LoginState
  pub prompt : Option Prompt
  pub messages : List AuthMessage
  pub sequence : ℕ
  pub users : List UserSummary
  pub sessions : List SessionSummary
  pub selected_session_id : Option Text
  pub capabilities : Capabilities

pub record LockerSnapshot : Type 0 where
  pub locale : UiLocale
  pub authentication : AuthState
  pub lock : LockState
  pub prompt : Option Prompt
  pub messages : List AuthMessage
  pub sequence : ℕ
  pub identity : IdentitySummary
  pub capabilities : Capabilities

pub data StateSnapshot : Type 0 where
  greeter : GreeterSnapshot → StateSnapshot
  locker : LockerSnapshot → StateSnapshot

abbrev pub check_selected : Option Text → List SessionSummary → Result (Unit {0}) ProtocolValueError
check_selected none sessions = ok tt
check_selected (some selected) sessions =
    validate_text selected max_session_id_bytes false true >=> λ _.
    if any (λ session. text_eq session.id selected) sessions then ok tt else err unknown_selection

unfoldable pub greeter_snapshot : GreeterSnapshot → Result StateSnapshot ProtocolValueError
unfolding validate_text text_eq
greeter_snapshot fields =
    if ltb max_auth_messages (length fields.messages)
      || ltb max_users (length fields.users)
      || ltb max_sessions (length fields.sessions)
    then err too_many_items
    else check_selected fields.selected_session_id fields.sessions >=> λ _.
        ok (StateSnapshot.greeter fields)

unfoldable pub locker_snapshot : LockerSnapshot → Result StateSnapshot ProtocolValueError
locker_snapshot fields =
    if ltb max_auth_messages (length fields.messages)
    then err too_many_items
    else ok (StateSnapshot.locker fields)

pub data ResponseResult : Type 0 where
  empty : ResponseResult
  state : StateSnapshot → ResponseResult

-- A response bears the number of its request.
pub data ResponseEnvelope : Type 0 where
  success : ℕ → ResponseResult → ResponseEnvelope
  error : ℕ → ProtocolErrorBody → ResponseEnvelope
