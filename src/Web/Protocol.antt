-- ===== src/Web/Protocol.antt =====
-- crates/fomalhaut-web/src/protocol: message.rs, request.rs and value.rs, the values of the protocol
-- and their bounds. A text is the list of its UTF-8 bytes.
use fomalhaut.Common.{
  ℕ, ◌+◌, ◌-◌, Bool, true, false, not, ◌&&◌, ◌||◌, Option, none, some, Result, ok, err, ◌>=>◌, leb,
  ltb, if◌then◌else◌, length, is_empty, all, contains,
}
use fomalhaut.Core.Types.{Text}
use fomalhaut.Pam.Identity.{has_control, strip_prefix}
use fomalhaut.Session.Texts.{chars}

abbrev pub max_username_bytes : ℕ
max_username_bytes = 256

abbrev pub max_user_display_name_bytes : ℕ
max_user_display_name_bytes = 256

abbrev pub max_avatar_url_bytes : ℕ
max_avatar_url_bytes = 64

abbrev pub max_display_text_bytes : ℕ
max_display_text_bytes = 4096

abbrev pub max_auth_messages : ℕ
max_auth_messages = 16

abbrev pub max_safe_integer : ℕ
max_safe_integer = 9007199254740991

pub data ProtocolValueError : Type 0 where
  empty too_long invalid_character unsafe_integer too_many_items : ProtocolValueError
  unknown_selection sequence_exhausted : ProtocolValueError

unfoldable pub validate_text : Text → ℕ → Bool → Bool → Result (Unit {0}) ProtocolValueError
validate_text value maximum_bytes allow_empty reject_controls =
    if not allow_empty && is_empty value
    then err empty
    else if ltb maximum_bytes (length value)
    then err too_long
    else if contains 0 value || (reject_controls && has_control value)
    then err invalid_character
    else ok tt

pub data AuthState : Type 0 where
  idle authenticating waiting_for_secret waiting_for_visible authenticated cancelling : AuthState
  failed : AuthState

pub data PromptKind : Type 0 where
  secret visible : PromptKind

pub data MessageLevel : Type 0 where
  info error : MessageLevel

-- A `PromptId` is the number that it wraps.
unfoldable pub new_prompt_id : ℕ → Result ℕ ProtocolValueError
new_prompt_id value = if ltb max_safe_integer value then err unsafe_integer else ok value

pub record Prompt : Type 0 where
  pub prompt_id : ℕ
  pub kind : PromptKind
  pub message : Text

unfoldable pub new_prompt : ℕ → PromptKind → Text → Result Prompt ProtocolValueError
unfolding validate_text
new_prompt prompt_id kind message = validate_text message max_display_text_bytes true false >=> λ _.
    ok (record { prompt_id = prompt_id; kind = kind; message = message })

pub record AuthMessage : Type 0 where
  pub level : MessageLevel
  pub text : Text

unfoldable pub new_message : MessageLevel → Text → Result AuthMessage ProtocolValueError
unfolding validate_text
new_message level text = validate_text text max_display_text_bytes true false >=> λ _.
    ok (record { level = level; text = text })

abbrev pub is_digit : ℕ → Bool
is_digit c = leb 48 c && leb c 57

abbrev pub validate_identifier : Option Text → Result (Unit {0}) ProtocolValueError
validate_identifier none = err invalid_character
validate_identifier (some identifier) =
    if is_empty identifier || not (all is_digit identifier) then err invalid_character else ok tt

unfoldable pub validate_avatar_url : Option Text → Result (Unit {0}) ProtocolValueError
unfolding validate_text
validate_avatar_url none = ok tt
validate_avatar_url (some url) = validate_text url max_avatar_url_bytes false true >=> λ _.
    validate_identifier (strip_prefix (chars "fomalhaut://avatar/") url)

pub record IdentitySummary : Type 0 where
  pub username : Text
  pub display_name : Text
  pub avatar_url : Option Text

unfoldable pub new_identity_summary :
    Text → Text → Option Text → Result IdentitySummary ProtocolValueError
unfolding validate_text validate_avatar_url
new_identity_summary username display_name avatar_url =
    validate_text username max_username_bytes false true >=> λ _.
    validate_text display_name max_user_display_name_bytes false true >=> λ _.
    validate_avatar_url avatar_url >=> λ _.
    ok (record { username = username; display_name = display_name; avatar_url = avatar_url })

-- The events; the session that was selected stands for `SessionSelectedData`.
pub data Event : Type 0 where
  state_changed : AuthState → Event
  auth_prompt : Prompt → Event
  auth_message : AuthMessage → Event
  auth_succeeded auth_failed auth_cancelled : Event
  session_selected : Text → Event
  session_started lock_acquired lock_failed lock_released : Event

-- The version of the protocol is 1 in every envelope.
pub record EventEnvelope : Type 0 where
  pub sequence : ℕ
  pub event : Event

pub record EventSequence : Type 0 where
  pub next : ℕ

abbrev pub first_sequence : EventSequence
first_sequence = record { next = 1 }

unfoldable pub allocate : EventSequence → EventSequence × Result ℕ ProtocolValueError
allocate s =
    if ltb max_safe_integer s.next
    then (s, err sequence_exhausted)
    else if leb 18446744073709551615 s.next
    then (s, err sequence_exhausted)
    else (record { next = s.next + 1 }, ok s.next)

unfoldable pub watermark : EventSequence → ℕ
watermark s = s.next - 1
