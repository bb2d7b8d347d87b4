-- ===== src/Web/Decode.antt =====
-- crates/fomalhaut-web/src/protocol/request.rs: the decoding of a request. The JSON codec is a parameter.
pub mod Accepted
pub mod Answered
use fomalhaut.Common.{
  ℕ, Bool, true, false, not, Option, none, some, is_some, List, Result, ok, err, map_err, ok_or,
  ◌>=>◌, ◌==◌, ltb, length, if◌then◌else◌,
}
use fomalhaut.Core.Types.{Text}
use fomalhaut.Session.Texts.{chars, text_eq}
use fomalhaut.Web.Protocol.{validate_text, ProtocolValueError, new_prompt_id, max_username_bytes}
use fomalhaut.Web.Messages.{
  ProtocolErrorBody, ProtocolErrorCode, new_error, PowerAction, AuthBeginParams, greeter, locker,
  username, is_locker, FrontendRequest, state_get, auth_begin, auth_respond, auth_cancel,
  session_select, power_request, new_request_id, RequestEnvelope, max_session_id_bytes,
  max_auth_response_bytes,
}

abbrev pub protocol_version : ℕ
protocol_version = 1

abbrev pub max_message_bytes : ℕ
max_message_bytes = 131072

pub data RuntimeMode : Type 0 where
  greeter_mode locker_mode : RuntimeMode

pub record RawEnvelope (V : Type 0) : Type 0 where
  pub protocol : ℕ
  pub id : ℕ
  pub method : Text
  pub params : V

pub data RawRoleAuthBeginParams : Type 0 where
  raw_greeter : Text → RawRoleAuthBeginParams
  raw_locker : RawRoleAuthBeginParams

-- serde_json over its values `V`: reading a text, the number under "id" of an object, and what each
-- type is read from. Values that are no object have no number there, although some are read, such as
-- an array of the fields of an envelope.
pub record Json (V : Type 0) : Type 0 where
  pub from_slice : Text → Option V
  pub object_id : V → Option ℕ
  pub envelope : V → Option (RawEnvelope V)
  pub empty_params : V → Option (Unit {0})
  pub auth_begin_params : V → Option RawRoleAuthBeginParams
  pub auth_respond_params : V → Option (ℕ × Text)
  pub session_select_params : V → Option Text
  pub power_request_params : V → Option PowerAction

pub record ProtocolDecodeError : Type 0 where
  pub request_id : Option ℕ
  pub body : ProtocolErrorBody

abbrev pub refused : {A : Type 0} → Option ℕ → ProtocolErrorBody → Result A ProtocolDecodeError
refused id body = err (record { request_id = id; body = body })

abbrev pub invalid_json : ProtocolErrorBody
unfolding new_error
invalid_json = new_error ProtocolErrorCode.invalid_json "invalid JSON message" false

abbrev pub message_too_large : ProtocolErrorBody
unfolding new_error
message_too_large =
    new_error ProtocolErrorCode.message_too_large "protocol message exceeds the size limit" false

abbrev pub unsupported_version : ProtocolErrorBody
unfolding new_error
unsupported_version =
    new_error ProtocolErrorCode.unsupported_version "unsupported protocol version" false

abbrev pub invalid_request : ProtocolErrorBody
unfolding new_error
invalid_request = new_error ProtocolErrorCode.invalid_request "invalid request envelope" false

abbrev pub unknown_method : ProtocolErrorBody
unfolding new_error
unknown_method = new_error ProtocolErrorCode.unknown_method "unknown protocol method" false

abbrev pub invalid_params : ProtocolErrorBody
unfolding new_error
invalid_params = new_error ProtocolErrorCode.invalid_params "invalid method parameters" false

-- `ProtocolSecret::new`.
unfoldable pub new_secret : Text → Result Text ProtocolValueError
unfolding validate_text
new_secret value = validate_text value max_auth_response_bytes true false >=> λ _. ok value

unfoldable pub new_greeter_params : Text → Result AuthBeginParams ProtocolValueError
unfolding validate_text
new_greeter_params name =
    validate_text name max_username_bytes false true >=> λ _. ok (greeter name)

unfoldable pub new_session_select : Text → Result Text ProtocolValueError
unfolding validate_text
new_session_select id = validate_text id max_session_id_bytes false true >=> λ _. ok id

abbrev pub failure : Option ℕ → ProtocolErrorBody → ProtocolDecodeError
failure id body = record { request_id = id; body = body }

-- `map_err(invalid)`.
abbrev pub valid : {A : Type 0} → ℕ → Result A ProtocolValueError → Result A ProtocolDecodeError
valid id r = map_err (λ _. failure (some id) invalid_params) r

abbrev pub role_params : ℕ → RawRoleAuthBeginParams → Result AuthBeginParams ProtocolDecodeError
role_params id (raw_greeter name) = valid id (new_greeter_params name)
role_params id raw_locker = ok locker

module _ {V : Type 0} (j : Json V) where
  abbrev pub parse_params : {A : Type 0} → Option A → ℕ → Result A ProtocolDecodeError
  parse_params read id = ok_or read (failure (some id) invalid_params)

  unfoldable pub decode_method : Text → V → ℕ → Result FrontendRequest ProtocolDecodeError
  unfolding text_eq new_secret new_greeter_params new_session_select new_prompt_id
  decode_method method params id =
      if text_eq method (chars "state.get")
      then (parse_params (j.empty_params params) id >=> λ _. ok state_get)
      else if text_eq method (chars "auth.begin")
      then (parse_params (j.auth_begin_params params) id >=> λ raw.
          role_params id raw >=> λ p. ok (auth_begin p))
      else if text_eq method (chars "auth.respond")
      then (parse_params (j.auth_respond_params params) id >=> λ raw.
          valid id (new_prompt_id raw.0) >=> λ prompt_id.
          valid id (new_secret raw.1) >=> λ response. ok (auth_respond prompt_id response))
      else if text_eq method (chars "auth.cancel")
      then (parse_params (j.empty_params params) id >=> λ _. ok auth_cancel)
      else if text_eq method (chars "session.select")
      then (parse_params (j.session_select_params params) id >=> λ raw.
          valid id (new_session_select raw) >=> λ session. ok (session_select session))
      else if text_eq method (chars "power.request")
      then (parse_params (j.power_request_params params) id >=> λ action. ok (power_request action))
      else refused (some id) unknown_method

  abbrev pub hint : Option ℕ → Option ℕ
  hint none = none
  hint (some n) = elim (new_request_id n) [ ok id ↦ some id | err e ↦ none ]

  unfoldable pub request_id_hint : V → Option ℕ
  unfolding new_request_id
  request_id_hint v = hint (j.object_id v)

  abbrev pub decode_raw : RawEnvelope V → ℕ → Result RequestEnvelope ProtocolDecodeError
  decode_raw raw id =
      if not (raw.protocol == protocol_version)
      then refused (some id) unsupported_version
      else decode_method raw.method raw.params id >=> λ request.
          ok (record { id = id; request = request })

  unfoldable pub decode_value : V → Result RequestEnvelope ProtocolDecodeError
  unfolding request_id_hint decode_method new_request_id
  decode_value value =
      ok_or (j.envelope value) (failure (request_id_hint value) invalid_request) >=> λ raw.
      map_err (λ _. failure (request_id_hint value) invalid_request) (new_request_id raw.id)
      >=> λ id. decode_raw raw id

  unfoldable pub decode_request : Text → Result RequestEnvelope ProtocolDecodeError
  unfolding decode_value
  decode_request input =
      if ltb max_message_bytes (length input)
      then refused none message_too_large
      else ok_or (j.from_slice input) (failure none invalid_json) >=> λ value. decode_value value

unfoldable pub is_allowed : RuntimeMode → FrontendRequest → Bool
unfolding username is_locker
is_allowed greeter_mode (auth_begin params) = is_some (username params)
is_allowed locker_mode (auth_begin params) = is_locker params
is_allowed locker_mode (session_select id) = false
is_allowed _ _ = true

unfoldable pub disallowed : FrontendRequest → ProtocolErrorBody
unfolding new_error
disallowed (session_select id) =
    new_error ProtocolErrorCode.method_disabled "the method is disabled for this host mode" false
disallowed _ = invalid_params

abbrev pub for_mode : RuntimeMode → RequestEnvelope → Result RequestEnvelope ProtocolDecodeError
for_mode mode r =
    if is_allowed mode r.request then ok r else refused (some r.id) (disallowed r.request)

unfoldable pub decode_request_for_mode :
    {V : Type 0} → Json V → Text → RuntimeMode → Result RequestEnvelope ProtocolDecodeError
unfolding decode_request is_allowed disallowed
decode_request_for_mode j input mode = decode_request j input >=> λ r. for_mode mode r
