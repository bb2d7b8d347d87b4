-- ===== src/Web/Public.antt =====
-- crates/fomalhaut-web/src/controller.rs: `AuthPublicState`, the authentication that a theme sees.
pub mod Numbers
pub mod Shown
pub mod Follows
use fomalhaut.Common.{
  ℕ, ◌+◌, Bool, true, false, String, Option, none, some, List, [], ◌∷◌, ◌++◌, drop, Result, ok, err,
  map_err, ◌>=>◌, ◌==◌, if◌then◌else◌, length,
}
use fomalhaut.Core.Types
use fomalhaut.Core.Types.{Text, CoreError, BackendError}
use fomalhaut.Web.Protocol.{
  max_auth_messages, AuthState, PromptKind, MessageLevel, new_prompt_id, Prompt, new_prompt,
  AuthMessage, new_message, Event, EventEnvelope, EventSequence, first_sequence, allocate,
  ProtocolValueError,
}

pub data ControllerError : Type 0 where
  controller_error : String → ControllerError

pub record AuthPublicState : Type 0 where
  pub authentication : AuthState
  pub prompt : Option Prompt
  pub core_prompt : Option ℕ
  pub messages : List AuthMessage
  pub sequences : EventSequence

unfoldable pub map_state : Types.AuthState → AuthState
map_state Types.disconnected = AuthState.failed
map_state Types.idle = AuthState.idle
map_state Types.authenticating = AuthState.authenticating
map_state Types.waiting_for_secret = AuthState.waiting_for_secret
map_state Types.waiting_for_visible = AuthState.waiting_for_visible
map_state Types.authenticated = AuthState.authenticated
map_state Types.cancelling = AuthState.cancelling
map_state Types.failed = AuthState.failed

unfoldable pub new : Types.AuthState → AuthPublicState
unfolding map_state
new state = record {
  authentication = map_state state;
  prompt = none;
  core_prompt = none;
  messages = [];
  sequences = first_sequence;
}

unfoldable pub reset_conversation : AuthPublicState → AuthPublicState
reset_conversation a = record a { prompt = none; core_prompt = none; messages = [] }

unfoldable pub update_state : AuthPublicState → Types.AuthState → AuthPublicState
unfolding map_state
update_state a state = record a { authentication = map_state state }

abbrev pub enveloped :
    Event
    → (EventSequence → EventSequence × Result (List EventEnvelope) ControllerError)
    → EventSequence × Result ℕ ProtocolValueError
    → EventSequence × Result (List EventEnvelope) ControllerError
enveloped event rest (s, err e) =
    (s, err (controller_error "the frontend event sequence is exhausted"))
enveloped event rest (s, ok sequence) =
    let (t, r) = rest s in (t, r >=> λ es. ok (record { sequence = sequence; event = event } ∷ es))

-- `map` and `collect`: the first error ends it.
unfoldable pub number_events :
    EventSequence → List Event → EventSequence × Result (List EventEnvelope) ControllerError
unfolding allocate
number_events s [] = (s, ok [])
number_events s (event ∷ events) = enveloped event (λ s. number_events s events) (allocate s)

unfoldable pub envelope_events :
    AuthPublicState → List Event → AuthPublicState × Result (List EventEnvelope) ControllerError
unfolding number_events
envelope_events a events =
    let (s, r) = number_events a.sequences events in (record a { sequences = s }, r)

abbrev pub prompt_kind : Types.PromptKind → PromptKind
prompt_kind Types.secret = PromptKind.secret
prompt_kind Types.visible = PromptKind.visible

abbrev pub message_level : Types.MessageLevel → MessageLevel
message_level Types.info = MessageLevel.info
message_level Types.error = MessageLevel.error

abbrev pub show_prompt :
    AuthPublicState
    → ℕ
    → Result Prompt ControllerError
    → AuthPublicState × Result Event ControllerError
show_prompt a id (ok p) =
    (record a { core_prompt = some id; prompt = some p }, ok (Event.auth_prompt p))
show_prompt a id (err e) = (a, err e)

abbrev pub show_message :
    AuthPublicState
    → Result AuthMessage ControllerError
    → AuthPublicState × Result Event ControllerError
show_message a (err e) = (a, err e)
show_message a (ok m) = (
  record a {
    messages =
        (if length a.messages == max_auth_messages then drop 1 a.messages else a.messages)
        ++ m ∷ [];
  },
  ok (Event.auth_message m),
)

abbrev pub close : AuthPublicState → Event → AuthPublicState × Result Event ControllerError
close a event = (record a { prompt = none; core_prompt = none }, ok event)

unfoldable pub apply_core_event :
    AuthPublicState → Types.AuthEvent → AuthPublicState × Result Event ControllerError
unfolding new_prompt_id new_prompt new_message
apply_core_event a (Types.prompt id kind text) = show_prompt a id (
    map_err (λ _. controller_error "the core prompt ID is not frontend-safe") (new_prompt_id id)
    >=> λ prompt_id.
        map_err (λ _. controller_error "the core prompt exceeds frontend protocol limits")
          (new_prompt prompt_id (prompt_kind kind) text))
apply_core_event a (Types.message level text) = show_message a (
    map_err (λ _. controller_error "the core message exceeds frontend protocol limits")
      (new_message (message_level level) text))
apply_core_event a (Types.authenticated identity) = close a Event.auth_succeeded
apply_core_event a Types.authentication_failed = close a Event.auth_failed
apply_core_event a Types.cancelled = close a Event.auth_cancelled
