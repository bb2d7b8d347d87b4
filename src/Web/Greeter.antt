-- ===== src/Web/Greeter.antt =====
-- crates/fomalhaut-web/src/controller.rs: the state of `GreeterController`, over a backend and a power
-- control, and its trusted catalog.
pub mod Requests
pub mod Shown
pub mod Trusted
pub mod Rules
pub mod Kept
use mathlib.Core.Option
use fomalhaut.Common.{
  ◌>=>◌, ℕ, Bool, true, false, not, ◌||◌, Option, none, some, map, position, get_elem?, is_empty,
  List, [], ◌∷◌, Result, ok, err, map_err, if◌then◌else◌,
}
use fomalhaut.Core.Types
use fomalhaut.Core.Types.{Text, SessionCommand}
use fomalhaut.Session.Texts.{text_eq}
use fomalhaut.Web.Protocol.{Event, session_selected, watermark, validate_text}
use fomalhaut.Web.Messages.{
  UiLocale, LoginState, UserSummary, SessionSummary, ProtocolErrorBody, ProtocolErrorCode,
  new_error, StateSnapshot, greeter_snapshot, max_session_id_bytes,
}
use fomalhaut.Web.Public.{AuthPublicState, ControllerError, controller_error, new}
use fomalhaut.Web.Client.{LoginBackend, PowerControl, session_not_found_error}

pub record TrustedSession : Type 0 where
  pub summary : SessionSummary
  pub command : SessionCommand

pub record GreeterController (B P : Type 0) : Type 0 where
  pub client : B
  pub auth : AuthPublicState
  pub login : LoginState
  pub sessions : List TrustedSession
  pub users : List UserSummary
  pub power : P
  pub selected_session : Option ℕ
  pub locale : UiLocale

-- A method on `&mut self`.
abbrev pub Method : Type 0 → Type 0 → Type 0 → Type 0 → Type 0
Method B P A E = GreeterController B P × Result A E

abbrev pub is_selectable : Types.AuthState → Bool
is_selectable Types.idle = true
is_selectable Types.authenticating = true
is_selectable Types.waiting_for_secret = true
is_selectable Types.waiting_for_visible = true
is_selectable Types.authenticated = true
is_selectable Types.failed = true
is_selectable _ = false

abbrev pub selected_id : Option ℕ → List TrustedSession → Option Text
selected_id none sessions = none
selected_id (some n) sessions = Option.map (λ s. s.summary.id) (get_elem? sessions n)

unfoldable pub session_selected_data : Text → Result Text ProtocolErrorBody
unfolding validate_text new_error
session_selected_data id =
    map_err
      (λ _.
        new_error ProtocolErrorCode.internal "the selected session could not be represented" false)
      (validate_text id max_session_id_bytes false true >=> λ _. ok id)

-- A method of the field `auth`, which may use the field `client`.
abbrev pub on_auth :
    {B P A : Type 0}
    → GreeterController B P
    → (AuthPublicState × B) × Result A ControllerError
    → Method B P A ControllerError
on_auth c ((a, b), r) = (record c { auth = a; client = b }, r)

module _ {B P : Type 0} (k : LoginBackend B) where
  unfoldable pub with_locale_and_power_control :
      B → List TrustedSession → List UserSummary → P → UiLocale → GreeterController B P
  unfolding new
  with_locale_and_power_control client sessions users power locale = record {
    client = client;
    auth = new (k.conversation.state client);
    login = if k.session_started client then LoginState.started else LoginState.idle;
    sessions = sessions;
    users = users;
    power = power;
    selected_session = if not (is_empty sessions) then some 0 else none;
    locale = locale;
  }

  unfoldable pub snapshot :
      PowerControl P → GreeterController B P → Result StateSnapshot ControllerError
  unfolding greeter_snapshot watermark
  snapshot w c =
      map_err (λ _. controller_error "the controller public state is invalid")
        (greeter_snapshot (record {
          locale = c.locale;
          authentication = c.auth.authentication;
          login = c.login;
          prompt = c.auth.prompt;
          messages = c.auth.messages;
          sequence = watermark c.auth.sequences;
          users = c.users;
          sessions = map (λ s. s.summary) c.sessions;
          selected_session_id = selected_id c.selected_session c.sessions;
          capabilities = w.capabilities c.power;
        }))

  abbrev pub chosen :
      GreeterController B P → Text → Option ℕ → Method B P (List Event) ProtocolErrorBody
  chosen c session_id none = (c, err session_not_found_error)
  chosen c session_id (some index) = (
    record c { selected_session = some index },
    session_selected_data session_id >=> λ event. ok (session_selected event ∷ []),
  )

  unfoldable pub select_session :
      GreeterController B P → Text → Method B P (List Event) ProtocolErrorBody
  unfolding session_not_found_error new_error text_eq session_selected_data
  select_session c session_id =
      if k.session_started c.client || not (is_selectable (k.conversation.state c.client))
      then (
        c,
        err (
            new_error ProtocolErrorCode.invalid_state
              "session selection is invalid in the current authentication state" false),
      )
      else chosen c session_id (position (λ s. text_eq s.summary.id session_id) c.sessions)
