-- ===== src/Examples/Controllers.antt =====
-- Controllers over a backend that follows a script.
use fomalhaut.Common.{
  ◌<◌, Bool, true, false, none, List, [], ◌∷◌, Result, ok, err, length, ◌≡◌, refl, arith,
}
use fomalhaut.Core.Types
use fomalhaut.Core.Types.{Text, AuthEvent, BackendError, core, CoreError, SessionCommand}
use fomalhaut.Session.Texts.{chars}
use fomalhaut.Web.Protocol
use fomalhaut.Web.Protocol.{IdentitySummary, Event}
use fomalhaut.Web.Messages.{
  UiLocale, FrontendRequest, AuthBeginParams, RequestEnvelope, PowerAction, with_power, LockState,
  SessionKind, ResponseEnvelope, ResponseResult, StateSnapshot,
}
use fomalhaut.Web.Client.{ConversationBackend, LoginBackend, ReauthBackend, PowerControl}
use fomalhaut.Web.Batch.{ControllerBatch}
use fomalhaut.Pam.Backend
use fomalhaut.Web.Locker
use fomalhaut.Web.Locker.{LockerController}
use fomalhaut.Web.Locker.Requests
use fomalhaut.Web.Locker.Lifecycle
use fomalhaut.Examples.Workers.{waiting, waiting-IsSound}
use fomalhaut.Pam.Backend.Reauth.{SoundBackend, pam_reauth}
use fomalhaut.Web.Locker.Lifecycle.{WasOpened, run-WasOpened}
use fomalhaut.Web.Locker.Shown.{run-IsShown}
use fomalhaut.Web.Locker.Consecutive.{sent_over-numbered}
use fomalhaut.Web.Locker.Numbers.{sent_over}
use fomalhaut.Web.Locker.Authorized.{IsAuthorized, handle-IsAuthorized}
use fomalhaut.Web.Locker.Vouched.{IsBacked, handle-IsBacked}
use fomalhaut.Web.Public.Follows.{IsConsecutive, events_of}
use fomalhaut.Web.Public.Shown.{IsShown}
use fomalhaut.Web.Greeter.Trusted.{IsTrusted, logged, run-IsTrusted}
use fomalhaut.Web.Greeter.Shown.{IsCatalog, fields, handle-snapshot}
use fomalhaut.Web.Greeter.{GreeterController, TrustedSession}
use fomalhaut.Web.Greeter
use fomalhaut.Web.Greeter.Trusted

-- What the next call leads to: a state, and the events that it emits.
abbrev pub Step : Type 0
Step = Types.AuthState × List AuthEvent

pub record Script : Type 0 where
  pub state : Types.AuthState
  pub queue : List AuthEvent
  pub steps : List Step

abbrev pub advance : List Step → Script → Script × Result (Unit {0}) BackendError
advance [] s = (s, err BackendError.unavailable)
advance ((state, events) ∷ steps) s =
    (record { state = state; queue = events; steps = steps }, ok tt)

abbrev pub take_event : List AuthEvent → Script → Script × Result AuthEvent BackendError
take_event [] s = (s, err (core CoreError.no_pending_event))
take_event (e ∷ es) s = (record s { queue = es }, ok e)

pub take_event-falls :
    (es : List AuthEvent) (s : Script) (e : AuthEvent)
    → (take_event es s).1 ≡ ok e
    → s.queue ≡ es
    → length (take_event es s).0.queue < length es
take_event-falls [] s e h i = cc
take_event-falls (x ∷ xs) s e h i = omega arith

abbrev pub is_waiting : Types.AuthState → Bool
is_waiting Types.waiting_for_secret = true
is_waiting Types.authenticating = true
is_waiting _ = false

abbrev pub scripted : ConversationBackend Script
scripted = record {
  state = λ s. s.state;
  needs_cancel = λ s. is_waiting s.state;
  respond = λ s p response. advance s.steps s;
  cancel = λ s. advance s.steps s;
  next_event = λ s. take_event s.queue s;
  pending = λ s. length s.queue;
  pending_falls = λ s e h. take_event-falls s.queue s e h refl;
}

abbrev pub reauth : ReauthBackend Script
reauth = record { conversation = scripted; begin_reauth = λ s. advance s.steps s }

abbrev pub login : LoginBackend Script
login = record {
  conversation = scripted;
  begin_login = λ s name. advance s.steps s;
  start_session = λ s command. advance s.steps s;
  session_started = λ s. false;
}

-- Any power operation but a suspension.
abbrev pub power : PowerControl (List PowerAction)
power = record {
  capabilities = λ done. with_power (PowerAction.poweroff ∷ PowerAction.reboot ∷ []);
  request = λ done action. (action ∷ done, ok tt);
}

abbrev pub asks : Step
asks = (Types.waiting_for_secret, Types.prompt 1 Types.secret (chars "Password:") ∷ [])

abbrev pub accepts : Step
accepts = (Types.authenticated, Types.authenticated (record { account_name = chars "al" }) ∷ [])

abbrev pub idle : Script
idle = record { state = Types.idle; queue = []; steps = asks ∷ accepts ∷ [] }

abbrev identity : IdentitySummary
identity = record { username = chars "al"; display_name = chars "Al"; avatar_url = none }

abbrev pub begins : RequestEnvelope
begins = record { id = 1; request = FrontendRequest.auth_begin AuthBeginParams.locker }

abbrev pub answers : RequestEnvelope
answers = record { id = 2; request = FrontendRequest.auth_respond 1 (chars "pw") }

abbrev calls : List Lifecycle.Call
calls =
    Lifecycle.acquires
    ∷ Lifecycle.handles begins
    ∷ Lifecycle.handles answers
    ∷ Lifecycle.unlocks
    ∷ Lifecycle.releases
    ∷ []

abbrev locker : LockerController Script (List PowerAction)
unfolding Requests.with_locale_and_power_control
locker = Requests.with_locale_and_power_control reauth power idle identity [] UiLocale.english

ends_released : (Lifecycle.run reauth power locker calls).lock ≡ LockState.released
unfolding Locker.mark_lock_released Locker.begin_unlock Requests.handle Locker.mark_lock_acquired
    locker
ends_released = refl

run-WasOpened_example : WasOpened reauth power locker calls
unfolding locker
run-WasOpened_example = run-WasOpened reauth power locker calls refl ends_released

run-IsShown_example :
    IsShown
      (Lifecycle.run reauth power
        (Requests.with_locale_and_power_control reauth power idle identity [] UiLocale.english)
        calls).auth
run-IsShown_example = run-IsShown reauth power idle identity [] UiLocale.english calls

sent_over-numbered_example : IsConsecutive 1 (
    sent_over reauth power
      (Requests.with_locale_and_power_control reauth power idle identity [] UiLocale.english)
      calls)
sent_over-numbered_example = sent_over-numbered reauth power idle identity [] UiLocale.english calls

sends_events :
    events_of (
      sent_over reauth power
        (Requests.with_locale_and_power_control reauth power idle identity [] UiLocale.english)
        calls)
    ≡ Event.lock_acquired
      ∷ Event.state_changed Protocol.waiting_for_secret
      ∷ Event.auth_prompt
          (record { prompt_id = 1; kind = Protocol.PromptKind.secret; message = chars "Password:" })
      ∷ Event.state_changed Protocol.authenticated
      ∷ Event.auth_succeeded
      ∷ Event.lock_released
      ∷ []
unfolding Locker.mark_lock_acquired Requests.with_locale_and_power_control Requests.handle
    Locker.mark_lock_released Locker.begin_unlock
sends_events = refl

-- After the first answer.
abbrev asked : LockerController Script (List PowerAction)
unfolding locker Requests.handle Locker.mark_lock_acquired
asked = Lifecycle.run reauth power locker (Lifecycle.acquires ∷ Lifecycle.handles begins ∷ [])

abbrev success : ControllerBatch
success = record {
  response = ResponseEnvelope.success 2 ResponseResult.empty;
  events =
      record { sequence = 4; event = Event.state_changed Protocol.authenticated }
      ∷ record { sequence = 5; event = Event.auth_succeeded }
      ∷ [];
  session_started = false;
  unlock_authorized = true;
  trusted_fallback = false;
}

authorizes : (Requests.handle reauth power asked answers).1 ≡ ok success
unfolding Requests.handle asked
authorizes = refl

handle-IsAuthorized_example :
    (asked.lock ≡ LockState.locked)
    × IsAuthorized reauth power 2 asked.auth.authentication
        (Requests.handle reauth power asked answers).0
        success
handle-IsAuthorized_example = handle-IsAuthorized reauth power asked answers success authorizes refl

-- The greeter.
abbrev command : SessionCommand
command = record { command = chars "sway" ∷ []; environment = [] }

abbrev pub sessions : List TrustedSession
sessions =
    record {
      summary = record {
        id = chars "wayland:sway";
        name = chars "Sway";
        kind = SessionKind.wayland;
      };
      command = command;
    }
    ∷ []

abbrev logs_in : List Trusted.Call
logs_in =
    Trusted.handles (record {
      id = 1;
      request = FrontendRequest.auth_begin (AuthBeginParams.greeter (chars "al"));
    })
    ∷ Trusted.handles answers
    ∷ []

starts_one :
    (Trusted.run
      (logged login)
      power
      (Greeter.with_locale_and_power_control
        (logged login)
        (idle, [])
        sessions
        []
        []
        UiLocale.english)
      logs_in).client.1
    ≡ record { state = Types.authenticated; command = command } ∷ []
unfolding fomalhaut.Web.Greeter.Requests.handle Greeter.with_locale_and_power_control
starts_one = refl

sessions-IsCatalog : IsCatalog sessions []
unfolding fomalhaut.Web.Protocol.validate_text
sessions-IsCatalog = record {
  few_sessions = omega arith;
  few_users = omega arith;
  valid = (refl, tt);
}

abbrev logged_in : GreeterController Script (List PowerAction)
unfolding Greeter.with_locale_and_power_control
logged_in =
    Trusted.run login power
      (Greeter.with_locale_and_power_control login idle sessions [] [] UiLocale.english) logs_in

handle-snapshot_example :
    fomalhaut.Web.Greeter.Requests.handle login power logged_in
      (record { id = 3; request = FrontendRequest.state_get })
    ≡ (
      logged_in,
      ok (record {
        response = ResponseEnvelope.success 3 (
            ResponseResult.state
              (StateSnapshot.greeter (fields sessions [] login power logged_in)));
        events = [];
        session_started = false;
        unlock_authorized = false;
        trusted_fallback = false;
      }),
    )
unfolding logged_in
handle-snapshot_example =
    handle-snapshot sessions [] login power idle [] UiLocale.english logs_in 3 sessions-IsCatalog

-- The locker over the PAM backend, where a worker waits for an answer.
abbrev manned : LockerController SoundBackend (List PowerAction)
manned = record {
  client = record { backend = waiting; sound = waiting-IsSound };
  auth = record asked.auth { sequences = record { next = 4 } };
  lock = LockState.locked;
  identity = identity;
  power = [];
  locale = UiLocale.english;
}

unlocks_manned : (Requests.handle pam_reauth power manned answers).1 ≡ ok success
unfolding Requests.handle pam_reauth asked Backend.drive_worker_for Backend.round
unlocks_manned = refl

handle-IsBacked_example : IsBacked waiting
handle-IsBacked_example = handle-IsBacked power manned answers success (λ e. cc) unlocks_manned refl
