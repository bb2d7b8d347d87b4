-- ===== src/Web/Greeter/Trusted.antt =====
-- Which sessions `GreeterController` (crates/fomalhaut-web/src/controller.rs) starts.
use fomalhaut.Common.{ℕ, some, List, [], ◌∷◌, All, get_elem?, ◌≡◌, refl, subst}
use fomalhaut.Core.Types
use fomalhaut.Core.Types.{Text, SessionCommand, BackendError, AuthEvent}
use fomalhaut.Web.Protocol.{EventSequence}
use fomalhaut.Web.Messages.{RequestEnvelope, UserSummary, UiLocale}
use fomalhaut.Web.Client.{LoginBackend, PowerControl}
use fomalhaut.Web.Greeter.{GreeterController, TrustedSession, with_locale_and_power_control}
use fomalhaut.Web.Greeter.Requests.{handle, cancel_for_lifecycle}
use fomalhaut.Web.Greeter.Rules.{IsStable, cancel_for_lifecycle-Stable}
use fomalhaut.Web.Greeter.Kept.{handle-Kept}

-- The public methods that change a controller.
pub data Call : Type 0 where
  handles : RequestEnvelope → Call
  cancels : Call

module _ {B P : Type 0} (k : LoginBackend B) (w : PowerControl P) where
  abbrev pub called : GreeterController B P → Call → GreeterController B P
  called c (handles r) = (handle k w c r).0
  called c cancels = (cancel_for_lifecycle k c).0

  abbrev pub run : GreeterController B P → List Call → GreeterController B P
  run c [] = c
  run c (call ∷ calls) = run (called c call) calls

  module _ (R : GreeterController B P → Type 0) (h : IsStable k w R)
      (numbers : (c : GreeterController B P) (s : EventSequence)
        → R c
        → R (record c { auth = record c.auth { sequences = s } })) where
    pub run-Kept : (c : GreeterController B P) (calls : List Call) → R c → R (run c calls)
    run-Kept c [] r = r
    run-Kept c (handles q ∷ calls) r =
        run-Kept (handle k w c q).0 calls (handle-Kept k w R h numbers c q r)
    run-Kept c (cancels ∷ calls) r =
        run-Kept (cancel_for_lifecycle k c).0 calls (cancel_for_lifecycle-Stable k w R h c r)

-- A call of start_session: the state that it found, and its command.
pub record Start : Type 0 where
  pub state : Types.AuthState
  pub command : SessionCommand

-- A backend beside the calls of start_session that it got.
abbrev pub logged : {B : Type 0} → LoginBackend B → LoginBackend (B × List Start)
logged k = record {
  conversation = record {
    state = λ x. k.conversation.state x.0;
    needs_cancel = λ x. k.conversation.needs_cancel x.0;
    respond = λ x p response. let (b, r) = k.conversation.respond x.0 p response in ((b, x.1), r);
    cancel = λ x. let (b, r) = k.conversation.cancel x.0 in ((b, x.1), r);
    next_event = λ x. let (b, r) = k.conversation.next_event x.0 in ((b, x.1), r);
    pending = λ x. k.conversation.pending x.0;
    pending_falls = λ x e i. k.conversation.pending_falls x.0 e i;
  };
  begin_login = λ x name. let (b, r) = k.begin_login x.0 name in ((b, x.1), r);
  start_session = λ x command.
      let (b, r) = k.start_session x.0 command in
      ((b, record { state = k.conversation.state x.0; command = command } ∷ x.1), r);
  session_started = λ x. k.session_started x.0;
}

-- A start that the trusted host stands behind.
pub record IsTrusted (sessions : List TrustedSession) (s : Start) : Type 0 where
  pub authenticated : s.state ≡ Types.authenticated
  pub at : ℕ
  pub session : TrustedSession
  pub offered : get_elem? sessions at ≡ some session
  pub commanded : s.command ≡ session.command

module _ {B P : Type 0} (k : LoginBackend B) (w : PowerControl P) where
  record StartsTrusted (sessions : List TrustedSession) (c : GreeterController (B × List Start) P)
      : Type 0 where
    same : c.sessions ≡ sessions
    trusted : All (IsTrusted sessions) c.client.1

  StartsTrusted-IsStable :
      (sessions : List TrustedSession) → IsStable (logged k) w (StartsTrusted sessions)
  StartsTrusted-IsStable sessions = record {
    conversation = λ c. record {
      consumes = λ a b h. record { same = h.same; trusted = h.trusted };
      applies = λ a b e h. record { same = h.same; trusted = h.trusted };
      closes = λ a b h. record { same = h.same; trusted = h.trusted };
      updates = λ a b h. record { same = h.same; trusted = h.trusted };
      cancels = λ a b h. record { same = h.same; trusted = h.trusted };
    };
    resets = λ c h. record { same = h.same; trusted = h.trusted };
    logs = λ c l h. record { same = h.same; trusted = h.trusted };
    responds = λ c p response h i. record { same = h.same; trusted = h.trusted };
    begins = λ c name h. record { same = h.same; trusted = h.trusted };
    selects = λ c id n h i. record { same = h.same; trusted = h.trusted };
    starts = λ c n s h a i j. record {
      same = h.same;
      trusted = (
        record {
          authenticated = a;
          at = n;
          session = s;
          offered = subst (λ (ss : List TrustedSession). get_elem? ss n ≡ some s) h.same j;
          commanded = refl;
        },
        h.trusted,
      );
    };
    powers = λ c action h i. record { same = h.same; trusted = h.trusted };
  }

  -- Whatever a theme requests and whatever the backend does, every session that a greeter controller
  -- starts has the command of an entry of the catalog that the trusted host gave it, and the backend
  -- was authenticated when the session was started.
  pub run-IsTrusted :
      (client : B) (sessions : List TrustedSession) (users : List UserSummary) (power : P)
      (locale : UiLocale) (calls : List Call)
      → let c = with_locale_and_power_control (logged k) (client, []) sessions users power locale in
        All (IsTrusted sessions) (run (logged k) w c calls).client.1
  unfolding with_locale_and_power_control
  run-IsTrusted client sessions users power locale calls =
      let c = with_locale_and_power_control (logged k) (client, []) sessions users power locale in
      (run-Kept (logged k) w (StartsTrusted sessions) (StartsTrusted-IsStable sessions)
        (λ c s h. record { same = h.same; trusted = h.trusted }) c calls
        (record { same = refl; trusted = tt })).trusted
