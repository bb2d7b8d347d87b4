-- ===== src/Web/Client.antt =====
-- crates/fomalhaut-core/src/backend.rs: the traits of the backends, as records of operations over a
-- state `B`; and what `AuthPublicState` of crates/fomalhaut-web/src/controller.rs does with a backend.
-- A call that awaits returns.
pub mod Rules
use Prim.Native.Nat.{◌<◌}
use mathlib.Core.WellFounded.{Acc}
use fomalhaut.Common.{
  ℕ, zero, suc, Bool, false, not, none, List, [], ◌∷◌, ◌++◌, Result, ok, err, if◌then◌else◌, ◌≡◌,
  refl, arith,
}
use fomalhaut.Core.Types
use fomalhaut.Core.Types.{
  Text, AuthEvent, CoreError, no_pending_event, BackendError, SessionCommand,
}
use fomalhaut.Web.Protocol.{Event}
use fomalhaut.Web.Messages.{
  PowerAction, Capabilities, ProtocolErrorBody, ProtocolErrorCode, new_error, internal,
  invalid_state, session_not_found,
}
use fomalhaut.Web.Public.{
  AuthPublicState, ControllerError, controller_error, update_state, apply_core_event,
}

-- `pending` counts the events that are there to be consumed.
pub record ConversationBackend (B : Type 0) : Type 0 where
  pub state : B → Types.AuthState
  pub needs_cancel : B → Bool
  pub respond : B → ℕ → Text → B × Result (Unit {0}) BackendError
  pub cancel : B → B × Result (Unit {0}) BackendError
  pub next_event : B → B × Result AuthEvent BackendError
  pub pending : B → ℕ
  pub pending_falls :
      (b : B) (e : AuthEvent) → (next_event b).1 ≡ ok e → pending (next_event b).0 < pending b

pub record LoginBackend (B : Type 0) : Type 0 where
  pub conversation : ConversationBackend B
  pub begin_login : B → Text → B × Result (Unit {0}) BackendError
  pub start_session : B → SessionCommand → B × Result (Unit {0}) BackendError
  pub session_started : B → Bool

pub record ReauthBackend (B : Type 0) : Type 0 where
  pub conversation : ConversationBackend B
  pub begin_reauth : B → B × Result (Unit {0}) BackendError

pub data PowerControlError : Type 0 where
  power_failed : PowerControlError

pub record PowerControl (P : Type 0) : Type 0 where
  pub capabilities : P → Capabilities
  pub request : P → PowerAction → P × Result (Unit {0}) PowerControlError

unfoldable pub stale_prompt_error : ProtocolErrorBody
unfolding new_error
stale_prompt_error =
    new_error ProtocolErrorCode.stale_prompt "authentication prompt is no longer active" false

unfoldable pub session_not_found_error : ProtocolErrorBody
unfolding new_error
session_not_found_error =
    new_error session_not_found "selected session is absent from the trusted catalog" false

abbrev pub internal_error : ProtocolErrorBody
unfolding new_error
internal_error =
    new_error internal "the authentication service could not complete the operation" false

unfoldable pub protocol_error : BackendError → ProtocolErrorBody
unfolding stale_prompt_error new_error
protocol_error (BackendError.core (CoreError.invalid_state operation state)) =
    new_error invalid_state "operation is invalid in the current authentication state" false
protocol_error (BackendError.core (CoreError.stale_prompt expected received)) = stale_prompt_error
protocol_error (BackendError.core CoreError.no_pending_event) = internal_error
protocol_error (BackendError.core CoreError.prompt_id_exhausted) = internal_error
protocol_error (BackendError.core CoreError.empty_session_command) = internal_error
protocol_error (BackendError.core CoreError.empty_identity) = internal_error
protocol_error BackendError.unavailable = internal_error
protocol_error BackendError.protocol = internal_error
protocol_error BackendError.service = internal_error

module _ {B : Type 0} (k : ConversationBackend B) where
  abbrev pub Sooner : B → B → Type 0
  Sooner b' b = k.pending b' < k.pending b

  Sooner-Acc : (n : ℕ) (b : B) → k.pending b < n → Acc Sooner b
  Sooner-Acc zero b h = elim h [ ]
  Sooner-Acc (suc n) b h = Acc.intro b (λ b' h'. Sooner-Acc n b' (omega arith))

  -- The public state with its backend, and what a method on them returns.
  abbrev pub Outcome : Type 0 → Type 0
  Outcome A = (AuthPublicState × B) × Result A ControllerError

  abbrev pub applied :
      B
      → (AuthPublicState → List Event → Outcome (List Event))
      → List Event
      → AuthPublicState × Result Event ControllerError
      → Outcome (List Event)
  applied b rest events (a, ok event) = rest a (events ++ event ∷ [])
  applied b rest events (a, err e) = ((a, b), err e)

  -- One round of the loop; `rest` is the loop behind an event.
  abbrev pub drained :
      (x : B × Result AuthEvent BackendError)
      → ((e : AuthEvent) → x.1 ≡ ok e → AuthPublicState → List Event → Outcome (List Event))
      → AuthPublicState
      → List Event
      → Outcome (List Event)
  drained (b, ok e) rest a events = applied b (rest e refl) events (apply_core_event a e)
  drained (b, err (BackendError.core CoreError.no_pending_event)) rest a events =
      ((a, b), ok events)
  drained (b, err _) rest a events =
      ((a, b), err (controller_error "the controller could not consume a core event"))

  unfoldable pub drain_from :
      (b : B) → Acc Sooner b → AuthPublicState → List Event → Outcome (List Event)
  unfolding apply_core_event
  drain_from b (Acc.intro _ sooner) a events =
      drained (k.next_event b)
        (λ e h. drain_from (k.next_event b).0 (sooner (k.next_event b).0 (k.pending_falls b e h))) a
        events

  unfoldable pub drain_core_events : AuthPublicState → B → Outcome (List Event)
  unfolding drain_from Sooner-Acc
  drain_core_events a b = drain_from b (Sooner-Acc (suc (k.pending b)) b (omega arith)) a []

  abbrev pub discarded :
      (x : B × Result AuthEvent BackendError)
      → ((e : AuthEvent) → x.1 ≡ ok e → B × Result (Unit {0}) ControllerError)
      → B × Result (Unit {0}) ControllerError
  discarded (b, ok e) rest = rest e refl
  discarded (b, err (BackendError.core CoreError.no_pending_event)) rest = (b, ok tt)
  discarded (b, err _) rest =
      (b, err (controller_error "the controller could not discard a core event"))

  unfoldable pub discard_from : (b : B) → Acc Sooner b → B × Result (Unit {0}) ControllerError
  discard_from b (Acc.intro _ sooner) =
      discarded (k.next_event b)
        (λ e h. discard_from (k.next_event b).0 (sooner (k.next_event b).0 (k.pending_falls b e h)))

  unfoldable pub discard_core_events : B → B × Result (Unit {0}) ControllerError
  unfolding discard_from Sooner-Acc
  discard_core_events b = discard_from b (Sooner-Acc (suc (k.pending b)) b (omega arith))

  abbrev pub after_discard :
      AuthPublicState → B × Result (Unit {0}) ControllerError → Outcome (Unit {0})
  after_discard a (b, ok _) =
      ((record (update_state a (k.state b)) { prompt = none; core_prompt = none }, b), ok tt)
  after_discard a (b, err e) = ((a, b), err e)

  abbrev pub after_cancel :
      AuthPublicState → B × Result (Unit {0}) BackendError → Outcome (Unit {0})
  after_cancel a (b, ok _) = after_discard a (discard_core_events b)
  after_cancel a (b, err e) =
      ((a, b), err (controller_error "the controller could not cancel authentication"))

  unfoldable pub cancel_for_lifecycle : AuthPublicState → B → Outcome (Unit {0})
  unfolding update_state discard_core_events
  cancel_for_lifecycle a b =
      if not (k.needs_cancel b)
      then ((update_state a (k.state b), b), ok tt)
      else after_cancel a (k.cancel b)

  abbrev pub cancel_quietly : B → B
  cancel_quietly b = if k.needs_cancel b then (k.cancel b).0 else b

  unfoldable pub cancel_after_internal_failure : AuthPublicState → B → AuthPublicState × B
  unfolding update_state
  cancel_after_internal_failure a b =
      let b' = cancel_quietly b in
      (update_state (record a { prompt = none; core_prompt = none }) (k.state b'), b')
