-- ===== src/Web/Client/Rules.antt =====
-- What is kept while `AuthPublicState` of crates/fomalhaut-web/src/controller.rs works with a backend:
-- a relation of the two that no single effect on them breaks.
use mathlib.Core.WellFounded.{Acc}
use fomalhaut.Common.{not, suc, none, List, [], Result, ok, err, ◌≡◌, refl, if-elim, arith}
use fomalhaut.Core.Types.{
  AuthEvent, BackendError, core, unavailable, protocol, service, CoreError, no_pending_event,
}
use fomalhaut.Web.Protocol.{Event}
use fomalhaut.Web.Public.{AuthPublicState, ControllerError, update_state, apply_core_event}
use fomalhaut.Web.Client.{
  ConversationBackend, Sooner, Sooner-Acc, Outcome, applied, drained, drain_from, drain_core_events,
  discarded, discard_from, discard_core_events, after_discard, after_cancel, cancel_for_lifecycle,
  cancel_after_internal_failure, cancel_quietly,
}

-- The prompt is gone.
abbrev pub closed : AuthPublicState → AuthPublicState
closed a = record a { prompt = none; core_prompt = none }

pub record Keeps {B : Type 0} (k : ConversationBackend B) (Q : AuthPublicState → B → Type 0)
    : Type 0 where
  pub consumes : (a : AuthPublicState) (b : B) → Q a b → Q a (k.next_event b).0
  pub applies : (a : AuthPublicState) (b : B) (e : AuthEvent) → Q a b → Q (apply_core_event a e).0 b
  pub closes : (a : AuthPublicState) (b : B) → Q a b → Q (closed a) b
  pub updates : (a : AuthPublicState) (b : B) → Q a b → Q (update_state a (k.state b)) b
  pub cancels : (a : AuthPublicState) (b : B) → Q a b → Q a (k.cancel b).0

module _ {B : Type 0} (k : ConversationBackend B) (Q : AuthPublicState → B → Type 0)
    (h : Keeps k Q) where
  abbrev Kept : {A : Type 0} → Outcome k A → Type 0
  Kept o = Q o.0.0 o.0.1

  applied-Kept :
      (b : B) (rest : AuthPublicState → List Event → Outcome k (List Event)) (events : List Event)
      (p : AuthPublicState × Result Event ControllerError)
      → Q p.0 b
      → ((a : AuthPublicState) (es : List Event) → Q a b → Kept (rest a es))
      → Kept (applied k b rest events p)
  applied-Kept b rest events (a, ok e) q f = f a _ q
  applied-Kept b rest events (a, err e) q f = q

  drained-Kept :
      (x : B × Result AuthEvent BackendError)
      (rest : (e : AuthEvent) → x.1 ≡ ok e → AuthPublicState → List Event → Outcome k (List Event))
      (a : AuthPublicState) (events : List Event)
      → Q a x.0
      → ((e : AuthEvent) (i : x.1 ≡ ok e) (a : AuthPublicState) (es : List Event)
          → Q a x.0
          → Kept (rest e i a es))
      → Kept (drained k x rest a events)
  drained-Kept (b, ok e) rest a events q f =
      applied-Kept b (rest e refl) events (apply_core_event a e) (h.applies a b e q) (f e refl)
  drained-Kept (b, err (core no_pending_event)) rest a events q f = q
  drained-Kept (b, err (core (CoreError.invalid_state operation state))) rest a events q f = q
  drained-Kept (b, err (core (CoreError.stale_prompt expected got))) rest a events q f = q
  drained-Kept (b, err (core CoreError.prompt_id_exhausted)) rest a events q f = q
  drained-Kept (b, err (core CoreError.empty_session_command)) rest a events q f = q
  drained-Kept (b, err (core CoreError.empty_identity)) rest a events q f = q
  drained-Kept (b, err unavailable) rest a events q f = q
  drained-Kept (b, err protocol) rest a events q f = q
  drained-Kept (b, err service) rest a events q f = q

  drain_from-Kept :
      (b : B) (d : Acc (Sooner k) b) (a : AuthPublicState) (events : List Event)
      → Q a b
      → Kept (drain_from k b d a events)
  unfolding drain_from
  drain_from-Kept b (Acc.intro _ sooner) a events q =
      drained-Kept (k.next_event b) _ a events (h.consumes a b q) (λ e i a es q.
        drain_from-Kept (k.next_event b).0 (sooner (k.next_event b).0 (k.pending_falls b e i)) a es
          q)

  pub drain_core_events-Kept :
      (a : AuthPublicState) (b : B) → Q a b → Kept (drain_core_events k a b)
  unfolding drain_core_events
  drain_core_events-Kept a b q =
      drain_from-Kept b (Sooner-Acc k (suc (k.pending b)) b (omega arith)) a [] q

  discarded-Kept :
      (a : AuthPublicState) (x : B × Result AuthEvent BackendError)
      (rest : (e : AuthEvent) → x.1 ≡ ok e → B × Result (Unit {0}) ControllerError)
      → Q a x.0
      → ((e : AuthEvent) (i : x.1 ≡ ok e) → Q a (rest e i).0)
      → Q a (discarded k x rest).0
  discarded-Kept a (b, ok e) rest q f = f e refl
  discarded-Kept a (b, err (core no_pending_event)) rest q f = q
  discarded-Kept a (b, err (core (CoreError.invalid_state operation state))) rest q f = q
  discarded-Kept a (b, err (core (CoreError.stale_prompt expected got))) rest q f = q
  discarded-Kept a (b, err (core CoreError.prompt_id_exhausted)) rest q f = q
  discarded-Kept a (b, err (core CoreError.empty_session_command)) rest q f = q
  discarded-Kept a (b, err (core CoreError.empty_identity)) rest q f = q
  discarded-Kept a (b, err unavailable) rest q f = q
  discarded-Kept a (b, err protocol) rest q f = q
  discarded-Kept a (b, err service) rest q f = q

  discard_from-Kept :
      (a : AuthPublicState) (b : B) (d : Acc (Sooner k) b) → Q a b → Q a (discard_from k b d).0
  unfolding discard_from
  discard_from-Kept a b (Acc.intro _ sooner) q =
      discarded-Kept a (k.next_event b) _ (h.consumes a b q) (λ e i.
        discard_from-Kept a (k.next_event b).0 (sooner (k.next_event b).0 (k.pending_falls b e i))
          (h.consumes a b q))

  after_discard-Kept :
      (a : AuthPublicState) (p : B × Result (Unit {0}) ControllerError)
      → Q a p.0
      → Kept (after_discard k a p)
  unfolding update_state
  after_discard-Kept a (b, ok u) q = h.closes _ b (h.updates a b q)
  after_discard-Kept a (b, err e) q = q

  after_cancel-Kept :
      (a : AuthPublicState) (p : B × Result (Unit {0}) BackendError)
      → Q a p.0
      → Kept (after_cancel k a p)
  unfolding discard_core_events
  after_cancel-Kept a (b, ok u) q =
      after_discard-Kept a (discard_core_events k b)
        (discard_from-Kept a b (Sooner-Acc k (suc (k.pending b)) b (omega arith)) q)
  after_cancel-Kept a (b, err e) q = q

  pub cancel_for_lifecycle-Kept :
      (a : AuthPublicState) (b : B) → Q a b → Kept (cancel_for_lifecycle k a b)
  unfolding cancel_for_lifecycle
  cancel_for_lifecycle-Kept a b q =
      if-elim Kept (not (k.needs_cancel b)) _ _ (λ t. h.updates a b q)
        (λ f. after_cancel-Kept a (k.cancel b) (h.cancels a b q))

  pub cancel_after_internal_failure-Kept :
      (a : AuthPublicState) (b : B)
      → Q a b
      → Q (cancel_after_internal_failure k a b).0 (cancel_after_internal_failure k a b).1
  unfolding cancel_after_internal_failure
  cancel_after_internal_failure-Kept a b q =
      let q' : Q a (cancel_quietly k b) =
        if-elim (Q a) (k.needs_cancel b) (k.cancel b).0 b (λ t. h.cancels a b q) (λ f. q) in
      h.updates _ _ (h.closes _ _ q')
