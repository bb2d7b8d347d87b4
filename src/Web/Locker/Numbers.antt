-- ===== src/Web/Locker/Numbers.antt =====
-- The numbers of all events that `LockerController` (crates/fomalhaut-web/src/controller.rs) sends.
use fomalhaut.Common.{
  ℕ, ◌≤◌, Bool, List, [], ◌∷◌, ◌++◌, Result, ok, err, if-elim, ◌≡◌, sym, subst, ◌∙◌,
}
use fomalhaut.Core.Types
use fomalhaut.Core.Types.{BackendError}
use fomalhaut.Web.Protocol.{AuthState, Event, EventEnvelope, EventSequence}
use fomalhaut.Web.Messages.{ProtocolErrorBody, RequestEnvelope, ResponseEnvelope, StateSnapshot}
use fomalhaut.Web.Public.{ControllerError, update_state, reset_conversation}
use fomalhaut.Web.Public.Numbers.{first_unused}
use fomalhaut.Web.Public.Follows.{
  Follows, sent_by, nothing-Follows, envelope_events-Follows, apply_core_event-sequences,
}
use fomalhaut.Web.Batch.{ControllerBatch, LockerLifecycleBatch, is_state_get}
use fomalhaut.Web.Client.{ReauthBackend, PowerControl}
use fomalhaut.Web.Locker.{
  LockerController, Method, publish, mark_lock_acquired, mark_lock_failed, mark_lock_released,
}
use fomalhaut.Web.Locker.Requests.{
  batch, settled, snapshot_batch, snapshot, execute, handle, drain, or_cancel,
}
use fomalhaut.Web.Locker.Sleep.{prepare_for_sleep, resume_after_sleep}
use fomalhaut.Web.Locker.Rules.{IsStable, drain-Kept, or_cancel-Kept, execute-Kept}
use fomalhaut.Web.Locker.Lifecycle.{
  Call, handles, cancels, sleeps, resumes, acquires, fails, unlocks, releases, called,
}

module _ {B P : Type 0} (k : ReauthBackend B) (w : PowerControl P) where
  -- What a call sends to the theme.
  abbrev pub sent : LockerController B P → Call → List EventEnvelope
  sent c (handles r) = sent_by (λ (b : ControllerBatch). b.events) (handle k w c r).1
  sent c cancels = []
  sent c sleeps = sent_by (λ (b : LockerLifecycleBatch). b.events) (prepare_for_sleep k c).1
  sent c resumes = sent_by (λ (b : LockerLifecycleBatch). b.events) (resume_after_sleep k c).1
  sent c acquires = sent_by (λ es. es) (mark_lock_acquired c).1
  sent c fails = sent_by (λ es. es) (mark_lock_failed c).1
  sent c unlocks = []
  sent c releases = sent_by (λ es. es) (mark_lock_released c).1

  abbrev pub sent_over : LockerController B P → List Call → List EventEnvelope
  sent_over c [] = []
  sent_over c (call ∷ calls) = sent c call ++ sent_over (called k w c call) calls

  pub sequences-IsStable : (s : EventSequence) → IsStable k w (λ c. c.auth.sequences ≡ s)
  unfolding update_state reset_conversation
  sequences-IsStable s = record {
    conversation = λ c. record {
      consumes = λ a b h. h;
      applies = λ a b e h. apply_core_event-sequences a e ∙ h;
      closes = λ a b h. h;
      updates = λ a b h. h;
      cancels = λ a b h. h;
    };
    resets = λ c h. h;
    responds = λ c p response h i. h;
    begins = λ c h. h;
    powers = λ c action h i. h;
  }

  module _ (s : EventSequence) (h : s.next ≤ first_unused) where
    -- What a method sends follows the number `s`.
    abbrev pub Sends : {A E : Type 0} → (A → List EventEnvelope) → Method B P A E → Type 0
    Sends f m = Follows s.next (sent_by f m.1) m.0.auth.sequences.next

    pub unsent-Sends :
        (c : LockerController B P) → c.auth.sequences ≡ s → Follows s.next [] c.auth.sequences.next
    unsent-Sends c e =
        subst (λ (t : EventSequence). Follows s.next [] t.next) (sym e) (nothing-Follows s.next h)

    pub publish-Sends :
        (c : LockerController B P) (events : List Event)
        → c.auth.sequences ≡ s
        → Sends (λ es. es) (publish c events)
    publish-Sends c events e =
        subst
          (λ (t : EventSequence).
            Follows t.next (sent_by (λ es. es) (publish c events).1)
              (publish c events).0.auth.sequences.next)
          e
          (envelope_events-Follows c.auth events
            (subst (λ (t : EventSequence). t.next ≤ first_unused) (sym e) h))

    batch-Sends :
        (response : ResponseEnvelope) (unlock fallback : Bool)
        (m : Method B P (List EventEnvelope) ControllerError)
        → Sends (λ es. es) m
        → Sends (λ (b : ControllerBatch). b.events) (batch k w response unlock fallback m)
    batch-Sends response unlock fallback (c, ok es) f = f
    batch-Sends response unlock fallback (c, err e) f = f

    settled-Sends :
        (id : ℕ) (previous : AuthState) (before : Types.AuthState)
        (operation : Result (List Event) ProtocolErrorBody)
        (m : Method B P (List Event) ControllerError)
        → m.0.auth.sequences ≡ s
        → Sends (λ (b : ControllerBatch). b.events) (settled k w id previous before operation m)
    unfolding update_state
    settled-Sends id previous before operation (c, err e) i = unsent-Sends c i
    settled-Sends id previous before operation (c, ok es) i =
        batch-Sends _ _ _
          (publish (record c { auth = update_state c.auth (k.conversation.state c.client) }) _)
          (publish-Sends (record c { auth = update_state c.auth (k.conversation.state c.client) }) _
            i)

    snapshot_batch-Sends :
        (id : ℕ) (c : LockerController B P) (r : Result StateSnapshot ControllerError)
        → c.auth.sequences ≡ s
        → Sends (λ (b : ControllerBatch). b.events) (snapshot_batch k w id c r)
    snapshot_batch-Sends id c (ok r) i = unsent-Sends c i
    snapshot_batch-Sends id c (err e) i = unsent-Sends c i

    pub handle-Sends :
        (c : LockerController B P) (r : RequestEnvelope)
        → c.auth.sequences ≡ s
        → Sends (λ (b : ControllerBatch). b.events) (handle k w c r)
    unfolding handle
    handle-Sends c r i =
        if-elim
          (λ (m : Method B P ControllerBatch ControllerError).
            Sends (λ (b : ControllerBatch). b.events) m)
          (is_state_get r.request) _ _ (λ t. snapshot_batch-Sends r.id c (snapshot k w c) i)
          (λ f.
            settled-Sends r.id c.auth.authentication (k.conversation.state c.client)
              (execute k w c r.request).1 (or_cancel k (drain k (execute k w c r.request).0))
              (or_cancel-Kept k w _ (sequences-IsStable s) (drain k (execute k w c r.request).0) (
                drain-Kept k w _ (sequences-IsStable s) (execute k w c r.request).0
                  (execute-Kept k w _ (sequences-IsStable s) c r.request i))))
