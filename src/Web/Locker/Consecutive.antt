-- ===== src/Web/Locker/Consecutive.antt =====
-- The numbers of all events that `LockerController` (crates/fomalhaut-web/src/controller.rs) sends.
use fomalhaut.Common.{
  ◌≤◌, Bool, not, ◌||◌, List, [], ◌∷◌, Result, ok, err, if-elim, ◌≡◌, refl, arith,
}
use fomalhaut.Core.Types.{BackendError}
use fomalhaut.Web.Protocol.{AuthState, Event, EventEnvelope, EventSequence, IdentitySummary}
use fomalhaut.Web.Messages.{LockState, acquiring, locked, unlocking, released, failed, UiLocale}
use fomalhaut.Web.Public.{ControllerError, controller_error, update_state, reset_conversation}
use fomalhaut.Web.Public.Numbers.{first_unused}
use fomalhaut.Web.Public.Follows.{Follows, IsConsecutive, sent_by, Follows-append}
use fomalhaut.Web.Batch.{LockerLifecycleBatch, auth_eq, authorization}
use fomalhaut.Web.Client.{ReauthBackend, PowerControl}
use fomalhaut.Web.Client.Rules.{cancel_after_internal_failure-Kept}
use fomalhaut.Web.Locker.{
  LockerController, Method, is_locked, publish, in_acquiring, in_unlocking, unless_ended,
  mark_lock_acquired, mark_lock_failed, mark_lock_released, begin_unlock,
}
use fomalhaut.Web.Locker.Requests.{drain, or_cancel, cancel_failed, with_locale_and_power_control}
use fomalhaut.Web.Locker.Sleep.{
  lifecycle_batch, finish_lifecycle_batch, slept, prepare_for_sleep, resumed, restarted, woken,
  resume_after_sleep, cancel_for_lifecycle, cancel_event,
}
use fomalhaut.Web.Locker.Rules.{cancel_for_lifecycle-Stable, drain-Kept, or_cancel-Kept}
use fomalhaut.Web.Locker.Lifecycle.{
  Call, handles, cancels, sleeps, resumes, acquires, fails, unlocks, releases, called,
}
use fomalhaut.Web.Locker.Numbers.{
  Sends, unsent-Sends, publish-Sends, handle-Sends, sequences-IsStable, sent, sent_over,
}

module _ {B P : Type 0} (k : ReauthBackend B) (w : PowerControl P) where
  module _ (s : EventSequence) (h : s.next ≤ first_unused) where
    -- A batch around a sleep follows the number `s`.
    abbrev Continues : {E : Type 0} → Method B P LockerLifecycleBatch E → Type 0
    Continues m =
        Follows s.next (sent_by (λ (b : LockerLifecycleBatch). b.events) m.1)
          m.0.auth.sequences.next

    unsent :
        (c : LockerController B P) → c.auth.sequences ≡ s → Follows s.next [] c.auth.sequences.next
    unsent = unsent-Sends k w s h

    lifecycle_batch-Continues :
        (unlock : Bool) (m : Method B P (List EventEnvelope) ControllerError)
        → Sends k w s h (λ es. es) m
        → Continues (lifecycle_batch k unlock m)
    lifecycle_batch-Continues unlock (c, ok es) f = f
    lifecycle_batch-Continues unlock (c, err e) f = f

    finish_lifecycle_batch-Continues :
        (c : LockerController B P) (previous : AuthState) (events : List Event)
        → c.auth.sequences ≡ s
        → Continues (finish_lifecycle_batch k c previous events)
    unfolding finish_lifecycle_batch
    finish_lifecycle_batch-Continues c previous events i =
        lifecycle_batch-Continues _ (publish c _) (publish-Sends k w s h c _ i)

    slept-Continues :
        (previous : AuthState) (cancelled : Bool) (m : Method B P (Unit {0}) ControllerError)
        → m.0.auth.sequences ≡ s
        → Continues (slept k previous cancelled m)
    slept-Continues previous cancelled (c, ok u) i =
        finish_lifecycle_batch-Continues c previous (cancel_event cancelled) i
    slept-Continues previous cancelled (c, err e) i = unsent c i

    prepare_for_sleep-Continues :
        (c : LockerController B P) → c.auth.sequences ≡ s → Continues (prepare_for_sleep k c)
    unfolding prepare_for_sleep cancel_for_lifecycle
    prepare_for_sleep-Continues c i =
        if-elim (λ (m : Method B P LockerLifecycleBatch ControllerError). Continues m)
          (not (is_locked c.lock)) _ _ (λ t. unsent c i)
          (λ f.
            slept-Continues _ _ (cancel_for_lifecycle k c)
              (cancel_for_lifecycle-Stable k w _ (sequences-IsStable k w s) c i))

    resumed-Continues :
        (previous : AuthState) (cancelled : Bool) (m : Method B P (List Event) ControllerError)
        → m.0.auth.sequences ≡ s
        → Continues (resumed k previous cancelled m)
    unfolding update_state
    resumed-Continues previous cancelled (c, ok es) i =
        finish_lifecycle_batch-Continues
          (record c { auth = update_state c.auth (k.conversation.state c.client) }) previous _ i
    resumed-Continues previous cancelled (c, err e) i = unsent c i

    restarted-Continues :
        (previous : AuthState) (cancelled : Bool) (c : LockerController B P)
        (p : B × Result (Unit {0}) BackendError)
        → c.auth.sequences ≡ s
        → Continues (restarted k previous cancelled c p)
    restarted-Continues previous cancelled c (b, ok u) i =
        resumed-Continues previous cancelled (or_cancel k (drain k (record c { client = b }))) (
          or_cancel-Kept k w _ (sequences-IsStable k w s) _
            (drain-Kept k w _ (sequences-IsStable k w s) (record c { client = b }) i))
    restarted-Continues previous cancelled c (b, err e) i =
        resumed-Continues previous cancelled
          (cancel_failed k (record c { client = b })
            (controller_error "authentication could not restart after system resume"))
          (cancel_after_internal_failure-Kept k.conversation _
            ((sequences-IsStable k w s).conversation c) c.auth b i)

    woken-Continues :
        (previous : AuthState) (cancelled : Bool) (m : Method B P (Unit {0}) ControllerError)
        → m.0.auth.sequences ≡ s
        → Continues (woken k previous cancelled m)
    unfolding reset_conversation
    woken-Continues previous cancelled (c, ok u) i =
        restarted-Continues previous cancelled (record c { auth = reset_conversation c.auth })
          (k.begin_reauth c.client) i
    woken-Continues previous cancelled (c, err e) i = unsent c i

    resume_after_sleep-Continues :
        (c : LockerController B P) → c.auth.sequences ≡ s → Continues (resume_after_sleep k c)
    unfolding resume_after_sleep cancel_for_lifecycle
    resume_after_sleep-Continues c i =
        if-elim (λ (m : Method B P LockerLifecycleBatch ControllerError). Continues m)
          (not (is_locked c.lock)) _ _ (λ t. unsent c i)
          (λ f.
            woken-Continues _ _ (cancel_for_lifecycle k c)
              (cancel_for_lifecycle-Stable k w _ (sequences-IsStable k w s) c i))

    in_acquiring-Sends :
        (l : LockState) (c : LockerController B P)
        → c.auth.sequences ≡ s
        → Sends k w s h (λ es. es) (in_acquiring l c)
    in_acquiring-Sends acquiring c i =
        publish-Sends k w s h (record c { lock = locked }) (Event.lock_acquired ∷ []) i
    in_acquiring-Sends locked c i = unsent c i
    in_acquiring-Sends unlocking c i = unsent c i
    in_acquiring-Sends released c i = unsent c i
    in_acquiring-Sends failed c i = unsent c i

    unless_ended-Sends :
        (l : LockState) (c : LockerController B P)
        → c.auth.sequences ≡ s
        → Sends k w s h (λ es. es) (unless_ended l c)
    unless_ended-Sends acquiring c i =
        publish-Sends k w s h (record c { lock = failed }) (Event.lock_failed ∷ []) i
    unless_ended-Sends locked c i =
        publish-Sends k w s h (record c { lock = failed }) (Event.lock_failed ∷ []) i
    unless_ended-Sends unlocking c i =
        publish-Sends k w s h (record c { lock = failed }) (Event.lock_failed ∷ []) i
    unless_ended-Sends released c i = unsent c i
    unless_ended-Sends failed c i = unsent c i

    in_unlocking-Sends :
        (l : LockState) (c : LockerController B P)
        → c.auth.sequences ≡ s
        → Sends k w s h (λ es. es) (in_unlocking l c)
    in_unlocking-Sends unlocking c i =
        publish-Sends k w s h (record c { lock = released }) (Event.lock_released ∷ []) i
    in_unlocking-Sends acquiring c i = unsent c i
    in_unlocking-Sends locked c i = unsent c i
    in_unlocking-Sends released c i = unsent c i
    in_unlocking-Sends failed c i = unsent c i

    begin_unlock-sequences :
        (c : LockerController B P)
        → c.auth.sequences ≡ s
        → (begin_unlock c authorization).0.auth.sequences ≡ s
    unfolding begin_unlock
    begin_unlock-sequences c i =
        if-elim (λ (m : Method B P (Unit {0}) ControllerError). m.0.auth.sequences ≡ s)
          (not (is_locked c.lock) || not (auth_eq c.auth.authentication AuthState.authenticated)) _
          _ (λ t. i) (λ f. i)

    called-Follows :
        (c : LockerController B P) (call : Call)
        → c.auth.sequences ≡ s
        → Follows s.next (sent k w c call) (called k w c call).auth.sequences.next
    unfolding mark_lock_acquired mark_lock_failed mark_lock_released
    called-Follows c (handles r) i = handle-Sends k w s h c r i
    called-Follows c cancels i =
        unsent (cancel_for_lifecycle k c).0
          (cancel_for_lifecycle-Stable k w _ (sequences-IsStable k w s) c i)
    called-Follows c sleeps i = prepare_for_sleep-Continues c i
    called-Follows c resumes i = resume_after_sleep-Continues c i
    called-Follows c acquires i = in_acquiring-Sends c.lock c i
    called-Follows c fails i = unless_ended-Sends c.lock c i
    called-Follows c unlocks i =
        unsent (begin_unlock c authorization).0 (begin_unlock-sequences c i)
    called-Follows c releases i = in_unlocking-Sends c.lock c i

  sent_over-IsConsecutive :
      (c : LockerController B P) (calls : List Call)
      → c.auth.sequences.next ≤ first_unused
      → IsConsecutive c.auth.sequences.next (sent_over k w c calls)
  sent_over-IsConsecutive c [] h = record { consecutive = refl; below = omega arith }
  sent_over-IsConsecutive c (call ∷ calls) h =
      let f = called-Follows c.auth.sequences h c call refl in
      Follows-append c.auth.sequences.next (called k w c call).auth.sequences.next (sent k w c call)
        (sent_over k w (called k w c call) calls) h f
        (sent_over-IsConsecutive (called k w c call) calls f.below)

  -- Over any calls, with errors or without and whatever the backend does, the events that a locker
  -- controller sends, all together and in the order of sending, bear the numbers 1, 2, 3 and so on:
  -- none is repeated and none is left out, and none is 2 ^ 53 or more.
  pub sent_over-numbered :
      (client : B) (identity : IdentitySummary) (power : P) (locale : UiLocale) (calls : List Call)
      → let c = with_locale_and_power_control k w client identity power locale in
        IsConsecutive 1 (sent_over k w c calls)
  unfolding with_locale_and_power_control
  sent_over-numbered client identity power locale calls =
      sent_over-IsConsecutive (with_locale_and_power_control k w client identity power locale) calls
        (omega arith)
