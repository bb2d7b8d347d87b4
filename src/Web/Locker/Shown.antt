-- ===== src/Web/Locker/Shown.antt =====
-- What a theme sees of `LockerController` (crates/fomalhaut-web/src/controller.rs) over any calls.
use fomalhaut.Common.{if-elim, not, ◌||◌, List, [], ◌∷◌}
use fomalhaut.Web.Protocol.{AuthState, Event, EventSequence, IdentitySummary}
use fomalhaut.Web.Messages.{UiLocale, LockState, acquiring, locked, unlocking, released, failed}
use fomalhaut.Web.Public.{envelope_events, number_events, ControllerError}
use fomalhaut.Web.Public.Shown.{
  IsShown, resets, updates, applies, change-IsShown, close-IsShown, numbered-IsShown,
  changes-IsShown,
}
use fomalhaut.Web.Batch.{authorization, auth_eq}
use fomalhaut.Web.Client.{ReauthBackend, PowerControl}
use fomalhaut.Web.Locker.{
  is_locked, LockerController, Method, mark_lock_acquired, mark_lock_failed, begin_unlock,
  mark_lock_released, publish, in_acquiring, in_unlocking, unless_ended,
}
use fomalhaut.Web.Locker.Requests.{with_locale_and_power_control}
use fomalhaut.Web.Locker.Rules.{IsStable, cancel_for_lifecycle-Stable}
use fomalhaut.Web.Locker.Kept.{handle-Kept, prepare_for_sleep-Kept, resume_after_sleep-Kept}
use fomalhaut.Web.Locker.Lifecycle.{
  Call, handles, cancels, sleeps, resumes, acquires, fails, unlocks, releases, called, run,
}

module _ {B P : Type 0} (k : ReauthBackend B) (w : PowerControl P) where
  abbrev Shows : LockerController B P → Type 0
  Shows c = IsShown c.auth

  Shows-IsStable : IsStable k w Shows
  Shows-IsStable = record {
    conversation = λ c. record {
      consumes = λ a b h. h;
      applies = λ a b e h. change-IsShown a (applies e) h;
      closes = λ a b h. close-IsShown a Event.auth_failed h;
      updates = λ a b h. change-IsShown a (updates (k.conversation.state b)) h;
      cancels = λ a b h. h;
    };
    resets = λ c h. change-IsShown c.auth resets h;
    responds = λ c p response h i. h;
    begins = λ c h. h;
    powers = λ c action h i. h;
  }

  numbers :
      (c : LockerController B P) (s : EventSequence)
      → Shows c
      → Shows (record c { auth = record c.auth { sequences = s } })
  numbers c s h = numbered-IsShown c.auth s h

  publish-Shows :
      (c : LockerController B P) (events : List Event) → Shows c → Shows (publish c events).0
  unfolding envelope_events
  publish-Shows c events h = numbered-IsShown c.auth (number_events c.auth.sequences events).0 h

  in_acquiring-Shows :
      (l : LockState) (c : LockerController B P) → Shows c → Shows (in_acquiring l c).0
  in_acquiring-Shows acquiring c h =
      publish-Shows (record c { lock = locked }) (Event.lock_acquired ∷ []) h
  in_acquiring-Shows locked c h = h
  in_acquiring-Shows unlocking c h = h
  in_acquiring-Shows released c h = h
  in_acquiring-Shows failed c h = h

  unless_ended-Shows :
      (l : LockState) (c : LockerController B P) → Shows c → Shows (unless_ended l c).0
  unless_ended-Shows acquiring c h =
      publish-Shows (record c { lock = failed }) (Event.lock_failed ∷ []) h
  unless_ended-Shows locked c h =
      publish-Shows (record c { lock = failed }) (Event.lock_failed ∷ []) h
  unless_ended-Shows unlocking c h =
      publish-Shows (record c { lock = failed }) (Event.lock_failed ∷ []) h
  unless_ended-Shows released c h = h
  unless_ended-Shows failed c h = h

  in_unlocking-Shows :
      (l : LockState) (c : LockerController B P) → Shows c → Shows (in_unlocking l c).0
  in_unlocking-Shows acquiring c h = h
  in_unlocking-Shows locked c h = h
  in_unlocking-Shows unlocking c h =
      publish-Shows (record c { lock = released }) (Event.lock_released ∷ []) h
  in_unlocking-Shows released c h = h
  in_unlocking-Shows failed c h = h

  begin_unlock-Shows : (c : LockerController B P) → Shows c → Shows (begin_unlock c authorization).0
  unfolding begin_unlock
  begin_unlock-Shows c h =
      if-elim (λ (m : Method B P (Unit {0}) ControllerError). Shows m.0)
        (not (is_locked c.lock) || not (auth_eq c.auth.authentication AuthState.authenticated)) _ _
        (λ t. h) (λ f. h)

  called-Shows : (c : LockerController B P) (call : Call) → Shows c → Shows (called k w c call)
  unfolding mark_lock_acquired mark_lock_failed mark_lock_released
  called-Shows c (handles r) = handle-Kept k w Shows Shows-IsStable numbers c r
  called-Shows c cancels = cancel_for_lifecycle-Stable k w Shows Shows-IsStable c
  called-Shows c sleeps = prepare_for_sleep-Kept k w Shows Shows-IsStable numbers c
  called-Shows c resumes = resume_after_sleep-Kept k w Shows Shows-IsStable numbers c
  called-Shows c acquires = in_acquiring-Shows c.lock c
  called-Shows c fails = unless_ended-Shows c.lock c
  called-Shows c unlocks = begin_unlock-Shows c
  called-Shows c releases = in_unlocking-Shows c.lock c

  run-Shows : (c : LockerController B P) (calls : List Call) → Shows c → Shows (run k w c calls)
  run-Shows c [] h = h
  run-Shows c (call ∷ calls) h = run-Shows (called k w c call) calls (called-Shows c call h)

  -- Whatever a backend does, and whatever is called, with errors or without, a locker controller shows
  -- the prompt that answers are compared with, or no prompt when there is none; it keeps at most 16
  -- messages; and the number and the texts that it shows are within the limits of the protocol.
  pub run-IsShown :
      (client : B) (identity : IdentitySummary) (power : P) (locale : UiLocale) (calls : List Call)
      → IsShown
          (run k w (with_locale_and_power_control k w client identity power locale) calls).auth
  unfolding with_locale_and_power_control
  run-IsShown client identity power locale calls =
      run-Shows (with_locale_and_power_control k w client identity power locale) calls
        (changes-IsShown (k.conversation.state client) [])
