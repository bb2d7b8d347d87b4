-- ===== src/Web/Locker/Lifecycle.antt =====
-- The lock lifecycle of `LockerController` (crates/fomalhaut-web/src/controller.rs) over any calls.
use fomalhaut.Common.{
  Bool, true, false, not, ◌||◌, List, [], ◌∷◌, ◌++◌, ◌≡◌, ◌⊎◌, inl, inr, refl, ap, subst, if-elim,
  arith,
}
use fomalhaut.Web.Protocol.{AuthState}
use fomalhaut.Web.Messages.{
  LockState, acquiring, locked, unlocking, released, failed, RequestEnvelope,
}
use fomalhaut.Web.Public.{ControllerError}
use fomalhaut.Web.Client.{ReauthBackend, PowerControl}
use fomalhaut.Web.Batch.{auth_eq→eq, auth_eq, authorization}
use fomalhaut.Web.Locker.{
  is_locked→eq, LockerController, Method, mark_lock_acquired, mark_lock_failed, begin_unlock,
  mark_lock_released, is_locked,
}
use fomalhaut.Web.Locker.Requests.{handle}
use fomalhaut.Web.Locker.Sleep.{cancel_for_lifecycle, prepare_for_sleep, resume_after_sleep}
use fomalhaut.Web.Locker.Rules.{IsStable, cancel_for_lifecycle-Stable}
use fomalhaut.Web.Locker.Kept.{handle-Kept, prepare_for_sleep-Kept, resume_after_sleep-Kept}

-- The public methods that change a controller.
pub data Call : Type 0 where
  handles : RequestEnvelope → Call
  cancels sleeps resumes : Call
  acquires fails unlocks releases : Call

-- Past this point the screen may be open.
abbrev pub is_open : LockState → Bool
is_open unlocking = true
is_open released = true
is_open _ = false

abbrev pub is_ended : LockState → Bool
is_ended released = true
is_ended failed = true
is_ended _ = false

module _ {B P : Type 0} (k : ReauthBackend B) (w : PowerControl P) where
  abbrev pub called : LockerController B P → Call → LockerController B P
  called c (handles r) = (handle k w c r).0
  called c cancels = (cancel_for_lifecycle k c).0
  called c sleeps = (prepare_for_sleep k c).0
  called c resumes = (resume_after_sleep k c).0
  called c acquires = (mark_lock_acquired c).0
  called c fails = (mark_lock_failed c).0
  called c unlocks = (begin_unlock c authorization).0
  called c releases = (mark_lock_released c).0

  abbrev pub run : LockerController B P → List Call → LockerController B P
  run c [] = c
  run c (call ∷ calls) = run (called c call) calls

  -- Requests and sleep leave the lock, the identity and the locale alone.
  pub lock-IsStable : (l : LockState) → IsStable k w (λ c. c.lock ≡ l)
  lock-IsStable l = record {
    conversation = λ c. record {
      consumes = λ a b r. r;
      applies = λ a b e r. r;
      closes = λ a b r. r;
      updates = λ a b r. r;
      cancels = λ a b r. r;
    };
    resets = λ c r. r;
    responds = λ c p response r i. r;
    begins = λ c r. r;
    powers = λ c action r i. r;
  }

  -- The controller is at the call that opens the lock.
  abbrev Opens : LockerController B P → Call → Type 0
  Opens c call =
      (call ≡ unlocks) × (c.lock ≡ locked) × (c.auth.authentication ≡ AuthState.authenticated)

  acquired-Opens :
      (c : LockerController B P)
      → is_open (mark_lock_acquired c).0.lock ≡ true
      → is_open c.lock ≡ true
  unfolding mark_lock_acquired
  acquired-Opens c h = ground arith

  failed-Opens :
      (c : LockerController B P)
      → is_open (mark_lock_failed c).0.lock ≡ true
      → is_open c.lock ≡ true
  unfolding mark_lock_failed
  failed-Opens c h = ground arith

  released-Opens :
      (c : LockerController B P)
      → is_open (mark_lock_released c).0.lock ≡ true
      → is_open c.lock ≡ true
  unfolding mark_lock_released
  released-Opens c h = ground arith

  begin_unlock-Opens :
      (c : LockerController B P)
      → is_open (begin_unlock c authorization).0.lock ≡ true
      → (is_open c.lock ≡ true) ⊎ Opens c unlocks
  unfolding begin_unlock
  begin_unlock-Opens c =
      if-elim
        (λ (m : Method B P (Unit {0}) ControllerError).
          is_open m.0.lock ≡ true → (is_open c.lock ≡ true) ⊎ Opens c unlocks)
        (not (is_locked c.lock) || not (auth_eq c.auth.authentication AuthState.authenticated)) _ _
        (λ t (h : is_open c.lock ≡ true). inl h)
        (λ f (h : true ≡ true). inr (
          refl,
          is_locked→eq c.lock (ground (arith, f)),
          auth_eq→eq c.auth.authentication AuthState.authenticated (ground (arith, f)),
        ))

  called-Opens :
      (c : LockerController B P) (call : Call)
      → is_open (called c call).lock ≡ true
      → (is_open c.lock ≡ true) ⊎ Opens c call
  called-Opens c (handles r) h = inl (
      subst (λ l. is_open l ≡ true) (handle-Kept k w _ (lock-IsStable c.lock) (λ c s r. r) c r refl)
        h)
  called-Opens c cancels h = inl (
      subst (λ l. is_open l ≡ true)
        (cancel_for_lifecycle-Stable k w _ (lock-IsStable c.lock) c refl) h)
  called-Opens c sleeps h = inl (
      subst (λ l. is_open l ≡ true)
        (prepare_for_sleep-Kept k w _ (lock-IsStable c.lock) (λ c s r. r) c refl) h)
  called-Opens c resumes h = inl (
      subst (λ l. is_open l ≡ true)
        (resume_after_sleep-Kept k w _ (lock-IsStable c.lock) (λ c s r. r) c refl) h)
  called-Opens c acquires h = inl (acquired-Opens c h)
  called-Opens c fails h = inl (failed-Opens c h)
  called-Opens c unlocks h = begin_unlock-Opens c h
  called-Opens c releases h = inl (released-Opens c h)

  -- The lock was opened by a call in the run.
  pub record WasOpened (c : LockerController B P) (calls : List Call) : Type 0 where
    pub before : List Call
    pub after : List Call
    pub split : calls ≡ before ++ unlocks ∷ after
    pub was_locked : (run c before).lock ≡ locked
    pub was_authenticated : (run c before).auth.authentication ≡ AuthState.authenticated

  run-Opens :
      (c : LockerController B P) (calls : List Call)
      → is_open (run c calls).lock ≡ true
      → (is_open c.lock ≡ true) ⊎ WasOpened c calls
  run-Opens c [] h = inl h
  run-Opens c (call ∷ calls) h = elim (run-Opens (called c call) calls h) [
    | inr o ↦ inr (record {
      before = call ∷ o.before;
      after = o.after;
      split = ap (◌∷◌ call) o.split;
      was_locked = o.was_locked;
      was_authenticated = o.was_authenticated;
    })
    | inl o ↦ elim (called-Opens c call o) [
      | inl o ↦ inl o
      | inr (e, l, a) ↦ inr (record {
        before = [];
        after = calls;
        split = ap (λ x. x ∷ calls) e;
        was_locked = l;
        was_authenticated = a;
      })
    ]
  ]

  -- A controller whose lock is being acquired is released, over any calls of its public methods, only
  -- if begin_unlock was called among them, at a point where the lock was held and the public state
  -- was authenticated. Requests, cancellations and a sleep of the system never open the lock.
  pub run-WasOpened :
      (c : LockerController B P) (calls : List Call)
      → c.lock ≡ acquiring
      → (run c calls).lock ≡ released
      → WasOpened c calls
  run-WasOpened c calls a r = elim (run-Opens c calls (ap is_open r)) [ inl o ↦ cc | inr o ↦ o ]
