-- ===== src/Web/Locker.antt =====
-- crates/fomalhaut-web/src/controller.rs: the state of `LockerController`, over a backend and a power
-- control, and its lock lifecycle.
pub mod Requests
pub mod Sleep
pub mod Rules
pub mod Shown
pub mod Vouched
pub mod Numbers
pub mod Consecutive
pub mod Kept
pub mod Authorized
pub mod Lifecycle
use fomalhaut.Common.{
  ◌≡◌, arith, ℕ, Bool, true, false, not, ◌&&◌, ◌||◌, Option, none, some, List, [], ◌∷◌, ◌++◌,
  Result, ok, err, map_err, ◌==◌, if◌then◌else◌,
}
use fomalhaut.Core.Types
use fomalhaut.Core.Types.{Text, BackendError}
use fomalhaut.Web.Protocol.{
  AuthState, IdentitySummary, Event, auth_cancelled, lock_acquired, lock_failed, lock_released,
  EventEnvelope, watermark,
}
use fomalhaut.Web.Messages.{
  UiLocale, LockState, acquiring, locked, unlocking, released, failed, PowerAction, Capabilities,
  has_action, action_eq, ProtocolErrorBody, ProtocolErrorCode, new_error, FrontendRequest,
  state_get, auth_begin, auth_respond, auth_cancel, session_select, power_request, is_locker,
  AuthBeginParams, RequestEnvelope, StateSnapshot, locker_snapshot, ResponseEnvelope,
  ResponseResult,
}
use fomalhaut.Web.Public.{
  AuthPublicState, ControllerError, controller_error, new, reset_conversation, update_state,
  envelope_events,
}
use fomalhaut.Web.Client.{
  ReauthBackend, PowerControl, PowerControlError, protocol_error, stale_prompt_error,
  drain_core_events, cancel_for_lifecycle, cancel_after_internal_failure,
}
use fomalhaut.Web.Batch.{
  ControllerBatch, LockerLifecycleBatch, UnlockAuthorization, auth_eq, with_change, response_to,
}

pub record LockerController (B P : Type 0) : Type 0 where
  pub client : B
  pub auth : AuthPublicState
  pub lock : LockState
  pub identity : IdentitySummary
  pub power : P
  pub locale : UiLocale

abbrev pub is_locked : LockState → Bool
is_locked locked = true
is_locked _ = false

-- A method on `&mut self`.
abbrev pub Method : Type 0 → Type 0 → Type 0 → Type 0 → Type 0
Method B P A E = LockerController B P × Result A E

pub is_locked→eq : (l : LockState) → is_locked l ≡ true → l ≡ locked
is_locked→eq l h = ground arith

module _ {B P : Type 0} where
  -- A method of the field `auth`, which may use the field `client`.
  abbrev pub on_auth :
      {A : Type 0}
      → LockerController B P
      → (AuthPublicState × B) × Result A ControllerError
      → Method B P A ControllerError
  on_auth c ((a, b), r) = (record c { auth = a; client = b }, r)

  abbrev pub numbered_events :
      LockerController B P
      → AuthPublicState × Result (List EventEnvelope) ControllerError
      → Method B P (List EventEnvelope) ControllerError
  numbered_events c (a, r) = (record c { auth = a }, r)

  abbrev pub publish :
      LockerController B P → List Event → Method B P (List EventEnvelope) ControllerError
  publish c events = numbered_events c (envelope_events c.auth events)

  abbrev pub in_acquiring :
      LockState → LockerController B P → Method B P (List EventEnvelope) ControllerError
  in_acquiring acquiring c = publish (record c { lock = locked }) (lock_acquired ∷ [])
  in_acquiring _ c =
      (c, err (controller_error "the lock cannot be acquired in its current lifecycle state"))

  unfoldable pub mark_lock_acquired :
      LockerController B P → Method B P (List EventEnvelope) ControllerError
  unfolding envelope_events
  mark_lock_acquired c = in_acquiring c.lock c

  abbrev pub unless_ended :
      LockState → LockerController B P → Method B P (List EventEnvelope) ControllerError
  unless_ended failed c =
      (c, err (controller_error "the lock cannot fail in its current lifecycle state"))
  unless_ended released c =
      (c, err (controller_error "the lock cannot fail in its current lifecycle state"))
  unless_ended _ c = publish (record c { lock = failed }) (lock_failed ∷ [])

  unfoldable pub mark_lock_failed :
      LockerController B P → Method B P (List EventEnvelope) ControllerError
  unfolding envelope_events
  mark_lock_failed c = unless_ended c.lock c

  unfoldable pub begin_unlock :
      LockerController B P → UnlockAuthorization → Method B P (Unit {0}) ControllerError
  unfolding auth_eq
  begin_unlock c _ =
      if not (is_locked c.lock) || not (auth_eq c.auth.authentication AuthState.authenticated)
      then (c, err (controller_error "the lock cannot begin unlocking in its current state"))
      else (record c { lock = unlocking }, ok tt)

  abbrev pub in_unlocking :
      LockState → LockerController B P → Method B P (List EventEnvelope) ControllerError
  in_unlocking unlocking c = publish (record c { lock = released }) (lock_released ∷ [])
  in_unlocking _ c =
      (c, err (controller_error "the lock cannot be released in its current lifecycle state"))

  unfoldable pub mark_lock_released :
      LockerController B P → Method B P (List EventEnvelope) ControllerError
  unfolding envelope_events
  mark_lock_released c = in_unlocking c.lock c
