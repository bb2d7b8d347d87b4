-- ===== src/Web/Locker/Sleep.antt =====
-- crates/fomalhaut-web/src/controller.rs: what `LockerController` does around a sleep of the system.
use fomalhaut.Common.{Bool, false, not, ◌&&◌, List, [], ◌∷◌, ◌++◌, Result, ok, err, if◌then◌else◌}
use fomalhaut.Core.Types.{BackendError}
use fomalhaut.Web.Protocol.{AuthState, Event, auth_cancelled, EventEnvelope}
use fomalhaut.Web.Public.{
  ControllerError, controller_error, reset_conversation, update_state, envelope_events,
}
use fomalhaut.Web.Client
use fomalhaut.Web.Client.{ReauthBackend, drain_core_events, cancel_after_internal_failure}
use fomalhaut.Web.Batch.{LockerLifecycleBatch, auth_eq, with_change}
use fomalhaut.Web.Locker.{LockerController, Method, is_locked, on_auth, publish}
use fomalhaut.Web.Locker.Requests.{drain, or_cancel, cancel_failed}

abbrev pub cancel_event : Bool → List Event
cancel_event cancelled = if cancelled then auth_cancelled ∷ [] else []

abbrev pub no_batch : LockerLifecycleBatch
no_batch = record { events = []; unlock_authorized = false }

module _ {B P : Type 0} (k : ReauthBackend B) where
  unfoldable pub cancel_for_lifecycle : LockerController B P → Method B P (Unit {0}) ControllerError
  unfolding Client.cancel_for_lifecycle
  cancel_for_lifecycle c = on_auth c (Client.cancel_for_lifecycle k.conversation c.auth c.client)

  abbrev pub lifecycle_batch :
      Bool
      → Method B P (List EventEnvelope) ControllerError
      → Method B P LockerLifecycleBatch ControllerError
  lifecycle_batch unlock (c, err e) = (c, err e)
  lifecycle_batch unlock (c, ok events) =
      (c, ok (record { events = events; unlock_authorized = unlock }))

  unfoldable pub finish_lifecycle_batch :
      LockerController B P
      → AuthState
      → List Event
      → Method B P LockerLifecycleBatch ControllerError
  unfolding envelope_events with_change auth_eq
  finish_lifecycle_batch c previous events =
      lifecycle_batch
        (not (auth_eq previous AuthState.authenticated)
          && auth_eq c.auth.authentication AuthState.authenticated)
        (publish c (with_change previous c.auth.authentication events))

  abbrev pub slept :
      AuthState
      → Bool
      → Method B P (Unit {0}) ControllerError
      → Method B P LockerLifecycleBatch ControllerError
  slept previous cancelled (c, err e) = (c, err e)
  slept previous cancelled (c, ok _) = finish_lifecycle_batch c previous (cancel_event cancelled)

  unfoldable pub prepare_for_sleep :
      LockerController B P → Method B P LockerLifecycleBatch ControllerError
  unfolding Client.cancel_for_lifecycle finish_lifecycle_batch
  prepare_for_sleep c =
      if not (is_locked c.lock)
      then (c, ok no_batch)
      else slept c.auth.authentication (k.conversation.needs_cancel c.client)
          (on_auth c (Client.cancel_for_lifecycle k.conversation c.auth c.client))

  abbrev pub resumed :
      AuthState
      → Bool
      → Method B P (List Event) ControllerError
      → Method B P LockerLifecycleBatch ControllerError
  resumed previous cancelled (c, err e) = (c, err e)
  resumed previous cancelled (c, ok core_events) =
      finish_lifecycle_batch
        (record c { auth = update_state c.auth (k.conversation.state c.client) }) previous
        (cancel_event cancelled ++ core_events)

  abbrev pub restarted :
      AuthState
      → Bool
      → LockerController B P
      → B × Result (Unit {0}) BackendError
      → Method B P LockerLifecycleBatch ControllerError
  restarted previous cancelled c (b, ok _) =
      resumed previous cancelled (or_cancel k (drain k (record c { client = b })))
  restarted previous cancelled c (b, err e) = resumed previous cancelled (
      cancel_failed k (record c { client = b })
        (controller_error "authentication could not restart after system resume"))

  abbrev pub woken :
      AuthState
      → Bool
      → Method B P (Unit {0}) ControllerError
      → Method B P LockerLifecycleBatch ControllerError
  woken previous cancelled (c, err e) = (c, err e)
  woken previous cancelled (c, ok _) =
      restarted previous cancelled (record c { auth = reset_conversation c.auth })
        (k.begin_reauth c.client)

  unfoldable pub resume_after_sleep :
      LockerController B P → Method B P LockerLifecycleBatch ControllerError
  unfolding Client.cancel_for_lifecycle reset_conversation drain_core_events update_state
      cancel_after_internal_failure finish_lifecycle_batch
  resume_after_sleep c =
      if not (is_locked c.lock)
      then (c, ok no_batch)
      else woken c.auth.authentication (k.conversation.needs_cancel c.client)
          (on_auth c (Client.cancel_for_lifecycle k.conversation c.auth c.client))
