-- ===== src/Lock/Worker/Commands.antt =====
-- crates/fomalhaut-lock/src/controller_worker.rs: the commands of the loop.
use fomalhaut.Common.{
  ℕ, Bool, true, false, not, Option, none, some, is_some, String, List, [], ◌∷◌, Result, ok, err,
  if◌then◌else◌,
}
use fomalhaut.Core.Types.{Text}
use fomalhaut.Web.Protocol.{EventEnvelope}
use fomalhaut.Web.Messages.{RequestEnvelope}
use fomalhaut.Web.Public.{ControllerError}
use fomalhaut.Web.Client.{ReauthBackend, PowerControl}
use fomalhaut.Web.Batch.{
  ControllerBatch, LockerLifecycleBatch, UnlockAuthorization, take_unlock_authorization,
  take_lifecycle_authorization,
}
use fomalhaut.Web.Locker.{
  LockerController, mark_lock_acquired, mark_lock_failed, begin_unlock, mark_lock_released,
}
use fomalhaut.Web.Locker.Requests.{handle}
use fomalhaut.Web.Locker.Sleep.{cancel_for_lifecycle, prepare_for_sleep, resume_after_sleep}
use fomalhaut.Lock.Worker.{
  Worker, Channel, Output, NativeEvent, Codec, into_bridge_parts, contains_view, remove_view,
  with_views, notify, send_view_fallback, send_fatal, broadcast_events, broadcast_serialized_events,
  send_to_view, attach_view,
}

pub data WorkerCommand : Type 0 where
  register : ℕ → Channel Output → WorkerCommand
  detach : ℕ → WorkerCommand
  request : ℕ → ℕ → RequestEnvelope → WorkerCommand
  cancel_for_page sleeps resumes lock_acquired lock_failed lock_released shutdown : WorkerCommand

module _ {B P : Type 0} where
  abbrev pub unlocked :
      LockerController B P × Result (Unit {0}) ControllerError → LockerController B P × Bool
  unlocked (c, ok _) = (c, true)
  unlocked (c, err e) = (c, false)

  -- An authorization is spent.
  unfoldable pub spend :
      LockerController B P → Option UnlockAuthorization → LockerController B P × Bool
  unfolding begin_unlock
  spend c none = (c, true)
  spend c (some a) = unlocked (begin_unlock c a)

  unfoldable pub notify_if : Bool → Worker B P → Worker B P × Bool
  unfolding notify
  notify_if unlock h = if unlock then notify h NativeEvent.unlock else (h, true)

  -- What the views get of a request's outcome.
  unfoldable pub show : Worker B P → ℕ → ℕ → Bool → Text → List Text → Worker B P
  unfolding send_to_view broadcast_serialized_events send_view_fallback
  show h view epoch fallback response scripts =
      let h₁ = with_views h (send_to_view h.views view (Output.batch epoch response scripts)) in
      let h₂ = with_views h₁ (broadcast_serialized_events h₁.views (some view) scripts) in
      if fallback
      then send_view_fallback h₂
          "the isolated authentication worker failed; retry starts a fresh transaction"
      else h₂

  abbrev pub delivered :
      Worker B P
      → ℕ
      → ℕ
      → Bool
      → Bool
      → Result (Text × List Text) ControllerError
      → Worker B P × Bool
  delivered h view epoch fallback unlock (err e) = (h, false)
  delivered h view epoch fallback unlock (ok (response, scripts)) =
      notify_if unlock (show h view epoch fallback response scripts)

  abbrev pub spent :
      Codec
      → Worker B P
      → ℕ
      → ℕ
      → ControllerBatch × Option UnlockAuthorization
      → LockerController B P × Bool
      → Worker B P × Bool
  spent codec h view epoch (batch, unlock) (c, false) = (record h { controller = c }, false)
  spent codec h view epoch (batch, unlock) (c, true) =
      delivered (record h { controller = c }) view epoch batch.trusted_fallback (is_some unlock)
        (into_bridge_parts codec batch)

  abbrev pub taken :
      Codec
      → Worker B P
      → LockerController B P
      → ℕ
      → ℕ
      → ControllerBatch × Option UnlockAuthorization
      → Worker B P × Bool
  taken codec h c view epoch (batch, unlock) =
      spent codec h view epoch (batch, unlock) (spend c unlock)

  abbrev pub handled :
      Codec
      → Worker B P
      → ℕ
      → ℕ
      → LockerController B P × Result ControllerBatch ControllerError
      → Worker B P × Bool
  handled codec h view epoch (c, err e) = (record h { controller = c }, false)
  handled codec h view epoch (c, ok batch) =
      taken codec h c view epoch (take_unlock_authorization batch)

  abbrev pub broadcasted : Bool → Worker B P × Bool → Worker B P × Bool
  broadcasted unlock (h, true) = notify_if unlock h
  broadcasted unlock (h, false) = (h, false)

  abbrev pub lifecycle_spent :
      Codec
      → Worker B P
      → LockerLifecycleBatch × Option UnlockAuthorization
      → LockerController B P × Bool
      → Worker B P × Bool
  lifecycle_spent codec h (batch, unlock) (c, false) = (record h { controller = c }, false)
  lifecycle_spent codec h (batch, unlock) (c, true) =
      broadcasted (is_some unlock)
        (broadcast_events codec (record h { controller = c }) batch.events)

  abbrev pub lifecycle_taken :
      Codec
      → Worker B P
      → LockerController B P
      → LockerLifecycleBatch × Option UnlockAuthorization
      → Worker B P × Bool
  lifecycle_taken codec h c (batch, unlock) =
      lifecycle_spent codec h (batch, unlock) (spend c unlock)

  unfoldable pub handle_lifecycle_batch :
      Codec
      → Worker B P
      → LockerController B P × Result LockerLifecycleBatch ControllerError
      → Worker B P × Bool
  unfolding spend take_lifecycle_authorization broadcast_events notify_if
  handle_lifecycle_batch codec h (c, err e) = (record h { controller = c }, false)
  handle_lifecycle_batch codec h (c, ok batch) =
      lifecycle_taken codec h c (take_lifecycle_authorization batch)

  -- On an error the views and the host are told, and the loop ends.
  abbrev pub or_fatal : String → Worker B P × Bool → Worker B P × Bool
  or_fatal message (h, true) = (h, true)
  or_fatal message (h, false) = (send_fatal h message, false)

  abbrev pub and_notify : NativeEvent → Worker B P × Bool → Worker B P × Bool
  and_notify e (h, true) = notify h e
  and_notify e (h, false) = (h, false)

  -- A mark on the lock, and what the host is told of it.
  abbrev pub marked :
      Codec
      → Worker B P
      → String
      → NativeEvent
      → LockerController B P × Result (List EventEnvelope) ControllerError
      → Worker B P × Bool
  marked codec h message e (c, err _) = (send_fatal (record h { controller = c }) message, false)
  marked codec h message e (c, ok es) =
      and_notify e (broadcast_events codec (record h { controller = c }) es)

  abbrev pub marked_failed :
      Codec
      → Worker B P
      → LockerController B P × Result (List EventEnvelope) ControllerError
      → Worker B P × Bool
  marked_failed codec h (c, err _) =
      (send_fatal (record h { controller = c }) "the native lock failure order is invalid", false)
  marked_failed codec h (c, ok es) = (
    (notify (broadcast_events codec (record h { controller = c }) es).0 NativeEvent.lock_failed).0,
    false,
  )

  abbrev pub cancelled :
      Worker B P → LockerController B P × Result (Unit {0}) ControllerError → Worker B P × Bool
  cancelled h (c, ok _) = (record h { controller = c }, true)
  cancelled h (c, err e) = (record h { controller = c }, false)

  abbrev pub go_on : Worker B P × Bool → (Worker B P → Worker B P) → Worker B P
  go_on (h, true) rest = rest h
  go_on (h, false) rest = h

module _ {B P : Type 0} (k : ReauthBackend B) (w : PowerControl P) (codec : Codec) where
  unfoldable pub handle_request : Worker B P → ℕ → ℕ → RequestEnvelope → Worker B P × Bool
  unfolding handle spend take_unlock_authorization into_bridge_parts notify_if show
  handle_request h view epoch r =
      if not (contains_view view h.views)
      then (h, true)
      else handled codec h view epoch (handle k w h.controller r)

  -- One command, and whether the loop goes on.
  unfoldable pub command : List Text → Worker B P → WorkerCommand → Worker B P × Bool
  unfolding attach_view handle_request cancel_for_lifecycle prepare_for_sleep resume_after_sleep
      handle_lifecycle_batch mark_lock_acquired mark_lock_failed mark_lock_released send_fatal
      broadcast_events notify
  command resources h (register view output) = (attach_view h view output resources, true)
  command resources h (detach view) = (with_views h (remove_view view h.views), true)
  command resources h (request view epoch r) =
      or_fatal "the locker controller could not maintain public state"
        (handle_request h view epoch r)
  command resources h cancel_for_page =
      or_fatal "the locker controller could not cancel a stale page"
        (cancelled h (cancel_for_lifecycle k h.controller))
  command resources h sleeps =
      or_fatal "the locker could not prepare authentication for system sleep"
        (handle_lifecycle_batch codec h (prepare_for_sleep k h.controller))
  command resources h resumes =
      or_fatal "authentication could not restart after system resume"
        (handle_lifecycle_batch codec h (resume_after_sleep k h.controller))
  command resources h lock_acquired =
      marked codec h "the native lock acquisition order is invalid" NativeEvent.lock_acquired
        (mark_lock_acquired h.controller)
  command resources h lock_failed = marked_failed codec h (mark_lock_failed h.controller)
  command resources h lock_released =
      marked codec h "the session lock was released without authorization" NativeEvent.released
        (mark_lock_released h.controller)
  command resources h shutdown = ((cancelled h (cancel_for_lifecycle k h.controller)).0, false)

  -- The loop, until a command ends it or no command can come.
  unfoldable pub serve : List Text → Worker B P → List WorkerCommand → Worker B P
  unfolding command cancel_for_lifecycle
  serve resources h [] = (cancelled h (cancel_for_lifecycle k h.controller)).0
  serve resources h (c ∷ cs) = go_on (command resources h c) (λ h. serve resources h cs)
