-- ===== src/Web/Locker/Kept.antt =====
-- What `LockerController` of crates/fomalhaut-web/src/controller.rs keeps over whole requests, and around
-- a sleep of the system.
use fomalhaut.Common.{ℕ, Bool, not, List, Result, ok, err, if-elim}
use fomalhaut.Core.Types
use fomalhaut.Core.Types.{Text, BackendError}
use fomalhaut.Web.Protocol.{AuthState, Event, EventSequence, EventEnvelope}
use fomalhaut.Web.Messages.{ProtocolErrorBody, RequestEnvelope, ResponseEnvelope, StateSnapshot}
use fomalhaut.Web.Public.{
  ControllerError, controller_error, reset_conversation, update_state, envelope_events,
  number_events,
}
use fomalhaut.Web.Client.{ReauthBackend, PowerControl}
use fomalhaut.Web.Client.Rules.{cancel_for_lifecycle-Kept, cancel_after_internal_failure-Kept}
use fomalhaut.Web.Batch.{response_to, is_state_get}
use fomalhaut.Web.Locker.{LockerController, Method, is_locked, publish}
use fomalhaut.Web.Locker.Requests.{
  cancel_failed, execute, batch, settled, snapshot_batch, snapshot, handle,
}
use fomalhaut.Web.Locker.Sleep.{
  lifecycle_batch, finish_lifecycle_batch, slept, prepare_for_sleep, resumed, restarted, woken,
  resume_after_sleep, cancel_event,
}
use fomalhaut.Web.Locker.Rules.{IsStable, drain-Kept, or_cancel-Kept, execute-Kept}

module _ {B P : Type 0} (k : ReauthBackend B) (w : PowerControl P)
    (R : LockerController B P → Type 0) (h : IsStable k w R)
    (numbers : (c : LockerController B P) (s : EventSequence)
      → R c
      → R (record c { auth = record c.auth { sequences = s } })) where
  abbrev Kept : {A E : Type 0} → Method B P A E → Type 0
  Kept m = R m.0

  publish-Kept : (c : LockerController B P) (events : List Event) → R c → Kept (publish c events)
  unfolding envelope_events
  publish-Kept c events r = numbers c (number_events c.auth.sequences events).0 r

  batch-Kept :
      (response : ResponseEnvelope) (unlock fallback : Bool)
      (m : Method B P (List EventEnvelope) ControllerError)
      → Kept m
      → Kept (batch k w response unlock fallback m)
  batch-Kept response unlock fallback (c, ok es) r = r
  batch-Kept response unlock fallback (c, err e) r = r

  settled-Kept :
      (id : ℕ) (previous : AuthState) (before : Types.AuthState)
      (operation : Result (List Event) ProtocolErrorBody)
      (m : Method B P (List Event) ControllerError)
      → Kept m
      → Kept (settled k w id previous before operation m)
  unfolding update_state
  settled-Kept id previous before operation (c, err e) r = r
  settled-Kept id previous before operation (c, ok es) r =
      batch-Kept (response_to id operation) _ _ _
        (publish-Kept _ _ ((h.conversation c).updates c.auth c.client r))

  snapshot_batch-Kept :
      (id : ℕ) (c : LockerController B P) (s : Result StateSnapshot ControllerError)
      → R c
      → Kept (snapshot_batch k w id c s)
  snapshot_batch-Kept id c (ok s) r = r
  snapshot_batch-Kept id c (err e) r = r

  pub handle-Kept : (c : LockerController B P) (r : RequestEnvelope) → R c → R (handle k w c r).0
  unfolding handle
  handle-Kept c r i =
      if-elim Kept (is_state_get r.request) _ _ (λ t. snapshot_batch-Kept r.id c (snapshot k w c) i)
        (λ f.
          settled-Kept r.id _ _ (execute k w c r.request).1 _
            (or_cancel-Kept k w R h _ (drain-Kept k w R h _ (execute-Kept k w R h c r.request i))))

  lifecycle_batch-Kept :
      (unlock : Bool) (m : Method B P (List EventEnvelope) ControllerError)
      → Kept m
      → Kept (lifecycle_batch k unlock m)
  lifecycle_batch-Kept unlock (c, ok es) r = r
  lifecycle_batch-Kept unlock (c, err e) r = r

  finish_lifecycle_batch-Kept :
      (c : LockerController B P) (previous : AuthState) (events : List Event)
      → R c
      → Kept (finish_lifecycle_batch k c previous events)
  unfolding finish_lifecycle_batch
  finish_lifecycle_batch-Kept c previous events r = lifecycle_batch-Kept _ _ (publish-Kept c _ r)

  slept-Kept :
      (previous : AuthState) (cancelled : Bool) (m : Method B P (Unit {0}) ControllerError)
      → Kept m
      → Kept (slept k previous cancelled m)
  slept-Kept previous cancelled (c, ok u) r =
      finish_lifecycle_batch-Kept c previous (cancel_event cancelled) r
  slept-Kept previous cancelled (c, err e) r = r

  pub prepare_for_sleep-Kept : (c : LockerController B P) → R c → R (prepare_for_sleep k c).0
  unfolding prepare_for_sleep
  prepare_for_sleep-Kept c r =
      if-elim Kept (not (is_locked c.lock)) _ _ (λ t. r)
        (λ f.
          slept-Kept _ _ _
            (cancel_for_lifecycle-Kept k.conversation _ (h.conversation c) c.auth c.client r))

  resumed-Kept :
      (previous : AuthState) (cancelled : Bool) (m : Method B P (List Event) ControllerError)
      → Kept m
      → Kept (resumed k previous cancelled m)
  resumed-Kept previous cancelled (c, ok es) r =
      finish_lifecycle_batch-Kept _ previous _ ((h.conversation c).updates c.auth c.client r)
  resumed-Kept previous cancelled (c, err e) r = r

  restarted-Kept :
      (previous : AuthState) (cancelled : Bool) (c : LockerController B P)
      (p : B × Result (Unit {0}) BackendError)
      → R (record c { client = p.0 })
      → Kept (restarted k previous cancelled c p)
  restarted-Kept previous cancelled c (b, ok u) r =
      resumed-Kept previous cancelled _ (or_cancel-Kept k w R h _ (drain-Kept k w R h _ r))
  restarted-Kept previous cancelled c (b, err e) r =
      resumed-Kept previous cancelled
        (cancel_failed k (record c { client = b })
          (controller_error "authentication could not restart after system resume"))
        (cancel_after_internal_failure-Kept k.conversation _ (h.conversation c) c.auth b r)

  woken-Kept :
      (previous : AuthState) (cancelled : Bool) (m : Method B P (Unit {0}) ControllerError)
      → Kept m
      → Kept (woken k previous cancelled m)
  woken-Kept previous cancelled (c, ok u) r =
      restarted-Kept previous cancelled (record c { auth = reset_conversation c.auth })
        (k.begin_reauth c.client) (h.begins _ (h.resets c r))
  woken-Kept previous cancelled (c, err e) r = r

  pub resume_after_sleep-Kept : (c : LockerController B P) → R c → R (resume_after_sleep k c).0
  unfolding resume_after_sleep
  resume_after_sleep-Kept c r =
      if-elim Kept (not (is_locked c.lock)) _ _ (λ t. r)
        (λ f.
          woken-Kept _ _ _
            (cancel_for_lifecycle-Kept k.conversation _ (h.conversation c) c.auth c.client r))
