-- ===== src/Lock/Worker/Orderly.antt =====
-- The host of crates/fomalhaut-lock/src/controller_worker.rs is told of the lock in order, over any
-- commands.
use mathlib.Core.List.{append-nil}
use fomalhaut.Common.{
  ℕ, Bool, true, false, not, String, List, [], ◌∷◌, ◌++◌, ok, err, ◌≡◌, ◌≢◌, refl, sym, ap, ◌∙◌,
  if-elim,
}
use fomalhaut.Core.Types.{Text}
use fomalhaut.Web.Protocol.{Event, EventEnvelope}
use fomalhaut.Web.Messages.{
  LockState, acquiring, locked, unlocking, released, failed, RequestEnvelope,
}
use fomalhaut.Web.Public.{ControllerError, envelope_events}
use fomalhaut.Web.Client.{ReauthBackend, PowerControl}
use fomalhaut.Web.Locker.{
  LockerController, Method, publish, in_acquiring, in_unlocking, unless_ended, mark_lock_acquired,
  mark_lock_failed, mark_lock_released,
}
use fomalhaut.Web.Locker.Requests.{handle}
use fomalhaut.Web.Locker.Sleep.{cancel_for_lifecycle, prepare_for_sleep, resume_after_sleep}
use fomalhaut.Web.Locker.Rules.{cancel_for_lifecycle-Stable}
use fomalhaut.Web.Locker.Kept.{handle-Kept, prepare_for_sleep-Kept, resume_after_sleep-Kept}
use fomalhaut.Web.Locker.Lifecycle.{lock-IsStable}
use fomalhaut.Lock.Worker
use fomalhaut.Lock.Worker.{
  Worker, Channel, NativeEvent, lock_acquired, lock_failed, unlock, fatal, backend_ready, answer,
  send, Codec, notify, send_fatal, broadcast_events, contains_view, attach_view,
}
use fomalhaut.Lock.Worker.Commands
use fomalhaut.Lock.Worker.Commands.{
  WorkerCommand, register, detach, request, cancel_for_page, sleeps, resumes, shutdown, and_notify,
  marked, marked_failed, cancelled, go_on, handle_request, command, serve, or_fatal, handled,
}
use fomalhaut.Lock.Worker.Trace.{
  history, IsOrderly, silent, unlocked_never, IsLive, Passes, Leads, notified, send_fatal-IsOrderly,
  or_fatal-Leads, handled-Passes, broadcast_events-Kept, handle_lifecycle_batch-Passes,
}

quiet : (l : LockState) (sent : List NativeEvent) → sent ≡ history l → IsOrderly sent
quiet l sent e = record {
  reached = l;
  last = [];
  closing = silent;
  said = e ∙ sym (append-nil (history l));
}

module _ {B P : Type 0} where
  -- The lock went from `l` to `m`, and the host is told so by `e`.
  and_notify-Leads :
      (p : Worker B P × Bool) (e : NativeEvent) (l m : LockState)
      → p.0.controller.lock ≡ m
      → m ≢ failed
      → p.0.native.sent ≡ history l
      → history l ++ e ∷ [] ≡ history m
      → Leads (and_notify e p)
  and_notify-Leads (h, false) e l m i f t n = quiet l h.native.sent t
  and_notify-Leads (h, true) e l m i f t n =
      notified Leads h e
        (λ c s. record {
          standing = λ g. f (sym i ∙ g);
          told = s ∙ ap (λ (es : List NativeEvent). es ++ e ∷ []) t ∙ n ∙ ap history (sym i);
        })
        (λ c s. quiet l c.sent (s ∙ t))

  marked-Leads :
      (codec : Codec) (h : Worker B P) (message : String) (e : NativeEvent) (l m : LockState)
      (p : Method B P (List EventEnvelope) ControllerError)
      → p.0.lock ≡ m
      → m ≢ failed
      → h.native.sent ≡ history l
      → history l ++ e ∷ [] ≡ history m
      → Leads (marked codec h message e p)
  marked-Leads codec h message e l m (c, err x) i f t n =
      send_fatal-IsOrderly (record h { controller = c }) message (record { at = l; told = t })
  marked-Leads codec h message e l m (c, ok es) i f t n =
      let (j, u) =
        broadcast_events-Kept (λ d n. (d.lock ≡ m) × (n.sent ≡ history l)) codec
          (record h { controller = c }) es (i, t) in
      and_notify-Leads (broadcast_events codec (record h { controller = c }) es) e l m j f u n

  refused-Leads :
      (codec : Codec) (h : Worker B P) (c : LockerController B P) (message : String) (l : LockState)
      → h.native.sent ≡ history l
      → IsOrderly (send_fatal (record h { controller = c }) message).native.sent
  refused-Leads codec h c message l t =
      send_fatal-IsOrderly (record h { controller = c }) message (record { at = l; told = t })

  acquired-Leads :
      (codec : Codec) (h : Worker B P) (message : String) (l : LockState) (c : LockerController B P)
      → h.native.sent ≡ history l
      → Leads (marked codec h message lock_acquired (in_acquiring l c))
  unfolding envelope_events
  acquired-Leads codec h message acquiring c t =
      marked-Leads codec h message lock_acquired acquiring locked
        (publish (record c { lock = locked }) (Event.lock_acquired ∷ [])) refl (λ e. cc) t refl
  acquired-Leads codec h message locked c t = refused-Leads codec h c message locked t
  acquired-Leads codec h message unlocking c t = refused-Leads codec h c message unlocking t
  acquired-Leads codec h message released c t = refused-Leads codec h c message released t
  acquired-Leads codec h message failed c t = refused-Leads codec h c message failed t

  released-Leads :
      (codec : Codec) (h : Worker B P) (message : String) (l : LockState) (c : LockerController B P)
      → h.native.sent ≡ history l
      → Leads (marked codec h message NativeEvent.released (in_unlocking l c))
  unfolding envelope_events
  released-Leads codec h message unlocking c t =
      marked-Leads codec h message NativeEvent.released unlocking released
        (publish (record c { lock = released }) (Event.lock_released ∷ [])) refl (λ e. cc) t refl
  released-Leads codec h message acquiring c t = refused-Leads codec h c message acquiring t
  released-Leads codec h message locked c t = refused-Leads codec h c message locked t
  released-Leads codec h message released c t = refused-Leads codec h c message released t
  released-Leads codec h message failed c t = refused-Leads codec h c message failed t

  marked_failed-Leads :
      (codec : Codec) (h : Worker B P) (l : LockState)
      (p : Method B P (List EventEnvelope) ControllerError)
      → h.native.sent ≡ history l
      → Leads (marked_failed codec h p)
  marked_failed-Leads codec h l (c, err x) t =
      refused-Leads codec h c "the native lock failure order is invalid" l t
  marked_failed-Leads codec h l (c, ok es) t =
      let u =
        broadcast_events-Kept (λ d n. n.sent ≡ history l) codec (record h { controller = c }) es
          t in
      notified (λ p. IsOrderly p.0.native.sent)
        (broadcast_events codec (record h { controller = c }) es).0 lock_failed
        (λ c s. record {
          reached = l;
          last = lock_failed ∷ [];
          closing = unlocked_never;
          said = s ∙ ap (λ (es : List NativeEvent). es ++ lock_failed ∷ []) u;
        })
        (λ c s. quiet l c.sent (s ∙ u))

  cancelled-Passes :
      (h : Worker B P) (m : Method B P (Unit {0}) ControllerError)
      → m.0.lock ≢ failed
      → h.native.sent ≡ history m.0.lock
      → Passes (cancelled h m)
  cancelled-Passes h (c, ok u) s t = record { standing = s; told = t }
  cancelled-Passes h (c, err e) s t = record { at = c.lock; told = t }

  cancelled-native :
      (h : Worker B P) (m : Method B P (Unit {0}) ControllerError)
      → (cancelled h m).0.native ≡ h.native
  cancelled-native h (c, ok u) = refl
  cancelled-native h (c, err e) = refl

module _ {B P : Type 0} (k : ReauthBackend B) (w : PowerControl P) (codec : Codec) where
  handle_request-Passes :
      (h : Worker B P) (view epoch : ℕ) (r : RequestEnvelope)
      → IsLive h
      → Passes (handle_request k w codec h view epoch r)
  unfolding handle_request
  handle_request-Passes h view epoch r i =
      let same =
        handle-Kept k w _ (lock-IsStable k w h.controller.lock) (λ c s r. r) h.controller r refl in
      if-elim Passes (not (contains_view view h.views)) _ _ (λ t. i)
        (λ f.
          handled-Passes codec h view epoch (handle k w h.controller r)
            (λ e. i.standing (sym same ∙ e)) (i.told ∙ ap history (sym same)))

  attach_view-Leads :
      (h : Worker B P) (view : ℕ) (output : Channel Worker.Output) (resources : List Text)
      → IsLive h
      → IsLive (attach_view h view output resources)
  unfolding attach_view
  attach_view-Leads h view output resources i =
      if-elim IsLive (send output (Worker.ready resources)).1 _ _
        (λ t. record { standing = i.standing; told = i.told }) (λ f. i)

  command-Leads :
      (resources : List Text) (h : Worker B P) (c : WorkerCommand)
      → IsLive h
      → Leads (command k w codec resources h c)
  unfolding command mark_lock_acquired mark_lock_failed mark_lock_released
  command-Leads resources h (register view output) i = attach_view-Leads h view output resources i
  command-Leads resources h (detach view) i = record { standing = i.standing; told = i.told }
  command-Leads resources h (request view epoch r) i =
      or_fatal-Leads _ (handle_request k w codec h view epoch r)
        (handle_request-Passes h view epoch r i)
  command-Leads resources h cancel_for_page i =
      let same =
        cancel_for_lifecycle-Stable k w _ (lock-IsStable k w h.controller.lock) h.controller refl in
      or_fatal-Leads _ (cancelled h (cancel_for_lifecycle k h.controller)) (
        cancelled-Passes h (cancel_for_lifecycle k h.controller) (λ e. i.standing (sym same ∙ e))
          (i.told ∙ ap history (sym same)))
  command-Leads resources h sleeps i =
      let same =
        prepare_for_sleep-Kept k w _ (lock-IsStable k w h.controller.lock) (λ c s r. r) h.controller
          refl in
      or_fatal-Leads _ (Commands.handle_lifecycle_batch codec h (prepare_for_sleep k h.controller))
        (handle_lifecycle_batch-Passes codec h (prepare_for_sleep k h.controller)
          (λ e. i.standing (sym same ∙ e)) (i.told ∙ ap history (sym same)))
  command-Leads resources h resumes i =
      let same =
        resume_after_sleep-Kept k w _ (lock-IsStable k w h.controller.lock) (λ c s r. r)
          h.controller refl in
      or_fatal-Leads _ (Commands.handle_lifecycle_batch codec h (resume_after_sleep k h.controller))
        (handle_lifecycle_batch-Passes codec h (resume_after_sleep k h.controller)
          (λ e. i.standing (sym same ∙ e)) (i.told ∙ ap history (sym same)))
  command-Leads resources h WorkerCommand.lock_acquired i =
      acquired-Leads codec h _ h.controller.lock h.controller i.told
  command-Leads resources h WorkerCommand.lock_failed i =
      marked_failed-Leads codec h h.controller.lock (unless_ended h.controller.lock h.controller)
        i.told
  command-Leads resources h WorkerCommand.lock_released i =
      released-Leads codec h _ h.controller.lock h.controller i.told
  command-Leads resources h shutdown i = quiet h.controller.lock _ (
      ap (λ (c : Channel NativeEvent). c.sent)
        (cancelled-native h (cancel_for_lifecycle k h.controller))
      ∙ i.told)

  go_on-IsOrderly :
      (p : Worker B P × Bool) (rest : Worker B P → Worker B P)
      → Leads p
      → ((h : Worker B P) → IsLive h → IsOrderly (rest h).native.sent)
      → IsOrderly (go_on p rest).native.sent
  go_on-IsOrderly (h, true) rest l f = f h l
  go_on-IsOrderly (h, false) rest l f = l

  pub serve-IsOrderly :
      (resources : List Text) (h : Worker B P) (cs : List WorkerCommand)
      → IsLive h
      → IsOrderly (serve k w codec resources h cs).native.sent
  unfolding serve
  serve-IsOrderly resources h [] i = quiet h.controller.lock _ (
      ap (λ (c : Channel NativeEvent). c.sent)
        (cancelled-native h (cancel_for_lifecycle k h.controller))
      ∙ i.told)
  serve-IsOrderly resources h (c ∷ cs) i =
      go_on-IsOrderly (command k w codec resources h c) _ (command-Leads resources h c i)
        (λ h i. serve-IsOrderly resources h cs i)
