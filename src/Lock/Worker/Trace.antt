-- ===== src/Lock/Worker/Trace.antt =====
-- What the worker of crates/fomalhaut-lock/src/controller_worker.rs tells the host, and in which order.
use mathlib.Core.List.{append-nil}
use fomalhaut.Common.{
  ℕ, Bool, true, false, not, ◌||◌, Option, none, some, is_some, String, List, [], ◌∷◌, ◌++◌, Result,
  ok, err, ◌≡◌, ◌≢◌, refl, sym, ap, ◌∙◌, if-elim, arith,
}
use fomalhaut.Core.Types.{Text}
use fomalhaut.Web.Protocol.{AuthState, EventEnvelope}
use fomalhaut.Web.Messages.{LockState, acquiring, locked, unlocking, released, failed}
use fomalhaut.Web.Public.{ControllerError}
use fomalhaut.Web.Batch.{
  ControllerBatch, LockerLifecycleBatch, UnlockAuthorization, auth_eq, take_unlock_authorization,
  take_lifecycle_authorization,
}
use fomalhaut.Web.Locker.{LockerController, Method, begin_unlock, is_locked, is_locked→eq}
use fomalhaut.Lock.Worker.{
  Worker, Channel, NativeEvent, backend_ready, lock_acquired, lock_failed, unlock, fatal, answer,
  send, notify, send_view_fallback, send_fatal, Codec, broadcast_events, broadcast_scripts, collect,
  into_bridge_parts,
}
use fomalhaut.Lock.Worker.Commands.{
  spend, unlocked, notify_if, show, delivered, spent, taken, handled, broadcasted, lifecycle_spent,
  lifecycle_taken, handle_lifecycle_batch, or_fatal,
}

-- What the host has been told when the lock is in a state.
abbrev pub history : LockState → List NativeEvent
history acquiring = backend_ready ∷ []
history locked = backend_ready ∷ lock_acquired ∷ []
history unlocking = backend_ready ∷ lock_acquired ∷ unlock ∷ []
history released = backend_ready ∷ lock_acquired ∷ unlock ∷ NativeEvent.released ∷ []
history failed = backend_ready ∷ []

-- What ends it.
pub data IsClosing : List NativeEvent → Type 0 where
  silent : IsClosing []
  fatally : (m : String) → IsClosing (fatal m ∷ [])
  unlocked_never : IsClosing (lock_failed ∷ [])

-- All that the host was told.
pub record IsOrderly (sent : List NativeEvent) : Type 0 where
  pub reached : LockState
  pub last : List NativeEvent
  pub closing : IsClosing last
  pub said : sent ≡ history reached ++ last

module _ {B P : Type 0} where
  pub record IsLive (h : Worker B P) : Type 0 where
    pub standing : h.controller.lock ≢ failed
    pub told : h.native.sent ≡ history h.controller.lock

  -- The host was told what belongs to some state.
  pub record IsTold (h : Worker B P) : Type 0 where
    pub at : LockState
    pub told : h.native.sent ≡ history at

  abbrev pub Passes : Worker B P × Bool → Type 0
  Passes (h, true) = IsLive h
  Passes (h, false) = IsTold h

  abbrev pub Leads : Worker B P × Bool → Type 0
  Leads (h, true) = IsLive h
  Leads (h, false) = IsOrderly h.native.sent

  -- After an event was sent, or could not be.
  pub notified :
      (Q : Worker B P × Bool → Type 0) (h : Worker B P) (e : NativeEvent)
      → ((c : Channel NativeEvent)
          → c.sent ≡ h.native.sent ++ e ∷ []
          → Q (record h { native = c }, true))
      → ((c : Channel NativeEvent) → c.sent ≡ h.native.sent → Q (record h { native = c }, false))
      → Q (notify h e)
  unfolding notify send
  notified Q h e f g = by_answer Q h e h.native.answers f g
    where
      by_answer :
          (Q : Worker B P × Bool → Type 0) (h : Worker B P) (e : NativeEvent) (bs : List Bool)
          → ((c : Channel NativeEvent)
              → c.sent ≡ h.native.sent ++ e ∷ []
              → Q (record h { native = c }, true))
          → ((c : Channel NativeEvent)
              → c.sent ≡ h.native.sent
              → Q (record h { native = c }, false))
          → Q (record h { native = (answer bs e h.native).0 }, (answer bs e h.native).1)
      by_answer Q h e [] f g = g _ refl
      by_answer Q h e (true ∷ bs) f g = f _ refl
      by_answer Q h e (false ∷ bs) f g = g _ refl

  pub send_fatal-IsOrderly :
      (h : Worker B P) (m : String) → IsTold h → IsOrderly (send_fatal h m).native.sent
  unfolding send_fatal send_view_fallback
  send_fatal-IsOrderly h m t =
      notified (λ p. IsOrderly p.0.native.sent) (send_view_fallback h m) (fatal m)
        (λ c e. record {
          reached = t.at;
          last = fatal m ∷ [];
          closing = fatally m;
          said = e ∙ ap (λ (es : List NativeEvent). es ++ fatal m ∷ []) t.told;
        })
        (λ c e. record {
          reached = t.at;
          last = [];
          closing = silent;
          said = e ∙ t.told ∙ sym (append-nil (history t.at));
        })

  pub or_fatal-Leads : (m : String) (p : Worker B P × Bool) → Passes p → Leads (or_fatal m p)
  or_fatal-Leads m (h, true) q = q
  or_fatal-Leads m (h, false) q = send_fatal-IsOrderly h m q

  -- Spending an authorization.
  abbrev Spends :
      LockerController B P → Option UnlockAuthorization → LockerController B P × Bool → Type 0
  Spends c none (d, true) = d.lock ≡ c.lock
  Spends c (some a) (d, true) = (c.lock ≡ locked) × (d.lock ≡ unlocking)
  Spends c o (d, false) = Unit

  spend-Spends :
      (c : LockerController B P) (o : Option UnlockAuthorization) → Spends c o (spend c o)
  unfolding spend begin_unlock
  spend-Spends c none = refl
  spend-Spends c (some a) =
      if-elim (λ (m : Method B P (Unit {0}) ControllerError). Spends c (some a) (unlocked m))
        (not (is_locked c.lock) || not (auth_eq c.auth.authentication AuthState.authenticated)) _ _
        (λ t. tt) (λ f. (is_locked→eq c.lock (ground (arith, f)), refl))

  show-Kept :
      (Q : LockerController B P → Channel NativeEvent → Type 0) (h : Worker B P) (view epoch : ℕ)
      (fallback : Bool) (response : Text) (scripts : List Text)
      → Q h.controller h.native
      → let h' = show h view epoch fallback response scripts in Q h'.controller h'.native
  unfolding show send_view_fallback
  show-Kept Q h view epoch fallback response scripts q =
      if-elim (λ (h : Worker B P). Q h.controller h.native) fallback _ _ (λ t. q) (λ f. q)

  -- A worker whose lock is unlocking, while the host was told what belongs to a lock that is held.
  notify_unlock-Passes :
      (h : Worker B P)
      → h.controller.lock ≡ unlocking
      → h.native.sent ≡ history locked
      → Passes (notify h unlock)
  notify_unlock-Passes h l t =
      notified Passes h unlock
        (λ c e. record {
          standing = λ f. cc;
          told = e ∙ ap (λ (es : List NativeEvent). es ++ unlock ∷ []) t ∙ ap history (sym l);
        })
        (λ c e. record { at = locked; told = e ∙ t })

  delivered-Passes :
      (h : Worker B P) (view epoch : ℕ) (fallback : Bool) (o : Option UnlockAuthorization)
      (r : Result (Text × List Text) ControllerError) (c : LockerController B P)
      → c.lock ≢ failed
      → h.native.sent ≡ history c.lock
      → Spends c o (h.controller, true)
      → Passes (delivered h view epoch fallback (is_some o) r)
  unfolding notify_if
  delivered-Passes h view epoch fallback o (err e) c s t p = record { at = c.lock; told = t }
  delivered-Passes h view epoch fallback none (ok (response, scripts)) c s t p =
      let (l, u) =
        show-Kept (λ d n. (d.lock ≡ c.lock) × (n.sent ≡ history c.lock)) h view epoch fallback
          response scripts (p, t) in
      record { standing = λ f. s (sym l ∙ f); told = u ∙ ap history (sym l) }
  delivered-Passes h view epoch fallback (some a) (ok (response, scripts)) c s t (l, u) =
      let (v, i) =
        show-Kept (λ d n. (d.lock ≡ unlocking) × (n.sent ≡ history locked)) h view epoch fallback
          response scripts (u, t ∙ ap history l) in
      notify_unlock-Passes (show h view epoch fallback response scripts) v i

  spent-Passes :
      (codec : Codec) (h : Worker B P) (view epoch : ℕ) (batch : ControllerBatch)
      (o : Option UnlockAuthorization) (c : LockerController B P) (p : LockerController B P × Bool)
      → c.lock ≢ failed
      → h.native.sent ≡ history c.lock
      → Spends c o p
      → Passes (spent codec h view epoch (batch, o) p)
  spent-Passes codec h view epoch batch o c (d, false) s t q = record { at = c.lock; told = t }
  spent-Passes codec h view epoch batch o c (d, true) s t q =
      delivered-Passes (record h { controller = d }) view epoch batch.trusted_fallback o
        (into_bridge_parts codec batch) c s t q

  taken-Passes :
      (codec : Codec) (h : Worker B P) (c : LockerController B P) (view epoch : ℕ)
      (p : ControllerBatch × Option UnlockAuthorization)
      → c.lock ≢ failed
      → h.native.sent ≡ history c.lock
      → Passes (taken codec h c view epoch p)
  taken-Passes codec h c view epoch (batch, o) s t =
      spent-Passes codec h view epoch batch o c (spend c o) s t (spend-Spends c o)

  pub handled-Passes :
      (codec : Codec) (h : Worker B P) (view epoch : ℕ)
      (m : Method B P ControllerBatch ControllerError)
      → m.0.lock ≢ failed
      → h.native.sent ≡ history m.0.lock
      → Passes (handled codec h view epoch m)
  handled-Passes codec h view epoch (c, err e) s t = record { at = c.lock; told = t }
  handled-Passes codec h view epoch (c, ok batch) s t =
      taken-Passes codec h c view epoch (take_unlock_authorization batch) s t

  pub broadcast_events-Kept :
      (Q : LockerController B P → Channel NativeEvent → Type 0) (codec : Codec) (h : Worker B P)
      (es : List EventEnvelope)
      → Q h.controller h.native
      → let h' = (broadcast_events codec h es).0 in Q h'.controller h'.native
  unfolding broadcast_events
  broadcast_events-Kept Q codec h es q = by_scripts (collect codec.event_dispatch_script es)
    where
      by_scripts :
          (o : Option (List Text)) → let h' = (broadcast_scripts h o).0 in Q h'.controller h'.native
      by_scripts none = q
      by_scripts (some scripts) = q

  broadcasted-Passes :
      (p : Worker B P × Bool) (o : Option UnlockAuthorization) (c : LockerController B P)
      → c.lock ≢ failed
      → p.0.native.sent ≡ history c.lock
      → Spends c o (p.0.controller, true)
      → Passes (broadcasted (is_some o) p)
  unfolding notify_if
  broadcasted-Passes (h, false) o c s t p = record { at = c.lock; told = t }
  broadcasted-Passes (h, true) none c s t p = record {
    standing = λ f. s (sym p ∙ f);
    told = t ∙ ap history (sym p);
  }
  broadcasted-Passes (h, true) (some a) c s t (l, u) = notify_unlock-Passes h u (t ∙ ap history l)

  lifecycle_spent-Passes :
      (codec : Codec) (h : Worker B P) (batch : LockerLifecycleBatch)
      (o : Option UnlockAuthorization) (c : LockerController B P) (p : LockerController B P × Bool)
      → c.lock ≢ failed
      → h.native.sent ≡ history c.lock
      → Spends c o p
      → Passes (lifecycle_spent codec h (batch, o) p)
  lifecycle_spent-Passes codec h batch o c (d, false) s t q = record { at = c.lock; told = t }
  lifecycle_spent-Passes codec h batch o c (d, true) s t q =
      let (i, j) =
        broadcast_events-Kept (λ e n. Spends c o (e, true) × (n.sent ≡ history c.lock)) codec
          (record h { controller = d }) batch.events (q, t) in
      broadcasted-Passes (broadcast_events codec (record h { controller = d }) batch.events) o c s j
        i

  lifecycle_taken-Passes :
      (codec : Codec) (h : Worker B P) (c : LockerController B P)
      (p : LockerLifecycleBatch × Option UnlockAuthorization)
      → c.lock ≢ failed
      → h.native.sent ≡ history c.lock
      → Passes (lifecycle_taken codec h c p)
  lifecycle_taken-Passes codec h c (batch, o) s t =
      lifecycle_spent-Passes codec h batch o c (spend c o) s t (spend-Spends c o)

  pub handle_lifecycle_batch-Passes :
      (codec : Codec) (h : Worker B P) (m : Method B P LockerLifecycleBatch ControllerError)
      → m.0.lock ≢ failed
      → h.native.sent ≡ history m.0.lock
      → Passes (handle_lifecycle_batch codec h m)
  unfolding handle_lifecycle_batch
  handle_lifecycle_batch-Passes codec h (c, err e) s t = record { at = c.lock; told = t }
  handle_lifecycle_batch-Passes codec h (c, ok batch) s t =
      lifecycle_taken-Passes codec h c (take_lifecycle_authorization batch) s t
