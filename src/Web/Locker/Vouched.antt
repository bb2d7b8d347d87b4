-- ===== src/Web/Locker/Vouched.antt =====
-- The locker as a whole: `LockerController` (crates/fomalhaut-web/src/controller.rs) over
-- `PamReauthBackend` (crates/fomalhaut-pam/src/backend.rs).
use mathlib.Core.List.{Memᴰ}
use fomalhaut.Common.{
  ℕ, Bool, true, not, Option, none, some, List, Result, ok, err, ◌==◌, ◌≡◌, ◌≢◌, refl, sym, subst,
  ◌∙◌, if-elim, arith,
}
use fomalhaut.Core.Types
use fomalhaut.Core.Types.{Text, BackendError}
use fomalhaut.Core.Conversation
use fomalhaut.Pam.Transport.{WorkerTransport}
use fomalhaut.Pam.Backend.{
  PamReauthBackend, begin_transaction, answer_prompt, cancel_transaction, fail_worker,
}
use fomalhaut.Pam.Backend.Invariant.{Settles}
use fomalhaut.Pam.Backend.Verdict.{vouch}
use fomalhaut.Pam.Backend.Vouched.{
  next_worker, answer_prompt-IsVouched, begin_transaction-IsVouched,
}
use fomalhaut.Pam.Backend.Reauth.{
  SoundBackend, settled, next_event-state, pam_conversation, pam_reauth,
}
use fomalhaut.Web.Protocol.{Event, AuthState, EventEnvelope}
use fomalhaut.Web.Messages.{
  PowerAction, has_action, ProtocolErrorBody, FrontendRequest, state_get, auth_begin, auth_respond,
  auth_cancel, session_select, power_request, is_locker, RequestEnvelope, ResponseEnvelope,
  StateSnapshot,
}
use fomalhaut.Web.Public.{update_state, envelope_events, ControllerError}
use fomalhaut.Web.Client.{cancel_for_lifecycle, PowerControl, PowerControlError}
use fomalhaut.Web.Client.Rules.{
  cancel_after_internal_failure-Kept, Keeps, drain_core_events-Kept, cancel_for_lifecycle-Kept,
}
use fomalhaut.Web.Batch.{response_to, is_state_get, ControllerBatch}
use fomalhaut.Web.Locker.{LockerController, Method, is_locked, on_auth, publish}
use fomalhaut.Web.Locker.Requests
use fomalhaut.Web.Locker.Requests.{
  or_cancel, drain, batch, snapshot_batch, snapshot, called, fresh, respond_at, dispatch, execute,
  handle, powered, power_after, request_power,
}
use fomalhaut.Web.Locker.Authorized.{handle-IsAuthorized}

abbrev IsFree : PamReauthBackend → Type 0
IsFree b = b.conversation.state ≢ Types.authenticated

-- A worker of the backend vouched for the user and exited cleanly: the one that stood ready, or the
-- one that was spawned for the transaction.
pub record IsBacked (b : PamReauthBackend) : Type 0 where
  pub worker : WorkerTransport
  pub hired : next_worker b ≡ some worker
  pub said : Memᴰ vouch worker.messages
  pub exited : worker.exit ≡ ok tt

settled-eq :
    (o : Option (PamReauthBackend × Result (Unit {0}) BackendError)) (h : Settles o)
    → o ≡ some ((settled o h).0.backend, (settled o h).1)
settled-eq (some (b, r)) h = refl
settled-eq none h = elim h [ ]

cancel_transaction-IsFree : (b : PamReauthBackend) → IsFree b → IsFree (cancel_transaction b).0
unfolding cancel_transaction
cancel_transaction-IsFree b h = ground arith

cancel_transaction-authenticated :
    (b : PamReauthBackend)
    → (cancel_transaction b).0.conversation.state ≡ Types.authenticated
    → b.conversation.state ≡ Types.authenticated
unfolding cancel_transaction
cancel_transaction-authenticated b e = ground arith

unmanned_answer :
    (b : PamReauthBackend) (p : ℕ) (response : Text) {b' : PamReauthBackend}
    {r : Result (Unit {0}) BackendError}
    → b.worker ≡ none
    → IsFree b
    → answer_prompt b p response ≡ some (b', r)
    → IsFree b'
unfolding answer_prompt fail_worker
unmanned_answer b p response e f i = ground arith

unhired_begin :
    (b : PamReauthBackend) {b' : PamReauthBackend} {r : Result (Unit {0}) BackendError}
    → next_worker b ≡ none
    → IsFree b
    → begin_transaction b ≡ some (b', r)
    → IsFree b'
unfolding begin_transaction
unhired_begin b e f i = ground arith

answer_prompt-IsBacked :
    (s : SoundBackend) (p : ℕ) (response : Text) (o : Option WorkerTransport)
    → s.backend.worker ≡ o
    → IsFree s.backend
    → (pam_conversation.respond s p response).0.backend.conversation.state ≡ Types.authenticated
    → IsBacked s.backend
unfolding pam_conversation
answer_prompt-IsBacked s p response none e f a =
    absurd (
      unmanned_answer s.backend p response e f (settled-eq (answer_prompt s.backend p response) _)
        a)
answer_prompt-IsBacked s p response (some w) e f a =
    let v =
      answer_prompt-IsVouched s.backend p response w e f
        (settled-eq (answer_prompt s.backend p response) _) a in
    record { worker = w; hired = rw e; said = v.said; exited = v.exited }

begin_transaction-IsBacked :
    (s : SoundBackend) (o : Option WorkerTransport)
    → next_worker s.backend ≡ o
    → IsFree s.backend
    → (pam_reauth.begin_reauth s).0.backend.conversation.state ≡ Types.authenticated
    → IsBacked s.backend
unfolding pam_reauth
begin_transaction-IsBacked s none e f a =
    absurd (unhired_begin s.backend e f (settled-eq (begin_transaction s.backend) _) a)
begin_transaction-IsBacked s (some w) e f a =
    let v =
      begin_transaction-IsVouched s.backend w e f (settled-eq (begin_transaction s.backend) _) a in
    record { worker = w; hired = e; said = v.said; exited = v.exited }

-- Neither an event that is taken nor a cancellation authenticates.
IsFree-Keeps : Keeps pam_conversation (λ a s. IsFree s.backend)
unfolding Conversation.next_event pam_conversation
IsFree-Keeps = record {
  consumes = λ a s f.
      subst (λ (t : Types.AuthState). t ≢ Types.authenticated)
        (sym (next_event-state s.backend.conversation s.backend.conversation.events)) f;
  applies = λ a s e f. f;
  closes = λ a s f. f;
  updates = λ a s f. f;
  cancels = λ a s f. cancel_transaction-IsFree s.backend f;
}

module _ {P : Type 0} (w : PowerControl P) where
  abbrev Controller : Type 0
  Controller = LockerController SoundBackend P

  -- What is authenticated behind a method stands on a worker of the backend before it.
  abbrev Backs : {A E : Type 0} → PamReauthBackend → Method SoundBackend P A E → Type 0
  Backs b m = m.0.client.backend.conversation.state ≡ Types.authenticated → IsBacked b

  called-Backs :
      (b : PamReauthBackend) (c : Controller) (p : SoundBackend × Result (Unit {0}) BackendError)
      → (p.0.backend.conversation.state ≡ Types.authenticated → IsBacked b)
      → Backs b (called pam_reauth w c p)
  called-Backs b c (s, ok u) h = h
  called-Backs b c (s, err e) h = h

  powered-Backs :
      (b : PamReauthBackend) (cancelled : Bool) (c : Controller)
      (p : P × Result (Unit {0}) PowerControlError)
      → IsFree c.client.backend
      → Backs b (powered pam_reauth w cancelled c p)
  powered-Backs b cancelled c (p, ok u) f a = absurd (f a)
  powered-Backs b cancelled c (p, err e) f a = absurd (f a)

  power_after-Backs :
      (b : PamReauthBackend) (cancelled : Bool) (action : PowerAction)
      (m : Method SoundBackend P (Unit {0}) ControllerError)
      → IsFree m.0.client.backend
      → Backs b (power_after pam_reauth w cancelled action m)
  power_after-Backs b cancelled action (c, ok u) f a =
      powered-Backs b cancelled c (w.request c.power action) f a
  power_after-Backs b cancelled action (c, err e) f a = absurd (f a)

  request_power-Backs :
      (c : Controller) (action : PowerAction)
      → IsFree c.client.backend
      → Backs c.client.backend (request_power pam_reauth w c action)
  unfolding request_power pam_reauth pam_conversation
  request_power-Backs c action f =
      if-elim
        (λ (m : Method SoundBackend P (List Event) ProtocolErrorBody). Backs c.client.backend m)
        (not (has_action action (w.capabilities c.power).power)) _ _ (λ t a. absurd (f a))
        (λ t.
          power_after-Backs c.client.backend (pam_conversation.needs_cancel c.client) action
            (on_auth c (cancel_for_lifecycle pam_conversation c.auth c.client))
            (cancel_for_lifecycle-Kept pam_conversation _ IsFree-Keeps c.auth c.client f))

  respond_at-Backs :
      (o : Option ℕ) (p : ℕ) (response : Text) (c : Controller)
      → IsFree c.client.backend
      → Backs c.client.backend (respond_at pam_reauth w o p response c)
  unfolding pam_reauth
  respond_at-Backs none p response c f a = absurd (f a)
  respond_at-Backs (some q) p response c f a =
      if-elim
        (λ (m : Method SoundBackend P (List Event) ProtocolErrorBody). Backs c.client.backend m)
        (not (q == p)) _ _ (λ t a. absurd (f a))
        (λ t.
          called-Backs c.client.backend c (pam_conversation.respond c.client q response)
            (answer_prompt-IsBacked c.client q response c.client.backend.worker refl f))
        a

  dispatch-Backs :
      (request : FrontendRequest) (c : Controller)
      → IsFree c.client.backend
      → Backs c.client.backend (dispatch pam_reauth w request c)
  unfolding pam_reauth pam_conversation
  dispatch-Backs (auth_begin params) c f a =
      if-elim
        (λ (m : Method SoundBackend P (List Event) ProtocolErrorBody). Backs c.client.backend m)
        (not (is_locker params)) _ _ (λ t a. absurd (f a))
        (λ t.
          called-Backs c.client.backend (fresh pam_reauth w c) (pam_reauth.begin_reauth c.client)
            (begin_transaction-IsBacked c.client (next_worker c.client.backend) refl f))
        a
  dispatch-Backs (auth_respond p response) c f a =
      respond_at-Backs c.auth.core_prompt p response c f a
  dispatch-Backs auth_cancel c f a =
      called-Backs c.client.backend c (pam_conversation.cancel c.client)
        (λ a. absurd (cancel_transaction-IsFree c.client.backend f a)) a
  dispatch-Backs (power_request action) c f a = request_power-Backs c action f a
  dispatch-Backs (session_select id) c f a = absurd (f a)
  dispatch-Backs state_get c f a = absurd (f a)

  execute-Backs :
      (c : Controller) (request : FrontendRequest)
      → IsFree c.client.backend
      → Backs c.client.backend (execute pam_reauth w c request)
  unfolding execute
  execute-Backs c request f =
      if-elim
        (λ (m : Method SoundBackend P (List Event) ProtocolErrorBody). Backs c.client.backend m)
        (not (is_locked c.lock)) _ _ (λ t a. absurd (f a)) (λ t. dispatch-Backs request c f)

  -- Nor does what follows in a request.
  IsBacked-Keeps :
      (b : PamReauthBackend)
      → Keeps pam_conversation
          (λ a s. s.backend.conversation.state ≡ Types.authenticated → IsBacked b)
  unfolding Conversation.next_event pam_conversation
  IsBacked-Keeps b = record {
    consumes = λ a s h e.
        h (sym (next_event-state s.backend.conversation s.backend.conversation.events) ∙ e);
    applies = λ a s e h. h;
    closes = λ a s h. h;
    updates = λ a s h. h;
    cancels = λ a s h e. h (cancel_transaction-authenticated s.backend e);
  }

  or_cancel-Backs :
      (b : PamReauthBackend) (m : Method SoundBackend P (List Event) ControllerError)
      → Backs b m
      → Backs b (or_cancel pam_reauth m)
  unfolding pam_reauth
  or_cancel-Backs b (c, ok es) h = h
  or_cancel-Backs b (c, err e) h =
      cancel_after_internal_failure-Kept pam_conversation _ (IsBacked-Keeps b) c.auth c.client h

  batch-Backs :
      (b : PamReauthBackend) (response : ResponseEnvelope) (unlock fallback : Bool)
      (m : Method SoundBackend P (List EventEnvelope) ControllerError)
      → Backs b m
      → Backs b (batch pam_reauth w response unlock fallback m)
  batch-Backs b response unlock fallback (c, ok es) h = h
  batch-Backs b response unlock fallback (c, err e) h = h

  settled-Backs :
      (b : PamReauthBackend) (id : ℕ) (previous : AuthState) (before : Types.AuthState)
      (operation : Result (List Event) ProtocolErrorBody)
      (m : Method SoundBackend P (List Event) ControllerError)
      → Backs b m
      → Backs b (Requests.settled pam_reauth w id previous before operation m)
  unfolding update_state envelope_events
  settled-Backs b id previous before operation (c, ok es) h =
      batch-Backs b (response_to id operation) _ _
        (publish (record c { auth = update_state c.auth (pam_reauth.conversation.state c.client) })
          _)
        h
  settled-Backs b id previous before operation (c, err e) h = h

  snapshot_batch-Backs :
      (id : ℕ) (c : Controller) (s : Result StateSnapshot ControllerError)
      → IsFree c.client.backend
      → Backs c.client.backend (snapshot_batch pam_reauth w id c s)
  snapshot_batch-Backs id c (ok s) f a = absurd (f a)
  snapshot_batch-Backs id c (err e) f a = absurd (f a)

  handle-Backs :
      (c : Controller) (r : RequestEnvelope)
      → IsFree c.client.backend
      → Backs c.client.backend (handle pam_reauth w c r)
  unfolding handle pam_reauth
  handle-Backs c r f =
      if-elim
        (λ (m : Method SoundBackend P ControllerBatch ControllerError). Backs c.client.backend m)
        (is_state_get r.request) _ _ (λ t. snapshot_batch-Backs r.id c (snapshot pam_reauth w c) f)
        (λ t.
          let m = execute pam_reauth w c r.request in
          settled-Backs c.client.backend r.id c.auth.authentication
            (pam_reauth.conversation.state c.client) m.1
            (or_cancel pam_reauth (drain pam_reauth m.0))
            (or_cancel-Backs c.client.backend (drain pam_reauth m.0) (
              drain_core_events-Kept pam_conversation _ (IsBacked-Keeps c.client.backend) m.0.auth
                m.0.client (execute-Backs c r.request f))))

  -- In a locker over the PAM backend, a request that was taken while the backend was not authenticated
  -- authorizes the unlock only if a worker of that backend, the one that stood ready or the one that
  -- was spawned for the transaction, said that PAM authenticated the user and then exited cleanly.
  pub handle-IsBacked :
      (c : Controller) (r : RequestEnvelope) (b : ControllerBatch)
      → c.client.backend.conversation.state ≢ Types.authenticated
      → (handle pam_reauth w c r).1 ≡ ok b
      → b.unlock_authorized ≡ true
      → IsBacked c.client.backend
  unfolding pam_reauth pam_conversation
  handle-IsBacked c r b f h u =
      handle-Backs c r f (handle-IsAuthorized pam_reauth w c r b h u).1.backend
