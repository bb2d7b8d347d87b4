-- ===== src/Web/Locker/Authorized.antt =====
-- When a request to `LockerController` (crates/fomalhaut-web/src/controller.rs) authorizes the unlock.
use fomalhaut.Common.{
  ℕ, Bool, true, false, not, ◌&&◌, List, ◌++◌, Result, ok, err, ok-injective, ◌≡◌, ◌≢◌, refl, sym,
  subst, ap, if-elim, ◌∙◌, arith,
}
use fomalhaut.Core.Types
use fomalhaut.Web.Protocol.{AuthState, Event, EventEnvelope}
use fomalhaut.Web.Messages.{
  locked, ProtocolErrorBody, FrontendRequest, RequestEnvelope, ResponseEnvelope, ResponseResult,
  StateSnapshot,
}
use fomalhaut.Web.Public.{ControllerError, map_state, update_state, envelope_events}
use fomalhaut.Web.Client.{ReauthBackend, PowerControl}
use fomalhaut.Web.Batch.{
  auth_eq→eq, ControllerBatch, auth_eq, is_ok, is_state_get, response_to, with_change, details,
}
use fomalhaut.Web.Locker.{is_locked→eq, LockerController, Method, is_locked, publish}
use fomalhaut.Web.Locker.Requests.{
  batch, settled, execute, snapshot_batch, snapshot, handle, drain, or_cancel,
}

map_state-authenticated :
    (s : Types.AuthState) → map_state s ≡ AuthState.authenticated → s ≡ Types.authenticated
unfolding map_state
map_state-authenticated s h = ground arith

auth_eq_complete :
    (s : AuthState) → s ≡ AuthState.authenticated → auth_eq s AuthState.authenticated ≡ true
unfolding auth_eq
auth_eq_complete s h = ground arith

response_to-ok :
    (id : ℕ) (operation : Result (List Event) ProtocolErrorBody)
    → is_ok operation ≡ true
    → response_to id operation ≡ ResponseEnvelope.success id ResponseResult.empty
unfolding response_to
response_to-ok id (ok es) h = refl
response_to-ok id (err e) h = cc

and3 : (a b c : Bool) → a && b && c ≡ true → (a ≡ true) × (b ≡ true) × (c ≡ true)
and3 a b c h = ground arith

module _ {B P : Type 0} (k : ReauthBackend B) (w : PowerControl P) where
  -- What an authorization stands on.
  pub record IsAuthorized (id : ℕ) (previous : AuthState) (c : LockerController B P)
      (b : ControllerBatch) : Type 0 where
    pub was_not : previous ≢ AuthState.authenticated
    pub backend : k.conversation.state c.client ≡ Types.authenticated
    pub shown : c.auth.authentication ≡ AuthState.authenticated
    pub response : b.response ≡ ResponseEnvelope.success id ResponseResult.empty

  batch-unlock :
      (response : ResponseEnvelope) (unlock fallback : Bool)
      (m : Method B P (List EventEnvelope) ControllerError) (b : ControllerBatch)
      → (batch k w response unlock fallback m).1 ≡ ok b
      → (b.unlock_authorized ≡ unlock) × (b.response ≡ response)
  batch-unlock response unlock fallback (c, ok es) b h = (
    ap (λ (b : ControllerBatch). b.unlock_authorized) (sym (ok-injective h)),
    ap (λ (b : ControllerBatch). b.response) (sym (ok-injective h)),
  )
  batch-unlock response unlock fallback (c, err e) b h = cc

  batch-state :
      (response : ResponseEnvelope) (unlock fallback : Bool)
      (m : Method B P (List EventEnvelope) ControllerError)
      → m.0 ≡ (batch k w response unlock fallback m).0
  batch-state response unlock fallback (c, ok es) = refl
  batch-state response unlock fallback (c, err e) = refl

  settled-IsAuthorized :
      (id : ℕ) (previous : AuthState) (before : Types.AuthState)
      (operation : Result (List Event) ProtocolErrorBody)
      (m : Method B P (List Event) ControllerError) (b : ControllerBatch)
      → (settled k w id previous before operation m).1 ≡ ok b
      → b.unlock_authorized ≡ true
      → (is_ok operation ≡ true)
        × IsAuthorized id previous (settled k w id previous before operation m).0 b
  unfolding update_state envelope_events
  settled-IsAuthorized id previous before operation (c, err e) b h u = cc
  settled-IsAuthorized id previous before operation (c, ok es) b h u =
      let now = map_state (k.conversation.state c.client) in
      let unlock =
        is_ok operation
        && not (auth_eq previous AuthState.authenticated)
        && auth_eq now AuthState.authenticated in
      let (v, i) =
        batch-unlock (response_to id operation) unlock _
          (publish (record c { auth = update_state c.auth (k.conversation.state c.client) })
            (with_change previous now (details operation ++ es)))
          b h in
      let same = batch-state (response_to id operation) unlock _ (
        publish (record c { auth = update_state c.auth (k.conversation.state c.client) })
          (with_change previous now (details operation ++ es))) in
      let (succeeded, changed, shown) = and3 _ _ _ (sym v ∙ u) in
      (
        succeeded,
        subst (λ d. IsAuthorized id previous d b) same
            (record {
              was_not = λ p. ground (arith, changed, auth_eq_complete previous p);
              backend = map_state-authenticated _ (auth_eq→eq now AuthState.authenticated shown);
              shown = auth_eq→eq now AuthState.authenticated shown;
              response = i ∙ response_to-ok id operation succeeded;
            }),
      )

  execute-IsLocked :
      (c : LockerController B P) (request : FrontendRequest)
      → is_ok (execute k w c request).1 ≡ true
      → c.lock ≡ locked
  unfolding execute
  execute-IsLocked c request =
      if-elim
        (λ (m : Method B P (List Event) ProtocolErrorBody). is_ok m.1 ≡ true → c.lock ≡ locked)
        (not (is_locked c.lock)) _ _ (λ t h. cc) (λ f h. is_locked→eq c.lock (ground (arith, f)))

  snapshot_batch-unlock :
      (id : ℕ) (c : LockerController B P) (s : Result StateSnapshot ControllerError)
      (b : ControllerBatch)
      → (snapshot_batch k w id c s).1 ≡ ok b
      → b.unlock_authorized ≡ false
  snapshot_batch-unlock id c (ok s) b h =
      ap (λ (b : ControllerBatch). b.unlock_authorized) (sym (ok-injective h))
  snapshot_batch-unlock id c (err e) b h = cc

  -- A request authorizes the unlock only if the lock is held, the public state was not authenticated
  -- before, the backend stands authenticated when the request has been handled, the public state
  -- shows that, and the response to the request is a success.
  pub handle-IsAuthorized :
      (c : LockerController B P) (r : RequestEnvelope) (b : ControllerBatch)
      → (handle k w c r).1 ≡ ok b
      → b.unlock_authorized ≡ true
      → (c.lock ≡ locked) × IsAuthorized r.id c.auth.authentication (handle k w c r).0 b
  unfolding handle
  handle-IsAuthorized c r b =
      if-elim
        (λ (m : Method B P ControllerBatch ControllerError).
          m.1 ≡ ok b
          → b.unlock_authorized ≡ true
          → (c.lock ≡ locked) × IsAuthorized r.id c.auth.authentication m.0 b)
        (is_state_get r.request) _ _
        (λ t h u. absurd (ground (arith, u, snapshot_batch-unlock r.id c (snapshot k w c) b h)))
        (λ f h u.
          let (succeeded, authorized) =
            settled-IsAuthorized r.id c.auth.authentication (k.conversation.state c.client)
              (execute k w c r.request).1 (or_cancel k (drain k (execute k w c r.request).0)) b h
              u in
          (execute-IsLocked c r.request succeeded, authorized))
