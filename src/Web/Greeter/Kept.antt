-- ===== src/Web/Greeter/Kept.antt =====
-- What `GreeterController` of crates/fomalhaut-web/src/controller.rs keeps over whole requests.
use fomalhaut.Common.{
  ℕ, true, not, ◌&&◌, Option, none, some, List, [], ◌∷◌, ◌++◌, get_elem?, is_empty, Result, ok, err,
  ◌≡◌, refl, if-elim, arith,
}
use fomalhaut.Core.Types
use fomalhaut.Core.Types.{Text, BackendError}
use fomalhaut.Web.Protocol.{AuthState, Event, EventEnvelope, EventSequence}
use fomalhaut.Web.Messages.{
  LoginState, ProtocolErrorBody, RequestEnvelope, ResponseEnvelope, StateSnapshot,
}
use fomalhaut.Web.Public.{ControllerError, update_state, number_events, envelope_events}
use fomalhaut.Web.Client.{LoginBackend, PowerControl, protocol_error}
use fomalhaut.Web.Batch.{is_ok, details, is_state_get, with_change, response_to}
use fomalhaut.Web.Greeter.{GreeterController, Method, TrustedSession, snapshot}
use fomalhaut.Web.Greeter.Requests.{
  is_authenticated, drain, or_cancel, batch, numbered_events, finish_batch, settled,
  session_settled, launched, launch_command, launch, after_drain, execute, snapshot_batch, handle,
}
use fomalhaut.Web.Greeter.Rules.{IsStable, drain-Kept, or_cancel-Kept, execute-Kept}

is_authenticated→eq : (s : Types.AuthState) → is_authenticated s ≡ true → s ≡ Types.authenticated
is_authenticated→eq s h = ground arith

module _ {B P : Type 0} (k : LoginBackend B) (w : PowerControl P)
    (R : GreeterController B P → Type 0) (h : IsStable k w R)
    (numbers : (c : GreeterController B P) (s : EventSequence)
      → R c
      → R (record c { auth = record c.auth { sequences = s } })) where
  abbrev Kept : {A E : Type 0} → Method B P A E → Type 0
  Kept m = R m.0

  batch-Kept :
      (response : ResponseEnvelope) (m : Method B P (List EventEnvelope) ControllerError)
      → Kept m
      → Kept (batch k response m)
  batch-Kept response (c, ok es) r = r
  batch-Kept response (c, err e) r = r

  finish_batch-Kept :
      (c : GreeterController B P) (id : ℕ) (previous : AuthState)
      (operation : Result (List Event) ProtocolErrorBody) (events : List Event)
      → R c
      → Kept (finish_batch k c id previous operation events)
  unfolding finish_batch envelope_events
  finish_batch-Kept c id previous operation events r =
      batch-Kept (response_to id operation)
        (numbered_events k c
          (envelope_events c.auth (with_change previous c.auth.authentication events)))
        (numbers c
          (number_events c.auth.sequences (with_change previous c.auth.authentication events)).0 r)

  settled-Kept :
      (id : ℕ) (previous : AuthState) (operation : Result (List Event) ProtocolErrorBody)
      (events : List Event) (c : GreeterController B P)
      → R c
      → Kept (settled k id previous operation events c)
  settled-Kept id previous operation events c r =
      finish_batch-Kept (record c { auth = update_state c.auth (k.conversation.state c.client) }) id
        previous operation events ((h.conversation c).updates c.auth c.client r)

  session_settled-Kept :
      (id : ℕ) (previous : AuthState) (operation : Result (List Event) ProtocolErrorBody)
      (events : List Event) (m : Method B P (List Event) ControllerError)
      → Kept m
      → Kept (session_settled k id previous operation events m)
  session_settled-Kept id previous operation events (c, ok es) r =
      settled-Kept id previous operation (events ++ es) c r
  session_settled-Kept id previous operation events (c, err e) r = r

  launched-Kept :
      (id : ℕ) (previous : AuthState) (events : List Event) (c : GreeterController B P)
      (p : B × Result (Unit {0}) BackendError)
      → R (record c { client = p.0 })
      → Kept (launched k id previous events c p)
  launched-Kept id previous events c (b, ok u) r =
      let d = record c { client = b; login = LoginState.started } in
      session_settled-Kept id previous (ok []) (events ++ Event.session_started ∷ [])
        (or_cancel k (drain k d))
        (or_cancel-Kept k w R h (drain k d)
          (drain-Kept k w R h d (h.logs (record c { client = b }) LoginState.started r)))
  launched-Kept id previous events c (b, err e) r =
      let d = record c { client = b; login = LoginState.failed } in
      session_settled-Kept id previous (err (protocol_error e)) events (or_cancel k (drain k d)) (
        or_cancel-Kept k w R h (drain k d)
          (drain-Kept k w R h d (h.logs (record c { client = b }) LoginState.failed r)))

  launch_command-Kept :
      (id : ℕ) (previous : AuthState) (events : List Event) (c : GreeterController B P) (n : ℕ)
      (o : Option TrustedSession)
      → R c
      → k.conversation.state c.client ≡ Types.authenticated
      → c.selected_session ≡ some n
      → get_elem? c.sessions n ≡ o
      → Kept (launch_command k id previous events c o)
  launch_command-Kept id previous events c n none r a i j = r
  launch_command-Kept id previous events c n (some s) r a i j =
      launched-Kept id previous events (record c { login = LoginState.starting_session })
        (k.start_session c.client s.command)
        (h.starts (record c { login = LoginState.starting_session }) n s
          (h.logs c LoginState.starting_session r) a i j)

  launch-Kept :
      (id : ℕ) (previous : AuthState) (events : List Event) (c : GreeterController B P)
      (o : Option ℕ)
      → R c
      → k.conversation.state c.client ≡ Types.authenticated
      → c.selected_session ≡ o
      → Kept (launch k id previous events c o)
  launch-Kept id previous events c none r a i = r
  launch-Kept id previous events c (some n) r a i =
      launch_command-Kept id previous events c n (get_elem? c.sessions n) r a i refl

  after_drain-Kept :
      (id : ℕ) (previous : AuthState) (operation : Result (List Event) ProtocolErrorBody)
      (m : Method B P (List Event) ControllerError)
      → Kept m
      → Kept (after_drain k id previous operation m)
  unfolding after_drain
  after_drain-Kept id previous operation (c, err e) r = r
  after_drain-Kept id previous operation (c, ok es) r =
      if-elim Kept
        (is_ok operation
          && is_authenticated (k.conversation.state c.client)
          && not (is_empty c.sessions))
        _ _
        (λ t.
          launch-Kept id previous (details operation ++ es) c c.selected_session r
            (is_authenticated→eq _ (ground (arith, t))) refl)
        (λ f. settled-Kept id previous operation (details operation ++ es) c r)

  snapshot_batch-Kept :
      (id : ℕ) (c : GreeterController B P) (s : Result StateSnapshot ControllerError)
      → R c
      → Kept (snapshot_batch k w id c s)
  snapshot_batch-Kept id c (ok s) r = r
  snapshot_batch-Kept id c (err e) r = r

  pub handle-Kept : (c : GreeterController B P) (r : RequestEnvelope) → R c → R (handle k w c r).0
  unfolding handle
  handle-Kept c r i =
      if-elim Kept (is_state_get r.request) _ _ (λ t. snapshot_batch-Kept r.id c (snapshot k w c) i)
        (λ f.
          after_drain-Kept r.id c.auth.authentication (execute k w c r.request).1
            (or_cancel k (drain k (execute k w c r.request).0))
            (or_cancel-Kept k w R h (drain k (execute k w c r.request).0) (
              drain-Kept k w R h (execute k w c r.request).0 (execute-Kept k w R h c r.request i))))
