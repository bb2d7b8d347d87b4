-- ===== src/Web/Greeter/Rules.antt =====
-- What `GreeterController` of crates/fomalhaut-web/src/controller.rs keeps: a property that no single
-- effect of a request breaks is kept by every request.
use fomalhaut.Common.{
  ℕ, Bool, true, not, ◌||◌, Option, none, some, List, get_elem?, position, Result, ok, err, ◌==◌,
  ◌≡◌, refl, if-elim, arith,
}
use fomalhaut.Core.Types
use fomalhaut.Core.Types.{Text, BackendError}
use fomalhaut.Session.Texts.{text_eq}
use fomalhaut.Web.Protocol.{Event}
use fomalhaut.Web.Messages.{
  LoginState, PowerAction, has_action, FrontendRequest, state_get, auth_begin, auth_respond,
  auth_cancel, session_select, power_request, username,
}
use fomalhaut.Web.Public.{ControllerError, reset_conversation}
use fomalhaut.Web.Client.{LoginBackend, PowerControl, PowerControlError}
use fomalhaut.Web.Client.Rules.{
  Keeps, drain_core_events-Kept, cancel_for_lifecycle-Kept, cancel_after_internal_failure-Kept,
}
use fomalhaut.Web.Batch.{is_fresh}
use fomalhaut.Web.Greeter.{
  GreeterController, Method, TrustedSession, is_selectable, chosen, select_session,
}
use fomalhaut.Web.Greeter.Requests.{
  called, powered, cancel_for_lifecycle, drain, or_cancel, respond_at, fresh, begin, power_after,
  request_power, execute,
}

-- No single effect breaks `R`.
pub record IsStable {B P : Type 0} (k : LoginBackend B) (w : PowerControl P)
    (R : GreeterController B P → Type 0) : Type 0 where
  pub conversation :
      (c : GreeterController B P)
      → Keeps k.conversation (λ a b. R (record c { auth = a; client = b }))
  pub resets : (c : GreeterController B P) → R c → R (record c { auth = reset_conversation c.auth })
  pub logs : (c : GreeterController B P) (l : LoginState) → R c → R (record c { login = l })
  pub responds :
      (c : GreeterController B P) (p : ℕ) (response : Text)
      → R c
      → c.auth.core_prompt ≡ some p
      → R (record c { client = (k.conversation.respond c.client p response).0 })
  pub begins :
      (c : GreeterController B P) (name : Text)
      → R c
      → R (record c { client = (k.begin_login c.client name).0 })
  pub selects :
      (c : GreeterController B P) (id : Text) (n : ℕ)
      → R c
      → position (λ s. text_eq s.summary.id id) c.sessions ≡ some n
      → R (record c { selected_session = some n })
  -- A session is started with the command that is selected, in an authenticated backend.
  pub starts :
      (c : GreeterController B P) (n : ℕ) (s : TrustedSession)
      → R c
      → k.conversation.state c.client ≡ Types.authenticated
      → c.selected_session ≡ some n
      → get_elem? c.sessions n ≡ some s
      → R (record c { client = (k.start_session c.client s.command).0 })
  pub powers :
      (c : GreeterController B P) (action : PowerAction)
      → R c
      → has_action action (w.capabilities c.power).power ≡ true
      → R (record c { power = (w.request c.power action).0 })

module _ {B P : Type 0} (k : LoginBackend B) (w : PowerControl P)
    (R : GreeterController B P → Type 0) (h : IsStable k w R) where
  abbrev Kept : {A E : Type 0} → Method B P A E → Type 0
  Kept m = R m.0

  pub cancel_for_lifecycle-Stable :
      (c : GreeterController B P) → R c → R (cancel_for_lifecycle k c).0
  unfolding cancel_for_lifecycle
  cancel_for_lifecycle-Stable c r =
      cancel_for_lifecycle-Kept k.conversation _ (h.conversation c) c.auth c.client r

  pub drain-Kept : (c : GreeterController B P) → R c → Kept (drain k c)
  drain-Kept c r = drain_core_events-Kept k.conversation _ (h.conversation c) c.auth c.client r

  pub or_cancel-Kept : (m : Method B P (List Event) ControllerError) → Kept m → Kept (or_cancel k m)
  or_cancel-Kept (c, ok es) r = r
  or_cancel-Kept (c, err e) r =
      cancel_after_internal_failure-Kept k.conversation _ (h.conversation c) c.auth c.client r

  called-Kept :
      (c : GreeterController B P) (p : B × Result (Unit {0}) BackendError)
      → R (record c { client = p.0 })
      → Kept (called k c p)
  called-Kept c (b, ok u) r = r
  called-Kept c (b, err e) r = r

  powered-Kept :
      (cancelled : Bool) (c : GreeterController B P) (p : P × Result (Unit {0}) PowerControlError)
      → R (record c { power = p.0 })
      → Kept (powered k cancelled c p)
  powered-Kept cancelled c (p, ok u) r = r
  powered-Kept cancelled c (p, err e) r = r

  power_after-Kept :
      (cancelled : Bool) (action : PowerAction) (m : Method B P (Unit {0}) ControllerError)
      → Kept m
      → has_action action (w.capabilities m.0.power).power ≡ true
      → Kept (power_after k w cancelled action m)
  power_after-Kept cancelled action (c, ok u) r i =
      powered-Kept cancelled c (w.request c.power action) (h.powers c action r i)
  power_after-Kept cancelled action (c, err e) r i = r

  request_power-Kept :
      (c : GreeterController B P) (action : PowerAction) → R c → Kept (request_power k w c action)
  unfolding request_power cancel_for_lifecycle
  request_power-Kept c action r =
      if-elim Kept (not (has_action action (w.capabilities c.power).power)) _ _ (λ t. r)
        (λ f.
          power_after-Kept (k.conversation.needs_cancel c.client) action (cancel_for_lifecycle k c)
            (cancel_for_lifecycle-Stable c r) (ground (arith, f)))

  respond_at-Kept :
      (o : Option ℕ) (p : ℕ) (response : Text) (c : GreeterController B P)
      → c.auth.core_prompt ≡ o
      → R c
      → Kept (respond_at k o p response c)
  respond_at-Kept none p response c i r = r
  respond_at-Kept (some q) p response c i r =
      if-elim Kept (not (q == p)) _ _ (λ t. r)
        (λ f.
          called-Kept c (k.conversation.respond c.client q response) (h.responds c q response r i))

  fresh-Kept : (c : GreeterController B P) → R c → R (fresh k c)
  fresh-Kept c r =
      if-elim R (is_fresh (k.conversation.state c.client)) _ c
        (λ t. h.logs _ LoginState.idle (h.resets c r)) (λ f. r)

  begin-Kept : (o : Option Text) (c : GreeterController B P) → R c → Kept (begin k o c)
  begin-Kept none c r = r
  begin-Kept (some name) c r = called-Kept (fresh k c) (k.begin_login c.client name) (
      if-elim (λ d. R (record d { client = (k.begin_login c.client name).0 }))
        (is_fresh (k.conversation.state c.client)) _ c
        (λ t. h.begins _ name (h.logs _ LoginState.idle (h.resets c r))) (λ f. h.begins c name r))

  chosen-Kept :
      (c : GreeterController B P) (id : Text) (o : Option ℕ)
      → position (λ s. text_eq s.summary.id id) c.sessions ≡ o
      → R c
      → Kept (chosen k c id o)
  chosen-Kept c id none i r = r
  chosen-Kept c id (some n) i r = h.selects c id n r i

  select_session-Kept : (c : GreeterController B P) (id : Text) → R c → Kept (select_session k c id)
  unfolding select_session
  select_session-Kept c id r =
      if-elim Kept
        (k.session_started c.client || not (is_selectable (k.conversation.state c.client))) _ _
        (λ t. r) (λ f. chosen-Kept c id (position (λ s. text_eq s.summary.id id) c.sessions) refl r)

  pub execute-Kept :
      (c : GreeterController B P) (request : FrontendRequest) → R c → Kept (execute k w c request)
  unfolding execute
  execute-Kept c (auth_begin params) r = begin-Kept (username params) c r
  execute-Kept c (auth_respond p response) r =
      respond_at-Kept c.auth.core_prompt p response c refl r
  execute-Kept c auth_cancel r =
      called-Kept c (k.conversation.cancel c.client) ((h.conversation c).cancels c.auth c.client r)
  execute-Kept c (session_select id) r = select_session-Kept c id r
  execute-Kept c (power_request action) r = request_power-Kept c action r
  execute-Kept c state_get r = r
