-- ===== src/Web/Locker/Rules.antt =====
-- What `LockerController` of crates/fomalhaut-web/src/controller.rs keeps: a property that no single
-- effect of a request breaks is kept by every request, and around a sleep of the system.
use fomalhaut.Common.{
  ℕ, Bool, true, not, Option, none, some, List, Result, ok, err, ◌==◌, ◌≡◌, refl, if-elim, arith,
}
use fomalhaut.Core.Types.{Text, BackendError}
use fomalhaut.Web.Protocol.{Event}
use fomalhaut.Web.Messages.{
  PowerAction, has_action, FrontendRequest, state_get, auth_begin, auth_respond, auth_cancel,
  session_select, power_request, is_locker,
}
use fomalhaut.Web.Public.{ControllerError, reset_conversation}
use fomalhaut.Web.Client.{ReauthBackend, PowerControl, PowerControlError}
use fomalhaut.Web.Client.Rules.{
  Keeps, drain_core_events-Kept, cancel_for_lifecycle-Kept, cancel_after_internal_failure-Kept,
}
use fomalhaut.Web.Batch.{is_fresh}
use fomalhaut.Web.Locker.{LockerController, Method, is_locked}
use fomalhaut.Web.Locker.Requests.{
  drain, or_cancel, called, powered, power_after, request_power, respond_at, fresh, dispatch,
  execute,
}
use fomalhaut.Web.Locker.Sleep.{cancel_for_lifecycle}

-- No single effect breaks `R`.
pub record IsStable {B P : Type 0} (k : ReauthBackend B) (w : PowerControl P)
    (R : LockerController B P → Type 0) : Type 0 where
  pub conversation :
      (c : LockerController B P)
      → Keeps k.conversation (λ a b. R (record c { auth = a; client = b }))
  pub resets : (c : LockerController B P) → R c → R (record c { auth = reset_conversation c.auth })
  pub responds :
      (c : LockerController B P) (p : ℕ) (response : Text)
      → R c
      → c.auth.core_prompt ≡ some p
      → R (record c { client = (k.conversation.respond c.client p response).0 })
  pub begins :
      (c : LockerController B P) → R c → R (record c { client = (k.begin_reauth c.client).0 })
  pub powers :
      (c : LockerController B P) (action : PowerAction)
      → R c
      → has_action action (w.capabilities c.power).power ≡ true
      → R (record c { power = (w.request c.power action).0 })

module _ {B P : Type 0} (k : ReauthBackend B) (w : PowerControl P)
    (R : LockerController B P → Type 0) (h : IsStable k w R) where
  abbrev Kept : {A E : Type 0} → Method B P A E → Type 0
  Kept m = R m.0

  pub cancel_for_lifecycle-Stable :
      (c : LockerController B P) → R c → R (cancel_for_lifecycle k c).0
  unfolding cancel_for_lifecycle
  cancel_for_lifecycle-Stable c r =
      cancel_for_lifecycle-Kept k.conversation _ (h.conversation c) c.auth c.client r

  pub drain-Kept : (c : LockerController B P) → R c → Kept (drain k c)
  drain-Kept c r = drain_core_events-Kept k.conversation _ (h.conversation c) c.auth c.client r

  pub or_cancel-Kept : (m : Method B P (List Event) ControllerError) → Kept m → Kept (or_cancel k m)
  or_cancel-Kept (c, ok es) r = r
  or_cancel-Kept (c, err e) r =
      cancel_after_internal_failure-Kept k.conversation _ (h.conversation c) c.auth c.client r

  called-Kept :
      (c : LockerController B P) (p : B × Result (Unit {0}) BackendError)
      → R (record c { client = p.0 })
      → Kept (called k w c p)
  called-Kept c (b, ok u) r = r
  called-Kept c (b, err e) r = r

  powered-Kept :
      (cancelled : Bool) (c : LockerController B P) (p : P × Result (Unit {0}) PowerControlError)
      → R (record c { power = p.0 })
      → Kept (powered k w cancelled c p)
  powered-Kept cancelled c (p, ok u) r = r
  powered-Kept cancelled c (p, err e) r = r

  power_after-Kept :
      (cancelled : Bool) (action : PowerAction) (m : Method B P (Unit {0}) ControllerError)
      → Kept m
      → has_action action (w.capabilities m.0.power).power ≡ true
      → Kept (power_after k w cancelled action m)
  power_after-Kept cancelled action (c, ok u) r i =
      powered-Kept cancelled c (w.request c.power action) (h.powers c action r i)
  power_after-Kept cancelled action (c, err e) r i = r

  request_power-Kept :
      (c : LockerController B P) (action : PowerAction) → R c → Kept (request_power k w c action)
  unfolding request_power
  request_power-Kept c action r =
      if-elim Kept (not (has_action action (w.capabilities c.power).power)) _ _ (λ t. r)
        (λ f.
          power_after-Kept (k.conversation.needs_cancel c.client) action _
            (cancel_for_lifecycle-Kept k.conversation _ (h.conversation c) c.auth c.client r)
            (ground (arith, f)))

  respond_at-Kept :
      (o : Option ℕ) (p : ℕ) (response : Text) (c : LockerController B P)
      → c.auth.core_prompt ≡ o
      → R c
      → Kept (respond_at k w o p response c)
  respond_at-Kept none p response c i r = r
  respond_at-Kept (some q) p response c i r =
      if-elim Kept (not (q == p)) _ _ (λ t. r)
        (λ f.
          called-Kept c (k.conversation.respond c.client q response) (h.responds c q response r i))

  fresh-Kept : (c : LockerController B P) → R c → R (fresh k w c)
  fresh-Kept c r =
      if-elim R (is_fresh (k.conversation.state c.client)) _ c (λ t. h.resets c r) (λ f. r)

  dispatch-Kept :
      (request : FrontendRequest) (c : LockerController B P) → R c → Kept (dispatch k w request c)
  dispatch-Kept (auth_begin params) c r =
      if-elim Kept (not (is_locker params)) _ _ (λ t. r)
        (λ f. called-Kept (fresh k w c) (k.begin_reauth c.client) (
          if-elim (λ d. R (record d { client = (k.begin_reauth c.client).0 }))
            (is_fresh (k.conversation.state c.client)) _ c (λ t. h.begins _ (h.resets c r))
            (λ f. h.begins c r)))
  dispatch-Kept (auth_respond p response) c r =
      respond_at-Kept c.auth.core_prompt p response c refl r
  dispatch-Kept auth_cancel c r =
      called-Kept c (k.conversation.cancel c.client) ((h.conversation c).cancels c.auth c.client r)
  dispatch-Kept (power_request action) c r = request_power-Kept c action r
  dispatch-Kept (session_select id) c r = r
  dispatch-Kept state_get c r = r

  pub execute-Kept :
      (c : LockerController B P) (request : FrontendRequest) → R c → Kept (execute k w c request)
  unfolding execute
  execute-Kept c request r =
      if-elim Kept (not (is_locked c.lock)) _ _ (λ t. r) (λ f. dispatch-Kept request c r)
