-- ===== src/Web/Batch.antt =====
-- crates/fomalhaut-web/src/controller.rs: what a controller gives back for one request.
use fomalhaut.Common.{
  ◌≡◌, arith, ℕ, Bool, true, false, not, Option, none, some, List, [], ◌∷◌, Result, ok, err,
  if◌then◌else◌,
}
use fomalhaut.Core.Types
use fomalhaut.Web.Protocol.{AuthState, Event, EventEnvelope}
use fomalhaut.Web.Messages.{
  FrontendRequest, state_get, ResponseEnvelope, ResponseResult, ProtocolErrorBody,
}

pub record ControllerBatch : Type 0 where
  pub response : ResponseEnvelope
  pub events : List EventEnvelope
  pub session_started : Bool
  pub unlock_authorized : Bool
  pub trusted_fallback : Bool

pub record LockerLifecycleBatch : Type 0 where
  pub events : List EventEnvelope
  pub unlock_authorized : Bool

-- The one value of a private type.
pub data UnlockAuthorization : Type 0 where
  authorization : UnlockAuthorization

unfoldable pub take_unlock_authorization :
    ControllerBatch → ControllerBatch × Option UnlockAuthorization
take_unlock_authorization b =
    if not b.unlock_authorized
    then (b, none)
    else (record b { unlock_authorized = false }, some authorization)

unfoldable pub take_lifecycle_authorization :
    LockerLifecycleBatch → LockerLifecycleBatch × Option UnlockAuthorization
take_lifecycle_authorization b =
    if not b.unlock_authorized
    then (b, none)
    else (record b { unlock_authorized = false }, some authorization)

unfoldable pub auth_eq : AuthState → AuthState → Bool
auth_eq AuthState.idle AuthState.idle = true
auth_eq AuthState.authenticating AuthState.authenticating = true
auth_eq AuthState.waiting_for_secret AuthState.waiting_for_secret = true
auth_eq AuthState.waiting_for_visible AuthState.waiting_for_visible = true
auth_eq AuthState.authenticated AuthState.authenticated = true
auth_eq AuthState.cancelling AuthState.cancelling = true
auth_eq AuthState.failed AuthState.failed = true
auth_eq _ _ = false

-- `state.changed` stands first, where the state differs.
unfoldable pub with_change : AuthState → AuthState → List Event → List Event
unfolding auth_eq
with_change previous now details =
    if not (auth_eq previous now) then Event.state_changed now ∷ details else details

unfoldable pub response_to : ℕ → Result (List Event) ProtocolErrorBody → ResponseEnvelope
response_to id (ok _) = ResponseEnvelope.success id ResponseResult.empty
response_to id (err e) = ResponseEnvelope.error id e

abbrev pub is_fresh : Types.AuthState → Bool
is_fresh Types.idle = true
is_fresh Types.failed = true
is_fresh _ = false

abbrev pub is_ok : {A E : Type 0} → Result A E → Bool
is_ok (ok a) = true
is_ok (err e) = false

abbrev pub details : Result (List Event) ProtocolErrorBody → List Event
details (ok events) = events
details (err e) = []

abbrev pub is_state_get : FrontendRequest → Bool
is_state_get state_get = true
is_state_get _ = false

pub auth_eq→eq : (s t : AuthState) → auth_eq s t ≡ true → s ≡ t
unfolding auth_eq
auth_eq→eq s t h = ground arith
