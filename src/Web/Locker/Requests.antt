-- ===== src/Web/Locker/Requests.antt =====
-- crates/fomalhaut-web/src/controller.rs: the requests of `LockerController`.
use fomalhaut.Common.{
  ℕ, Bool, true, false, not, ◌&&◌, Option, none, some, List, [], ◌∷◌, ◌++◌, Result, ok, err,
  map_err, ◌==◌, if◌then◌else◌,
}
use fomalhaut.Core.Types
use fomalhaut.Core.Types.{Text, BackendError}
use fomalhaut.Web.Protocol.{
  AuthState, IdentitySummary, Event, auth_cancelled, EventEnvelope, watermark,
}
use fomalhaut.Web.Messages.{
  UiLocale, acquiring, PowerAction, has_action, action_eq, ProtocolErrorBody, ProtocolErrorCode,
  new_error, FrontendRequest, state_get, auth_begin, auth_respond, auth_cancel, session_select,
  power_request, is_locker, RequestEnvelope, StateSnapshot, locker_snapshot, ResponseEnvelope,
  ResponseResult,
}
use fomalhaut.Web.Public.{
  ControllerError, controller_error, new, reset_conversation, update_state, envelope_events,
}
use fomalhaut.Web.Client.{
  ReauthBackend, PowerControl, PowerControlError, protocol_error, stale_prompt_error,
  drain_core_events, cancel_for_lifecycle, cancel_after_internal_failure,
}
use fomalhaut.Web.Batch.{
  is_fresh, is_ok, details, is_state_get, ControllerBatch, auth_eq, with_change, response_to,
}
use fomalhaut.Web.Locker.{LockerController, Method, is_locked, on_auth, publish}

abbrev pub is_down : Types.AuthState → Bool
is_down Types.failed = true
is_down Types.disconnected = true
is_down _ = false

module _ {B P : Type 0} (k : ReauthBackend B) where
  abbrev pub drain : LockerController B P → Method B P (List Event) ControllerError
  drain c = on_auth c (drain_core_events k.conversation c.auth c.client)

  abbrev pub cancel_failed :
      LockerController B P → ControllerError → Method B P (List Event) ControllerError
  cancel_failed c e =
      on_auth c (cancel_after_internal_failure k.conversation c.auth c.client, err e)

  -- A failed drain cancels what is under way.
  abbrev pub or_cancel :
      Method B P (List Event) ControllerError → Method B P (List Event) ControllerError
  or_cancel (c, ok events) = (c, ok events)
  or_cancel (c, err e) = cancel_failed c e

module _ {B P : Type 0} (k : ReauthBackend B) (w : PowerControl P) where
  unfoldable pub with_locale_and_power_control :
      B → IdentitySummary → P → UiLocale → LockerController B P
  unfolding new
  with_locale_and_power_control client identity power locale = record {
    client = client;
    auth = new (k.conversation.state client);
    lock = acquiring;
    identity = identity;
    power = power;
    locale = locale;
  }

  unfoldable pub snapshot : LockerController B P → Result StateSnapshot ControllerError
  unfolding locker_snapshot watermark
  snapshot c =
      map_err (λ _. controller_error "the controller public state is invalid")
        (locker_snapshot (record {
          locale = c.locale;
          authentication = c.auth.authentication;
          lock = c.lock;
          prompt = c.auth.prompt;
          messages = c.auth.messages;
          sequence = watermark c.auth.sequences;
          identity = c.identity;
          capabilities = w.capabilities c.power;
        }))

  -- A call of the backend, with its error mapped.
  abbrev pub called :
      LockerController B P
      → B × Result (Unit {0}) BackendError
      → Method B P (List Event) ProtocolErrorBody
  called c (b, ok _) = (record c { client = b }, ok [])
  called c (b, err e) = (record c { client = b }, err (protocol_error e))

  abbrev pub powered :
      Bool
      → LockerController B P
      → P × Result (Unit {0}) PowerControlError
      → Method B P (List Event) ProtocolErrorBody
  powered cancelled c (p, ok _) =
      (record c { power = p }, ok (if cancelled then auth_cancelled ∷ [] else []))
  powered cancelled c (p, err e) = (
    record c { power = p },
    err (
        new_error ProtocolErrorCode.internal "the power service could not complete the operation"
          true),
  )

  abbrev pub power_after :
      Bool
      → PowerAction
      → Method B P (Unit {0}) ControllerError
      → Method B P (List Event) ProtocolErrorBody
  power_after cancelled action (c, ok _) = powered cancelled c (w.request c.power action)
  power_after cancelled action (c, err e) = (
    c,
    err (
        new_error ProtocolErrorCode.internal
          "authentication could not be cancelled before the power operation" true),
  )

  unfoldable pub request_power :
      LockerController B P → PowerAction → Method B P (List Event) ProtocolErrorBody
  unfolding cancel_for_lifecycle new_error action_eq
  request_power c action =
      if not (has_action action (w.capabilities c.power).power)
      then (
        c,
        err (
            new_error ProtocolErrorCode.method_disabled "the requested power operation is disabled"
              false),
      )
      else power_after (k.conversation.needs_cancel c.client) action
          (on_auth c (cancel_for_lifecycle k.conversation c.auth c.client))

  abbrev pub respond_at :
      Option ℕ → ℕ → Text → LockerController B P → Method B P (List Event) ProtocolErrorBody
  respond_at none prompt_id response c = (c, err stale_prompt_error)
  respond_at (some core_prompt) prompt_id response c =
      if not (core_prompt == prompt_id)
      then (c, err stale_prompt_error)
      else called c (k.conversation.respond c.client core_prompt response)

  abbrev pub fresh : LockerController B P → LockerController B P
  fresh c =
      if is_fresh (k.conversation.state c.client)
      then record c { auth = reset_conversation c.auth }
      else c

  abbrev pub dispatch :
      FrontendRequest → LockerController B P → Method B P (List Event) ProtocolErrorBody
  dispatch (auth_begin params) c =
      if not (is_locker params)
      then (
        c,
        err (
            new_error ProtocolErrorCode.invalid_params
              "auth.begin parameters do not match the locker mode" false),
      )
      else called (fresh c) (k.begin_reauth c.client)
  dispatch (auth_respond prompt_id response) c = respond_at c.auth.core_prompt prompt_id response c
  dispatch auth_cancel c = called c (k.conversation.cancel c.client)
  dispatch (power_request action) c = request_power c action
  dispatch (session_select session_id) c = (
    c,
    err (
        new_error ProtocolErrorCode.method_disabled "the method is disabled for the locker mode"
          false),
  )
  dispatch state_get c = (c, ok [])

  unfoldable pub execute :
      LockerController B P → FrontendRequest → Method B P (List Event) ProtocolErrorBody
  unfolding new_error is_locker reset_conversation protocol_error stale_prompt_error request_power
  execute c request =
      if not (is_locked c.lock)
      then (
        c,
        err (
            new_error ProtocolErrorCode.invalid_state
              "authentication is unavailable in the current lock lifecycle state" false),
      )
      else dispatch request c

  abbrev pub batch :
      ResponseEnvelope
      → Bool
      → Bool
      → Method B P (List EventEnvelope) ControllerError
      → Method B P ControllerBatch ControllerError
  batch response unlock fallback (c, err e) = (c, err e)
  batch response unlock fallback (c, ok events) = (
    c,
    ok (record {
      response = response;
      events = events;
      session_started = false;
      unlock_authorized = unlock;
      trusted_fallback = fallback;
    }),
  )

  -- Behind the drain.
  abbrev pub settled :
      ℕ
      → AuthState
      → Types.AuthState
      → Result (List Event) ProtocolErrorBody
      → Method B P (List Event) ControllerError
      → Method B P ControllerBatch ControllerError
  settled id previous previous_backend operation (c, err e) = (c, err e)
  settled id previous previous_backend operation (c, ok core_events) =
      let backend = k.conversation.state c.client in
      let auth = update_state c.auth backend in
      let now = auth.authentication in
      batch (response_to id operation)
        (is_ok operation
          && not (auth_eq previous AuthState.authenticated)
          && auth_eq now AuthState.authenticated)
        (not (is_ok operation) && not (is_down previous_backend) && is_down backend)
        (publish (record c { auth = auth })
          (with_change previous now (details operation ++ core_events)))

  abbrev pub executed :
      ℕ
      → AuthState
      → Types.AuthState
      → Method B P (List Event) ProtocolErrorBody
      → Method B P ControllerBatch ControllerError
  executed id previous previous_backend (c, operation) =
      settled id previous previous_backend operation (or_cancel k (drain k c))

  abbrev pub snapshot_batch :
      ℕ
      → LockerController B P
      → Result StateSnapshot ControllerError
      → Method B P ControllerBatch ControllerError
  snapshot_batch id c (err e) = (c, err e)
  snapshot_batch id c (ok state) =
      batch (ResponseEnvelope.success id (ResponseResult.state state)) false false (c, ok [])

  unfoldable pub handle :
      LockerController B P → RequestEnvelope → Method B P ControllerBatch ControllerError
  unfolding snapshot execute drain_core_events cancel_after_internal_failure update_state
      envelope_events with_change response_to auth_eq
  handle c r =
      if is_state_get r.request
      then snapshot_batch r.id c (snapshot c)
      else executed r.id c.auth.authentication (k.conversation.state c.client) (execute c r.request)
