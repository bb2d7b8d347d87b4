-- ===== src/Web/Greeter/Requests.antt =====
-- crates/fomalhaut-web/src/controller.rs: the requests of `GreeterController`.
use fomalhaut.Common.{
  ℕ, Bool, true, false, not, ◌&&◌, Option, none, some, List, [], ◌∷◌, ◌++◌, get_elem?, is_empty,
  Result, ok, err, ◌==◌, if◌then◌else◌,
}
use fomalhaut.Core.Types
use fomalhaut.Core.Types.{Text, BackendError, SessionCommand}
use fomalhaut.Web.Protocol.{AuthState, Event, auth_cancelled, EventEnvelope}
use fomalhaut.Web.Messages.{
  LoginState, PowerAction, has_action, action_eq, ProtocolErrorBody, ProtocolErrorCode, new_error,
  FrontendRequest, state_get, auth_begin, auth_respond, auth_cancel, session_select, power_request,
  username, RequestEnvelope, StateSnapshot, ResponseEnvelope, ResponseResult,
}
use fomalhaut.Web.Public.{
  ControllerError, AuthPublicState, controller_error, reset_conversation, update_state,
  envelope_events,
}
use fomalhaut.Web.Client
use fomalhaut.Web.Client.{
  LoginBackend, PowerControl, PowerControlError, protocol_error, stale_prompt_error,
  drain_core_events, cancel_after_internal_failure,
}
use fomalhaut.Web.Batch.{
  ControllerBatch, is_fresh, is_ok, details, is_state_get, with_change, response_to,
}
use fomalhaut.Web.Greeter.{
  GreeterController, Method, TrustedSession, on_auth, snapshot, select_session,
}

abbrev pub is_authenticated : Types.AuthState → Bool
is_authenticated Types.authenticated = true
is_authenticated _ = false

module _ {B P : Type 0} (k : LoginBackend B) where
  -- A call of the backend, with its error mapped.
  abbrev pub called :
      GreeterController B P
      → B × Result (Unit {0}) BackendError
      → Method B P (List Event) ProtocolErrorBody
  called c (b, ok _) = (record c { client = b }, ok [])
  called c (b, err e) = (record c { client = b }, err (protocol_error e))

  abbrev pub powered :
      Bool
      → GreeterController B P
      → P × Result (Unit {0}) PowerControlError
      → Method B P (List Event) ProtocolErrorBody
  powered cancelled c (p, ok _) =
      (record c { power = p }, ok (if cancelled then auth_cancelled ∷ [] else []))
  powered cancelled c (p, err e) = (
    record c { power = p },
    err (
        new_error ProtocolErrorCode.internal "the power service could not complete the operation"
          true),
  )

  unfoldable pub cancel_for_lifecycle :
      GreeterController B P → Method B P (Unit {0}) ControllerError
  unfolding Client.cancel_for_lifecycle
  cancel_for_lifecycle c = on_auth c (Client.cancel_for_lifecycle k.conversation c.auth c.client)

  abbrev pub drain : GreeterController B P → Method B P (List Event) ControllerError
  drain c = on_auth c (drain_core_events k.conversation c.auth c.client)

  -- A failed drain cancels what is under way.
  abbrev pub or_cancel :
      Method B P (List Event) ControllerError → Method B P (List Event) ControllerError
  or_cancel (c, ok events) = (c, ok events)
  or_cancel (c, err e) =
      on_auth c (cancel_after_internal_failure k.conversation c.auth c.client, err e)

  abbrev pub batch :
      ResponseEnvelope
      → Method B P (List EventEnvelope) ControllerError
      → Method B P ControllerBatch ControllerError
  batch response (c, err e) = (c, err e)
  batch response (c, ok events) = (
    c,
    ok (record {
      response = response;
      events = events;
      session_started = k.session_started c.client;
      unlock_authorized = false;
      trusted_fallback = false;
    }),
  )

  abbrev pub numbered_events :
      GreeterController B P
      → AuthPublicState × Result (List EventEnvelope) ControllerError
      → Method B P (List EventEnvelope) ControllerError
  numbered_events c (a, r) = (record c { auth = a }, r)

  unfoldable pub finish_batch :
      GreeterController B P
      → ℕ
      → AuthState
      → Result (List Event) ProtocolErrorBody
      → List Event
      → Method B P ControllerBatch ControllerError
  unfolding envelope_events with_change response_to
  finish_batch c id previous operation details = batch (response_to id operation) (
      numbered_events c
        (envelope_events c.auth (with_change previous c.auth.authentication details)))

  -- The end of a request: the state of the backend is shown.
  abbrev pub settled :
      ℕ
      → AuthState
      → Result (List Event) ProtocolErrorBody
      → List Event
      → GreeterController B P
      → Method B P ControllerBatch ControllerError
  settled id previous operation details c =
      finish_batch (record c { auth = update_state c.auth (k.conversation.state c.client) }) id
        previous operation details

  abbrev pub session_settled :
      ℕ
      → AuthState
      → Result (List Event) ProtocolErrorBody
      → List Event
      → Method B P (List Event) ControllerError
      → Method B P ControllerBatch ControllerError
  session_settled id previous operation details (c, err e) = (c, err e)
  session_settled id previous operation details (c, ok session_events) =
      settled id previous operation (details ++ session_events) c

  abbrev pub launched :
      ℕ
      → AuthState
      → List Event
      → GreeterController B P
      → B × Result (Unit {0}) BackendError
      → Method B P ControllerBatch ControllerError
  launched id previous details c (b, ok _) =
      session_settled id previous (ok []) (details ++ Event.session_started ∷ [])
        (or_cancel (drain (record c { client = b; login = LoginState.started })))
  launched id previous details c (b, err e) =
      session_settled id previous (err (protocol_error e)) details
        (or_cancel (drain (record c { client = b; login = LoginState.failed })))

  abbrev pub launch_command :
      ℕ
      → AuthState
      → List Event
      → GreeterController B P
      → Option TrustedSession
      → Method B P ControllerBatch ControllerError
  launch_command id previous details c none =
      (c, err (controller_error "the selected session index is outside the catalog"))
  launch_command id previous details c (some session) =
      launched id previous details (record c { login = LoginState.starting_session })
        (k.start_session c.client session.command)

  abbrev pub launch :
      ℕ
      → AuthState
      → List Event
      → GreeterController B P
      → Option ℕ
      → Method B P ControllerBatch ControllerError
  launch id previous details c none =
      (c, err (controller_error "the non-empty session catalog has no selected session"))
  launch id previous details c (some selected) =
      launch_command id previous details c (get_elem? c.sessions selected)

  unfoldable pub after_drain :
      ℕ
      → AuthState
      → Result (List Event) ProtocolErrorBody
      → Method B P (List Event) ControllerError
      → Method B P ControllerBatch ControllerError
  unfolding finish_batch update_state protocol_error drain_core_events cancel_after_internal_failure
  after_drain id previous operation (c, err e) = (c, err e)
  after_drain id previous operation (c, ok core_events) =
      let events = details operation ++ core_events in
      if is_ok operation
        && is_authenticated (k.conversation.state c.client)
        && not (is_empty c.sessions)
      then launch id previous events c c.selected_session
      else settled id previous operation events c

  abbrev pub respond_at :
      Option ℕ → ℕ → Text → GreeterController B P → Method B P (List Event) ProtocolErrorBody
  respond_at none prompt_id response c = (c, err stale_prompt_error)
  respond_at (some core_prompt) prompt_id response c =
      if not (core_prompt == prompt_id)
      then (c, err stale_prompt_error)
      else called c (k.conversation.respond c.client core_prompt response)

  abbrev pub fresh : GreeterController B P → GreeterController B P
  fresh c =
      if is_fresh (k.conversation.state c.client)
      then record c { auth = reset_conversation c.auth; login = LoginState.idle }
      else c

  abbrev pub begin : Option Text → GreeterController B P → Method B P (List Event) ProtocolErrorBody
  begin none c = (
    c,
    err (
        new_error ProtocolErrorCode.invalid_params
          "auth.begin parameters do not match the greeter mode" false),
  )
  begin (some name) c = called (fresh c) (k.begin_login c.client name)

  module _ (w : PowerControl P) where
    abbrev pub power_after :
        Bool
        → PowerAction
        → Method B P (Unit {0}) ControllerError
        → Method B P (List Event) ProtocolErrorBody
    power_after cancelled action (c, ok _) = powered cancelled c (w.request c.power action)
    power_after cancelled action (c, err e) = (
      c,
      err (
          new_error ProtocolErrorCode.internal
            "authentication could not be cancelled before the power operation" true),
    )

    unfoldable pub request_power :
        GreeterController B P → PowerAction → Method B P (List Event) ProtocolErrorBody
    unfolding cancel_for_lifecycle new_error action_eq
    request_power c action =
        if not (has_action action (w.capabilities c.power).power)
        then (
          c,
          err (
              new_error ProtocolErrorCode.method_disabled
                "the requested power operation is disabled" false),
        )
        else power_after (k.conversation.needs_cancel c.client) action (cancel_for_lifecycle c)

    unfoldable pub execute :
        GreeterController B P → FrontendRequest → Method B P (List Event) ProtocolErrorBody
    unfolding new_error username reset_conversation protocol_error stale_prompt_error request_power
        select_session
    execute c (auth_begin params) = begin (username params) c
    execute c (auth_respond prompt_id response) = respond_at c.auth.core_prompt prompt_id response c
    execute c auth_cancel = called c (k.conversation.cancel c.client)
    execute c (session_select session_id) = select_session k c session_id
    execute c (power_request action) = request_power c action
    execute c state_get = (c, ok [])

    abbrev pub executed :
        ℕ
        → AuthState
        → Method B P (List Event) ProtocolErrorBody
        → Method B P ControllerBatch ControllerError
    executed id previous (c, operation) = after_drain id previous operation (or_cancel (drain c))

    abbrev pub snapshot_batch :
        ℕ
        → GreeterController B P
        → Result StateSnapshot ControllerError
        → Method B P ControllerBatch ControllerError
    snapshot_batch id c (err e) = (c, err e)
    snapshot_batch id c (ok state) =
        batch (ResponseEnvelope.success id (ResponseResult.state state)) (c, ok [])

    unfoldable pub handle :
        GreeterController B P → RequestEnvelope → Method B P ControllerBatch ControllerError
    unfolding snapshot execute after_drain drain_core_events cancel_after_internal_failure
    handle c r =
        if is_state_get r.request
        then snapshot_batch r.id c (snapshot k w c)
        else executed r.id c.auth.authentication (execute c r.request)
