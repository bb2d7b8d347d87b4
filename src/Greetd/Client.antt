-- ===== src/Greetd/Client.antt =====
-- crates/fomalhaut-greetd/src/client.rs: `GreeterClient` and the loop `drive`.
pub mod Loop
pub mod Invariant
pub mod Calls
pub mod Progress
pub mod Login
pub mod Start
use fomalhaut.Common.{
  Bool, true, false, not, ◌&&◌, ◌||◌, Option, none, some, List, [], ◌∷◌, ◌++◌, Result, ok, err,
  map_err, if◌then◌else◌,
}
use fomalhaut.Core.Types.{
  Text, PromptId, PromptKind, MessageLevel, AuthState, AuthenticatedIdentity, AuthEvent, CoreError,
  invalid_state, SessionCommand, new_identity, into_parts,
}
use fomalhaut.Core.Conversation.{AuthConversation, is_authenticating}
use fomalhaut.Core.Conversation
use fomalhaut.Greetd.Types.{
  GreeterState, ServerErrorKind, GreetdError, core, transport, unexpected_response, server,
  missing_identity, Operation, operation_name, Request, ErrorType, AuthMessageType, Response, Reply,
}

-- A `Transport` is what greetd will answer, in order, and what was sent to it so far.
pub record Wire : Type 0 where
  pub replies : List Reply
  pub sent : List Request

pub record GreeterClient : Type 0 where
  pub transport : Wire
  pub conversation : AuthConversation
  pub pending_identity : Option AuthenticatedIdentity
  pub starting_session : Bool
  pub session_started : Bool

unfoldable pub with_transport : Wire → GreeterClient
unfolding Conversation.new
with_transport wire = record {
  transport = wire;
  conversation = Conversation.new;
  pending_identity = none;
  starting_session = false;
  session_started = false;
}

abbrev pub greeter_state : AuthState → GreeterState
greeter_state AuthState.disconnected = GreeterState.disconnected
greeter_state AuthState.idle = GreeterState.idle
greeter_state AuthState.authenticating = GreeterState.authenticating
greeter_state AuthState.waiting_for_secret = GreeterState.waiting_for_prompt
greeter_state AuthState.waiting_for_visible = GreeterState.waiting_for_prompt
greeter_state AuthState.authenticated = GreeterState.authenticated
greeter_state AuthState.cancelling = GreeterState.cancelling
greeter_state AuthState.failed = GreeterState.failed

unfoldable pub state : GreeterClient → GreeterState
state c =
    if c.session_started
    then GreeterState.started
    else if c.starting_session
    then GreeterState.starting_session
    else greeter_state c.conversation.state

unfoldable pub needs_cancel : GreeterClient → Bool
unfolding Conversation.needs_cancel
needs_cancel c =
    not c.starting_session && not c.session_started && Conversation.needs_cancel c.conversation

-- An operation on the field `conversation`, with its error converted as `?` does.
abbrev pub on_conversation {ℓ} :
    {A : Type ℓ}
    → GreeterClient
    → AuthConversation × Result A CoreError
    → GreeterClient × Result A GreetdError
on_conversation c (v, r) = (record c { conversation = v }, map_err core r)

unfoldable pub next_event : GreeterClient → GreeterClient × Result AuthEvent GreetdError
unfolding Conversation.next_event
next_event c = on_conversation c (Conversation.next_event c.conversation)

-- How one round of the loop in `drive` ends: the function returns, or another request goes out.
pub data Next : Type 0 where
  finish : Result (Unit {0}) GreetdError → Next
  again : Request → Operation → Next

abbrev pub finished : GreeterClient × Result (Unit {0}) GreetdError → GreeterClient × Next
finished (c, r) = (c, finish r)

unfoldable pub finish_cleanup : GreeterClient → GreeterClient × Result (Unit {0}) GreetdError
unfolding Conversation.reject
finish_cleanup c = on_conversation c (Conversation.reject c.conversation)

abbrev pub complete_identity :
    Option AuthenticatedIdentity → GreeterClient → GreeterClient × Result (Unit {0}) GreetdError
complete_identity none c =
    (record c { conversation = Conversation.fail c.conversation }, err missing_identity)
complete_identity (some identity) c =
    on_conversation (record c { pending_identity = none })
      (Conversation.authenticate c.conversation identity)

unfoldable pub handle_success :
    GreeterClient → Operation → GreeterClient × Result (Unit {0}) GreetdError
unfolding Conversation.fail Conversation.authenticate Conversation.complete_cancel finish_cleanup
handle_success c Operation.authenticate = complete_identity c.pending_identity c
handle_success c Operation.start_session =
    (record c { starting_session = false; session_started = true }, ok tt)
handle_success c Operation.cancel = on_conversation c (Conversation.complete_cancel c.conversation)
handle_success c Operation.cleanup_after_authentication_failure = finish_cleanup c

abbrev pub error_kind : ErrorType → ServerErrorKind
error_kind ErrorType.auth_error = ServerErrorKind.authentication
error_kind ErrorType.error = ServerErrorKind.general

unfoldable pub handle_server_error :
    GreeterClient → ErrorType → GreeterClient × Result (Unit {0}) GreetdError
unfolding Conversation.fail
handle_server_error c kind = (
  record c {
    conversation = Conversation.fail c.conversation;
    pending_identity = none;
    starting_session = false;
  },
  err (server (error_kind kind)),
)

-- After `begin_cancel()?` on a rejected authentication.
abbrev pub start_cleanup : GreeterClient × Result (Unit {0}) GreetdError → GreeterClient × Next
start_cleanup (c, err e) = (c, finish (err e))
start_cleanup (c, ok u) = (
  record c { pending_identity = none; starting_session = false },
  again Request.cancel_session Operation.cleanup_after_authentication_failure,
)

unfoldable pub on_error : GreeterClient → Operation → ErrorType → GreeterClient × Next
unfolding finish_cleanup handle_server_error Conversation.begin_cancel
on_error c Operation.cleanup_after_authentication_failure kind = finished (finish_cleanup c)
on_error c Operation.authenticate ErrorType.auth_error =
    start_cleanup (on_conversation c (Conversation.begin_cancel c.conversation))
on_error c operation kind = finished (handle_server_error c kind)

-- After `emit_message(..)?`.
abbrev pub acknowledge : GreeterClient × Result (Unit {0}) GreetdError → GreeterClient × Next
acknowledge (c, err e) = (c, finish (err e))
acknowledge (c, ok u) = (c, again (Request.post_auth_message_response none) Operation.authenticate)

abbrev pub on_authentication_message : GreeterClient → AuthMessageType → Text → GreeterClient × Next
on_authentication_message c AuthMessageType.secret text =
    finished (on_conversation c (Conversation.emit_prompt c.conversation PromptKind.secret text))
on_authentication_message c AuthMessageType.visible text =
    finished (on_conversation c (Conversation.emit_prompt c.conversation PromptKind.visible text))
on_authentication_message c AuthMessageType.info text =
    acknowledge
      (on_conversation c (Conversation.emit_message c.conversation MessageLevel.info text))
on_authentication_message c AuthMessageType.error text =
    acknowledge
      (on_conversation c (Conversation.emit_message c.conversation MessageLevel.error text))

abbrev pub unexpected_message : GreeterClient → Operation → GreeterClient × Next
unexpected_message c operation = (
  record c { conversation = Conversation.fail c.conversation; starting_session = false },
  finish (err (unexpected_response (operation_name operation) "an authentication message")),
)

unfoldable pub on_auth_message :
    GreeterClient → Operation → AuthMessageType → Text → GreeterClient × Next
unfolding Conversation.emit_prompt Conversation.emit_message Conversation.fail
on_auth_message c Operation.authenticate kind text = on_authentication_message c kind text
on_auth_message c operation kind text = unexpected_message c operation

-- The body of the loop, at the reply to its request.
unfoldable pub react : GreeterClient → Operation → Reply → GreeterClient × Next
unfolding Conversation.disconnect handle_success on_error on_auth_message
react c operation (err e) = (
  record c {
    conversation = Conversation.disconnect c.conversation;
    pending_identity = none;
    starting_session = false;
  },
  finish (err (transport e)),
)
react c operation (ok Response.success) = finished (handle_success c operation)
react c operation (ok (Response.error kind description)) = on_error c operation kind
react c operation (ok (Response.auth_message kind text)) = on_auth_message c operation kind text

-- `waiting`: the replies are used up, and the call has not returned.
pub data Outcome : Type 0 where
  returned : Result (Unit {0}) GreetdError → Outcome
  waiting : Outcome

-- A request goes out, with `rest` the replies that stay after its own.
abbrev pub send : GreeterClient → Request → List Reply → GreeterClient
send c request rest = record c {
  transport = record { replies = rest; sent = c.transport.sent ++ request ∷ [] };
}

-- `return`, or the next round of the loop.
abbrev pub continue_with :
    (GreeterClient → Request → Operation → GreeterClient × Outcome)
    → GreeterClient × Next
    → GreeterClient × Outcome
continue_with loop (c, finish r) = (c, returned r)
continue_with loop (c, again request operation) = loop c request operation

-- `drive`, at the replies of its transport.
unfoldable pub drive : List Reply → GreeterClient → Request → Operation → GreeterClient × Outcome
drive [] c request operation = (send c request [], waiting)
drive (reply ∷ replies) c request operation =
    continue_with (drive replies) (react (send c request replies) operation reply)

-- What follows a `?` in a method that ends in `drive`.
abbrev pub and_drive {ℓ} :
    {A : Type ℓ}
    → (A → GreeterClient → GreeterClient × Outcome)
    → GreeterClient × Result A GreetdError
    → GreeterClient × Outcome
and_drive f (c, ok a) = f a c
and_drive f (c, err e) = (c, returned (err e))

unfoldable pub create_session : GreeterClient → Text → GreeterClient × Outcome
unfolding Conversation.begin new_identity
create_session c username =
    and_drive
      (λ identity c.
        and_drive
          (λ _ c.
            drive c.transport.replies
              (record c {
                pending_identity = some identity;
                starting_session = false;
                session_started = false;
              })
              (Request.create_session username) Operation.authenticate)
          (on_conversation c (Conversation.begin c.conversation)))
      (c, map_err core (new_identity username))

unfoldable pub respond : GreeterClient → PromptId → Text → GreeterClient × Outcome
unfolding Conversation.begin_response
respond c p response =
    and_drive
      (λ _ c.
        drive c.transport.replies c (Request.post_auth_message_response (some response))
          Operation.authenticate)
      (on_conversation c (Conversation.begin_response c.conversation p))

abbrev pub is_authenticated : AuthState → Bool
is_authenticated AuthState.authenticated = true
is_authenticated _ = false

unfoldable pub start_session : GreeterClient → SessionCommand → GreeterClient × Outcome
unfolding into_parts
start_session c session =
    if not (is_authenticated c.conversation.state) || c.starting_session || c.session_started
    then (c, returned (err (core (invalid_state "start session" c.conversation.state))))
    else let (cmd, env) = into_parts session in
      drive c.transport.replies (record c { starting_session = true })
        (Request.start_session cmd env) Operation.start_session

unfoldable pub cancel : GreeterClient → GreeterClient × Outcome
unfolding Conversation.begin_cancel
cancel c =
    if c.starting_session || c.session_started
    then (c, returned (err (core (invalid_state "cancel session" c.conversation.state))))
    else and_drive
        (λ _ c.
          drive c.transport.replies (record c { pending_identity = none }) Request.cancel_session
            Operation.cancel)
        (on_conversation c (Conversation.begin_cancel c.conversation))
