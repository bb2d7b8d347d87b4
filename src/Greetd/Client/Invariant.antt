-- ===== src/Greetd/Client/Invariant.antt =====
-- What holds of a `GreeterClient` before and after each call, and at each `await` in one.
use fomalhaut.Common.{not, ◌&&◌, true, false, ◌||◌, none, some, List, [], ◌∷◌, ◌≡◌, is_some, arith}
use fomalhaut.Core.Types.{Text, PromptId, AuthEvent, AuthState, SessionCommand}
use fomalhaut.Core.Conversation
use fomalhaut.Core.Conversation.{is_authenticating, is_waiting}
use fomalhaut.Greetd.Types.{Operation, Request, Reply}
use fomalhaut.Greetd.Client.Loop.{drive_rule}
use fomalhaut.Greetd.Client.{
  Wire, GreeterClient, with_transport, again, react, send, drive, create_session, respond,
  start_session, cancel, next_event, is_authenticated, on_conversation,
}

pub record IsSound (c : GreeterClient) : Type 0 where
  pub exclusive : c.starting_session && c.session_started ≡ false
  pub starting :
      not (c.starting_session || c.session_started) || is_authenticated c.conversation.state ≡ true
  pub identified :
      is_some c.pending_identity
      ≡ (is_authenticating c.conversation.state || is_waiting c.conversation.state)

-- Where `drive` stands when it sends a request of this operation.
abbrev pub Driving : Operation → GreeterClient → Type 0
Driving Operation.authenticate c = c.conversation.state ≡ AuthState.authenticating
Driving Operation.start_session c = c.starting_session ≡ true
Driving Operation.cancel c = c.conversation.state ≡ AuthState.cancelling
Driving Operation.cleanup_after_authentication_failure c =
    c.conversation.state ≡ AuthState.cancelling

pub with_transport-IsSound : (wire : Wire) → IsSound (with_transport wire)
unfolding with_transport
with_transport-IsSound wire = ground arith

pub Driving-send :
    (op : Operation) (c : GreeterClient) (request : Request) (rest : List Reply)
    → Driving op c
    → Driving op (send c request rest)
Driving-send Operation.authenticate c request rest d = d
Driving-send _ c request rest d = d

pub react-IsSound :
    (c : GreeterClient) (operation : Operation) (reply : Reply)
    → IsSound c
    → Driving operation c
    → IsSound (react c operation reply).0
unfolding react
react-IsSound c operation reply h d = ground arith

pub react-Driving :
    (c : GreeterClient) (operation : Operation) (reply : Reply) {request : Request} {op : Operation}
    → Driving operation c
    → (react c operation reply).1 ≡ again request op
    → Driving op (react c operation reply).0
unfolding react
react-Driving c operation reply d e = ground arith

pub IsSound-send :
    (c : GreeterClient) (request : Request) (rest : List Reply)
    → IsSound c
    → IsSound (send c request rest)
IsSound-send c request rest h = record {
  exclusive = h.exclusive;
  starting = h.starting;
  identified = h.identified;
}

-- Where `drive` begins.
pub record IsReady (operation : Operation) (c : GreeterClient) : Type 0 where
  pub sound : IsSound c
  pub driving : Driving operation c

pub react-IsReady :
    (op : Operation) (c : GreeterClient) (request : Request) (rest : List Reply) (reply : Reply)
    (request' : Request) (op' : Operation)
    → IsReady op c
    → (react (send c request rest) op reply).1 ≡ again request' op'
    → IsReady op' (react (send c request rest) op reply).0
react-IsReady op c request rest reply request' op' i e =
    let d = Driving-send op c request rest i.driving in
    record {
      sound = react-IsSound (send c request rest) op reply (IsSound-send c request rest i.sound) d;
      driving = react-Driving (send c request rest) op reply d e;
    }

-- What the loop keeps, whichever replies come.
pub drive-IsSound :
    (replies : List Reply) (c : GreeterClient) (request : Request) (operation : Operation)
    → IsSound c
    → Driving operation c
    → IsSound (drive replies c request operation).0
drive-IsSound replies c request operation h d =
    drive_rule IsReady (λ p. IsSound p.0) (λ op c req i. IsSound-send c req [] i.sound)
      (λ op c req rest reply r i e.
        react-IsSound (send c req rest) op reply (IsSound-send c req rest i.sound)
          (Driving-send op c req rest i.driving))
      react-IsReady replies c request operation (record { sound = h; driving = d })

pub create_session-IsSound :
    (c : GreeterClient) (username : Text) → IsSound c → IsSound (create_session c username).0
unfolding create_session
create_session-IsSound c username h = ground (
  arith,
  drive-IsSound c.transport.replies
      (record c {
        conversation = (Conversation.begin c.conversation).0;
        pending_identity = some (record { account_name = username });
        starting_session = false;
        session_started = false;
      })
      (Request.create_session username) Operation.authenticate,
)

pub respond-IsSound :
    (c : GreeterClient) (p : PromptId) (response : Text)
    → IsSound c
    → IsSound (respond c p response).0
unfolding respond
respond-IsSound c p response h = ground (
  arith,
  drive-IsSound c.transport.replies
      (record c { conversation = (Conversation.begin_response c.conversation p).0 })
      (Request.post_auth_message_response (some response)) Operation.authenticate,
)

pub start_session-IsSound :
    (c : GreeterClient) (session : SessionCommand) → IsSound c → IsSound (start_session c session).0
unfolding start_session
start_session-IsSound c session h = ground (
  arith,
  drive-IsSound c.transport.replies (record c { starting_session = true })
      (Request.start_session session.command session.environment) Operation.start_session,
)

pub cancel-IsSound : (c : GreeterClient) → IsSound c → IsSound (cancel c).0
unfolding cancel
cancel-IsSound c h = ground (
  arith,
  drive-IsSound c.transport.replies
      (record c {
        conversation = (Conversation.begin_cancel c.conversation).0;
        pending_identity = none;
      })
      Request.cancel_session Operation.cancel,
)

pub next_event-IsSound : (c : GreeterClient) → IsSound c → IsSound (next_event c).0
unfolding next_event
next_event-IsSound c h = take c.conversation.events
  where
    take :
        (es : List AuthEvent)
        → IsSound (on_conversation c (Conversation.pop_front es c.conversation)).0
    take [] = h
    take (e ∷ es) = record {
      exclusive = h.exclusive;
      starting = h.starting;
      identified = h.identified;
    }
