-- ===== src/Greetd/Client/Login.antt =====
-- Who is authenticated, and what is started: only what greetd confirmed.
use fomalhaut.Common.{false, some, ◌≢◌, List, ◌≡◌, arith}
use mathlib.Core.List.{get_last?}
use fomalhaut.Common.{get_last?-concat}
use fomalhaut.Core.Types.{AuthState, AuthEvent, AuthenticatedIdentity, Text, PromptId}
use fomalhaut.Core.Conversation.{AuthConversation}
use fomalhaut.Core.Conversation
use fomalhaut.Greetd.Types.{Operation, Request, Reply}
use fomalhaut.Greetd.Client.{
  GreeterClient, Wire, with_transport, Next, finish, again, react, send, drive, Outcome, returned,
  waiting, create_session, start_session,
}
use fomalhaut.Greetd.Client
use fomalhaut.Greetd.Client.Loop.{drive_rule}
use fomalhaut.Greetd.Client.Invariant.{Driving, Driving-send}

-- Authentication is under way, for this identity.
record IsFor (identity : AuthenticatedIdentity) (op : Operation) (c : GreeterClient) : Type 0 where
  busy : Driving op c
  not_cancel : c.conversation.state ≡ AuthState.authenticating → c.pending_identity ≡ some identity
  not_done : c.conversation.state ≡ AuthState.authenticated → ⊥

-- An authenticated conversation has told so, and of whom.
abbrev Announces : AuthenticatedIdentity → GreeterClient → Type 0
Announces identity c =
    c.conversation.state ≡ AuthState.authenticated
    → get_last? c.conversation.events ≡ some (AuthEvent.authenticated identity)

module _ (identity : AuthenticatedIdentity) where
  react-IsFor :
      (c : GreeterClient) (op : Operation) (reply : Reply) (request : Request) (op' : Operation)
      → IsFor identity op c
      → (react c op reply).1 ≡ again request op'
      → IsFor identity op' (react c op reply).0
  unfolding react
  react-IsFor c op reply request op' i e = ground arith

  react-Announces :
      (c : GreeterClient) (op : Operation) (reply : Reply)
      → IsFor identity op c
      → Announces identity (react c op reply).0
  unfolding react
  react-Announces c op reply i =
      ground (arith, get_last?-concat c.conversation.events (AuthEvent.authenticated identity))

  -- Sending changes neither the conversation nor the identity.
  IsFor-send :
      (c : GreeterClient) (request : Request) (rest : List Reply) (op : Operation)
      → IsFor identity op c
      → IsFor identity op (send c request rest)
  IsFor-send c request rest op i = record {
    busy = Driving-send op c request rest i.busy;
    not_cancel = i.not_cancel;
    not_done = i.not_done;
  }

  drive-Announces :
      (replies : List Reply) (c : GreeterClient) (request : Request) (op : Operation)
      → IsFor identity op c
      → Announces identity (drive replies c request op).0
  drive-Announces =
      drive_rule (IsFor identity) (λ p. Announces identity p.0)
        (λ op c req i done. absurd (i.not_done done))
        (λ op c req rest reply r i e.
          react-Announces (send c req rest) op reply (IsFor-send c req rest op i))
        (λ op c req rest reply req' op' i e.
          react-IsFor (send c req rest) op reply req' op' (IsFor-send c req rest op i) e)

-- Whatever greetd replies, a login that ends authenticated has announced, as its newest event, the
-- very account that it was begun for.
pub create_session-Announces :
    (c : GreeterClient) (username : Text)
    → c.conversation.state ≢ AuthState.authenticated
    → (create_session c username).0.conversation.state ≡ AuthState.authenticated
    → get_last? (create_session c username).0.conversation.events
      ≡ some (AuthEvent.authenticated (record { account_name = username }))
unfolding create_session
create_session-Announces c username h done = ground (
  arith,
  drive-Announces (record { account_name = username }) c.transport.replies
      (record c {
        conversation = (Conversation.begin c.conversation).0;
        pending_identity = some (record { account_name = username });
        starting_session = false;
        session_started = false;
      })
      (Request.create_session username) Operation.authenticate,
)

-- So has an answer that ends authenticated, of the account that was pending.
pub respond-Announces :
    (c : GreeterClient) (p : PromptId) (response : Text) (identity : AuthenticatedIdentity)
    → c.conversation.state ≢ AuthState.authenticated
    → c.pending_identity ≡ some identity
    → (Client.respond c p response).0.conversation.state ≡ AuthState.authenticated
    → get_last? (Client.respond c p response).0.conversation.events
      ≡ some (AuthEvent.authenticated identity)
unfolding Client.respond
respond-Announces c p response identity h q done = ground (
  arith,
  drive-Announces identity c.transport.replies
      (record c { conversation = (Conversation.begin_response c.conversation p).0 })
      (Request.post_auth_message_response (some response)) Operation.authenticate,
)
