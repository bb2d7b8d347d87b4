-- ===== src/Greetd/Client/Start.antt =====
-- A session is started by one way only.
use fomalhaut.Common.{
  Bool, true, false, none, some, List, [], ◌∷◌, ◌++◌, ◌≡◌, refl, ap, ◌∙◌, ok, err, inl, inr,
  Bool-cases, arith,
}
use fomalhaut.Core.Types.{AuthState, SessionCommand, Text, PromptId}
use fomalhaut.Core.Conversation
use fomalhaut.Greetd.Types.{Operation, Request, Response, Reply}
use fomalhaut.Greetd.Client.{
  GreeterClient, Next, finish, again, react, send, drive, Outcome, returned, waiting,
  create_session, respond, cancel, next_event, on_conversation,
}
use fomalhaut.Greetd.Client
use fomalhaut.Greetd.Client.Loop.{drive_rule}
use fomalhaut.Greetd.Client.Calls.{Call, start_session, expecting, apply, run}

abbrev starts : Operation → Bool
starts Operation.start_session = true
starts _ = false

record Unstarted (op : Operation) (c : GreeterClient) : Type 0 where
  no_start : starts op ≡ false
  not_started : c.session_started ≡ false

react-not_started :
    (c : GreeterClient) (op : Operation) (reply : Reply)
    → Unstarted op c
    → (react c op reply).0.session_started ≡ false
unfolding react
react-not_started c op reply u = ground arith

react-no_start :
    (c : GreeterClient) (op : Operation) (reply : Reply) (request : Request) (op' : Operation)
    → (react c op reply).1 ≡ again request op'
    → starts op' ≡ false
unfolding react
react-no_start c op reply request op' e = ground arith

Unstarted-send :
    (c : GreeterClient) (request : Request) (rest : List Reply) (op : Operation)
    → Unstarted op c
    → Unstarted op (send c request rest)
Unstarted-send c request rest op u = record { no_start = u.no_start; not_started = u.not_started }

drive-not_started :
    (replies : List Reply) (c : GreeterClient) (request : Request) (op : Operation)
    → Unstarted op c
    → (drive replies c request op).0.session_started ≡ false
drive-not_started =
    drive_rule Unstarted (λ p. p.0.session_started ≡ false) (λ op c req u. u.not_started)
      (λ op c req rest reply r u e.
        react-not_started (send c req rest) op reply (Unstarted-send c req rest op u))
      (λ op c req rest reply req' op' u e. record {
        no_start = react-no_start (send c req rest) op reply req' op' e;
        not_started = react-not_started (send c req rest) op reply (Unstarted-send c req rest op u);
      })

create_session-not_started :
    (c : GreeterClient) (username : Text)
    → c.session_started ≡ false
    → (create_session c username).0.session_started ≡ false
unfolding create_session
create_session-not_started c username h = ground (
  arith,
  drive-not_started c.transport.replies
      (record c {
        conversation = (Conversation.begin c.conversation).0;
        pending_identity = some (record { account_name = username });
        starting_session = false;
        session_started = false;
      })
      (Request.create_session username) Operation.authenticate,
)

respond-not_started :
    (c : GreeterClient) (p : PromptId) (response : Text)
    → c.session_started ≡ false
    → (respond c p response).0.session_started ≡ false
unfolding respond
respond-not_started c p response h = ground (
  arith,
  drive-not_started c.transport.replies
      (record c { conversation = (Conversation.begin_response c.conversation p).0 })
      (Request.post_auth_message_response (some response)) Operation.authenticate,
)

cancel-not_started :
    (c : GreeterClient) → c.session_started ≡ false → (cancel c).0.session_started ≡ false
unfolding cancel
cancel-not_started c h = ground (
  arith,
  drive-not_started c.transport.replies
      (record c {
        conversation = (Conversation.begin_cancel c.conversation).0;
        pending_identity = none;
      })
      Request.cancel_session Operation.cancel,
)

-- The reply that starts a session, and the request that it answers.
pub record Starts (c : GreeterClient) (session : SessionCommand) : Type 0 where
  pub authenticated : c.conversation.state ≡ AuthState.authenticated
  pub rest : List Reply
  pub confirmed : c.transport.replies ≡ ok Response.success ∷ rest
  pub requested :
      (Client.start_session c session).0.transport.sent
      ≡ c.transport.sent ++ Request.start_session session.command session.environment ∷ []

drive_start :
    (replies : List Reply) (c : GreeterClient) (request : Request)
    → c.session_started ≡ false
    → (drive replies c request Operation.start_session).0.session_started ≡ true
    → (rest : List Reply) × (replies ≡ ok Response.success ∷ rest)
      × ((drive replies c request Operation.start_session).0.transport.sent
          ≡ c.transport.sent ++ request ∷ [])
unfolding drive react
drive_start [] c request n s = cc
drive_start (ok Response.success ∷ rest) c request n s = (rest, refl, refl)
drive_start (err e ∷ rest) c request n s = cc
drive_start (ok (Response.error k t) ∷ rest) c request n s = cc
drive_start (ok (Response.auth_message k t) ∷ rest) c request n s = cc

abbrev start_request : SessionCommand → Request
start_request session = Request.start_session session.command session.environment

-- The guard of `start_session` is the only other way out, and it starts nothing.
start_session_lem :
    (c : GreeterClient) (session : SessionCommand)
    → c.session_started ≡ false
    → (Client.start_session c session).0.session_started ≡ true
    → (c.conversation.state ≡ AuthState.authenticated)
      × (Client.start_session c session
          ≡ drive c.transport.replies
              (record c { starting_session = true })
              (start_request session)
              Operation.start_session)
unfolding Client.start_session
start_session_lem c session n s = ground arith

-- `start_session` starts a session only in an authenticated client, when greetd replies `success`
-- to the request for just that command and environment.
start_session-Starts :
    (c : GreeterClient) (session : SessionCommand)
    → c.session_started ≡ false
    → (Client.start_session c session).0.session_started ≡ true
    → Starts c session
start_session-Starts c session n s =
    let (authenticated, e) = start_session_lem c session n s in
    let (rest, confirmed, requested) =
      drive_start c.transport.replies (record c { starting_session = true }) (start_request session)
        n (rw e at s) in
    record {
      authenticated = authenticated;
      rest = rest;
      confirmed = confirmed;
      requested = ap (λ p. p.0.transport.sent) e ∙ requested;
    }

next_event-not_started :
    (c : GreeterClient) → c.session_started ≡ false → (next_event c).0.session_started ≡ false
unfolding next_event
next_event-not_started c h = h

-- Where in a sequence of calls the session was started.
pub record Started (c : GreeterClient) (calls : List (List Reply × Call)) : Type 0 where
  pub earlier : List (List Reply × Call)
  pub later : List (List Reply × Call)
  pub replies : List Reply
  pub session : SessionCommand
  pub splits : calls ≡ earlier ++ (replies, start_session session) ∷ later
  pub starts : Starts (expecting replies (run c earlier)) session

Started-here :
    (c : GreeterClient) (replies : List Reply) (session : SessionCommand)
    (later : List (List Reply × Call))
    → Starts (expecting replies c) session
    → Started c ((replies, start_session session) ∷ later)
unfolding run
Started-here c replies session later s = record {
  earlier = [];
  later = later;
  replies = replies;
  session = session;
  splits = refl;
  starts = s;
}

Started-cons :
    (c : GreeterClient) (replies : List Reply) (call : Call) (calls : List (List Reply × Call))
    → Started (apply (expecting replies c) call) calls
    → Started c ((replies, call) ∷ calls)
unfolding run
Started-cons c replies call calls s = record {
  earlier = (replies, call) ∷ s.earlier;
  later = s.later;
  replies = s.replies;
  session = s.session;
  splits = ap (◌∷◌ (replies, call)) s.splits;
  starts = s.starts;
}

apply-Started :
    (c : GreeterClient) (replies : List Reply) (call : Call) (calls : List (List Reply × Call))
    → c.session_started ≡ false
    → (apply (expecting replies c) call).session_started ≡ true
    → Started c ((replies, call) ∷ calls)
unfolding apply
apply-Started c replies (start_session session) calls n s =
    Started-here c replies session calls (start_session-Starts (expecting replies c) session n s)
apply-Started c replies (Call.create_session u) calls n s =
    cc (create_session-not_started (expecting replies c) u n)
apply-Started c replies (Call.respond p t) calls n s =
    cc (respond-not_started (expecting replies c) p t n)
apply-Started c replies Call.cancel calls n s = cc (cancel-not_started (expecting replies c) n)
apply-Started c replies Call.next_event calls n s =
    cc (next_event-not_started (expecting replies c) n)

-- If any calls lead from a client with no session to one with a session, then one of them was a
-- `start_session` made while authenticated, and greetd replied `success` to its request.
pub run-Started :
    (c : GreeterClient) (calls : List (List Reply × Call))
    → c.session_started ≡ false
    → (run c calls).session_started ≡ true
    → Started c calls
unfolding run
run-Started c [] n s = cc
run-Started c ((replies, call) ∷ calls) n s =
    let c' = apply (expecting replies c) call in
    elim (Bool-cases c'.session_started) [
      | inl here ↦ apply-Started c replies call calls n here
      | inr not_here ↦ Started-cons c replies call calls (run-Started c' calls not_here s)
    ]
