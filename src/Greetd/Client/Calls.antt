-- ===== src/Greetd/Client/Calls.antt =====
-- Any sequence of calls of a `GreeterClient`, each with the replies that greetd gives while it runs.
-- A call may be left while it waits, as when its future is dropped, and another may follow.
use fomalhaut.Common.{List, [], ◌∷◌}
use fomalhaut.Core.Types.{Text, PromptId, SessionCommand}
use fomalhaut.Greetd.Types.{Reply}
use fomalhaut.Greetd.Client.{GreeterClient, Wire, with_transport, send, react, drive}
use fomalhaut.Greetd.Client
use fomalhaut.Greetd.Client.Invariant.{
  IsSound, with_transport-IsSound, create_session-IsSound, respond-IsSound, start_session-IsSound,
  cancel-IsSound, next_event-IsSound,
}

pub data Call : Type 0 where
  create_session : Text → Call
  respond : PromptId → Text → Call
  start_session : SessionCommand → Call
  cancel next_event : Call

-- The client when the next replies of greetd are known.
abbrev pub expecting : List Reply → GreeterClient → GreeterClient
expecting replies c = record c { transport = record { replies = replies; sent = c.transport.sent } }

unfoldable pub apply : GreeterClient → Call → GreeterClient
apply c (create_session username) = (Client.create_session c username).0
apply c (respond p response) = (Client.respond c p response).0
apply c (start_session session) = (Client.start_session c session).0
apply c cancel = (Client.cancel c).0
apply c next_event = (Client.next_event c).0

unfoldable pub run : GreeterClient → List (List Reply × Call) → GreeterClient
run c [] = c
run c ((replies, call) ∷ calls) = run (apply (expecting replies c) call) calls

IsSound-expecting :
    (replies : List Reply) (c : GreeterClient) → IsSound c → IsSound (expecting replies c)
IsSound-expecting replies c h = record {
  exclusive = h.exclusive;
  starting = h.starting;
  identified = h.identified;
}

-- Each call keeps the flags of a client and its pending identity in step with its conversation.
pub apply-IsSound : (c : GreeterClient) (call : Call) → IsSound c → IsSound (apply c call)
unfolding apply
apply-IsSound c (create_session username) h = create_session-IsSound c username h
apply-IsSound c (respond p response) h = respond-IsSound c p response h
apply-IsSound c (start_session session) h = start_session-IsSound c session h
apply-IsSound c cancel h = cancel-IsSound c h
apply-IsSound c next_event h = next_event-IsSound c h

run_from-IsSound :
    (c : GreeterClient) (calls : List (List Reply × Call)) → IsSound c → IsSound (run c calls)
unfolding run
run_from-IsSound c [] h = h
run_from-IsSound c ((replies, call) ∷ calls) h =
    run_from-IsSound (apply (expecting replies c) call) calls
      (apply-IsSound (expecting replies c) call (IsSound-expecting replies c h))

-- Every client that is reached by any calls, with any replies of greetd, is sound.
pub run-IsSound :
    (wire : Wire) (calls : List (List Reply × Call)) → IsSound (run (with_transport wire) calls)
run-IsSound wire calls = run_from-IsSound (with_transport wire) calls (with_transport-IsSound wire)
