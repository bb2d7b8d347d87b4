-- ===== src/Greetd/Client/Progress.antt =====
-- When the loop `drive` returns, and with which errors.
use fomalhaut.Common.{Bool, true, false, List, [], ◌∷◌, ◌≡◌, refl, sym, ◌∙◌, Result, ok, err, arith}
use fomalhaut.Core.Types.{prompt_id_exhausted}
use fomalhaut.Greetd.Types.{
  Operation, Request, Response, Reply, ErrorType, AuthMessageType, GreetdError, core, transport,
  unexpected_response, server, missing_identity,
}
use fomalhaut.Greetd.Client.{
  GreeterClient, Next, finish, again, react, send, drive, continue_with, Outcome, returned, waiting,
}
use fomalhaut.Greetd.Client.Loop.{drive_rule}
use fomalhaut.Greetd.Client.Invariant.{
  IsSound, IsReady, Driving, Driving-send, IsSound-send, react-Driving, react-IsReady,
}

-- Whether the replies answer an operation of greetd: its messages for the user are acknowledged
-- and more is awaited, a rejected authentication is cancelled first, and all else is an answer.
abbrev pub settles : Operation → List Reply → Bool
settles op [] = false
settles Operation.authenticate (ok (Response.auth_message AuthMessageType.info t) ∷ rs) =
    settles Operation.authenticate rs
settles Operation.authenticate (ok (Response.auth_message AuthMessageType.error t) ∷ rs) =
    settles Operation.authenticate rs
settles Operation.authenticate (ok (Response.error ErrorType.auth_error t) ∷ rs) =
    settles Operation.cleanup_after_authentication_failure rs
settles op (r ∷ rs) = true

-- What one round does, in the terms of `settles`.
abbrev Rounds : Operation → Reply → List Reply → Next → Type 0
Rounds op reply rest (finish r) = settles op (reply ∷ rest) ≡ true
Rounds op reply rest (again request op') = settles op (reply ∷ rest) ≡ settles op' rest

react-Rounds :
    (c : GreeterClient) (op : Operation) (reply : Reply) (rest : List Reply)
    → Driving op c
    → Rounds op reply rest (react c op reply).1
unfolding react
react-Rounds c op reply rest d = ground arith

abbrev pub returns : Outcome → Bool
returns (returned r) = true
returns waiting = false

returns-continue_with :
    (op : Operation) (reply : Reply) (rest : List Reply)
    (loop : GreeterClient → Request → Operation → GreeterClient × Outcome)
    (p : GreeterClient × Next)
    → Rounds op reply rest p.1
    → ((request : Request) (op' : Operation)
        → p.1 ≡ again request op'
        → returns (loop p.0 request op').1 ≡ settles op' rest)
    → returns (continue_with loop p).1 ≡ settles op (reply ∷ rest)
returns-continue_with op reply rest loop (c, finish r) h k = sym h
returns-continue_with op reply rest loop (c, again request op') h k = k request op' refl ∙ sym h

-- The loop returns exactly when the replies settle its operation; else it waits for more.
pub returns-drive :
    (replies : List Reply) (c : GreeterClient) (request : Request) (op : Operation)
    → Driving op c
    → returns (drive replies c request op).1 ≡ settles op replies
unfolding drive
returns-drive [] c request op d = refl
returns-drive (reply ∷ replies) c request op d =
    let d' = Driving-send op c request replies d in
    let c' = send c request replies in
    returns-continue_with op reply replies (drive replies) (react c' op reply)
      (react-Rounds c' op reply replies d')
      (λ request' op' e.
        returns-drive replies (react c' op reply).0 request' op' (react-Driving c' op reply d' e))

-- The errors that a `drive` may return: greetd's, its transport's, and spent prompt identifiers.
abbrev pub IsExternal : Result (Unit {0}) GreetdError → Type 0
IsExternal (ok u) = Unit
IsExternal (err (core e)) = e ≡ prompt_id_exhausted
IsExternal (err (transport e)) = Unit
IsExternal (err (unexpected_response o r)) = Unit
IsExternal (err (server k)) = Unit
IsExternal (err missing_identity) = ⊥

abbrev Finishes : Next → Type 0
Finishes (finish r) = IsExternal r
Finishes (again request op) = Unit

react-Finishes :
    (c : GreeterClient) (op : Operation) (reply : Reply)
    → IsSound c
    → Driving op c
    → Finishes (react c op reply).1
unfolding react
react-Finishes c op reply h d = ground arith

abbrev pub EndsExternal : Outcome → Type 0
EndsExternal (returned r) = IsExternal r
EndsExternal waiting = Unit

-- In a sound client the loop never fails by a rule of the client's own: no operation of the
-- conversation is refused for its state, and no identity is missing.
pub drive-EndsExternal :
    (replies : List Reply) (c : GreeterClient) (request : Request) (op : Operation)
    → IsSound c
    → Driving op c
    → EndsExternal (drive replies c request op).1
drive-EndsExternal replies c request op h d =
    drive_rule IsReady (λ p. EndsExternal p.1) (λ op c req i. tt)
      (λ op c req rest reply r i e. rw e at (
        react-Finishes (send c req rest) op reply (IsSound-send c req rest i.sound)
          (Driving-send op c req rest i.driving)))
      react-IsReady replies c request op (record { sound = h; driving = d })
