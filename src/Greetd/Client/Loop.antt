-- ===== src/Greetd/Client/Loop.antt =====
-- The rule by which every property of the loop `drive` is proved, and its kin for `?`.
use fomalhaut.Common.{List, [], ◌∷◌, ◌≡◌, refl, Result, ok, err}
use fomalhaut.Greetd.Types.{GreetdError, Operation, Request, Reply}
use fomalhaut.Greetd.Client.{
  GreeterClient, Next, finish, again, react, send, drive, continue_with, Outcome, returned, waiting,
  and_drive,
}

continue_with_cases {ℓ} :
    (Q : GreeterClient × Outcome → Type ℓ)
    (loop : GreeterClient → Request → Operation → GreeterClient × Outcome)
    (p : GreeterClient × Next)
    → ((r : Result (Unit {0}) GreetdError) → p.1 ≡ finish r → Q (p.0, returned r))
    → ((request : Request) (operation : Operation)
        → p.1 ≡ again request operation
        → Q (loop p.0 request operation))
    → Q (continue_with loop p)
continue_with_cases Q loop (c, finish r) ends loops = ends r refl
continue_with_cases Q loop (c, again request operation) ends loops = loops request operation refl

pub and_drive_cases {ℓ κ} :
    {A : Type ℓ} (Q : GreeterClient × Outcome → Type κ)
    (f : A → GreeterClient → GreeterClient × Outcome) (p : GreeterClient × Result A GreetdError)
    → ((a : A) → p.1 ≡ ok a → Q (f a p.0))
    → ((e : GreetdError) → p.1 ≡ err e → Q (p.0, returned (err e)))
    → Q (and_drive f p)
and_drive_cases Q f (c, ok a) good bad = good a refl
and_drive_cases Q f (c, err e) good bad = bad e refl

-- An invariant of the loop, and what follows from it where the loop waits or returns.
module _ {ℓ κ} (I : Operation → GreeterClient → Type ℓ) (Q : GreeterClient × Outcome → Type κ)
    (waits : (op : Operation) (c : GreeterClient) (request : Request)
      → I op c
      → Q (send c request [], waiting))
    (ends : (op : Operation) (c : GreeterClient) (request : Request) (rest : List Reply)
        (reply : Reply) (r : Result (Unit {0}) GreetdError)
      → I op c
      → (react (send c request rest) op reply).1 ≡ finish r
      → Q ((react (send c request rest) op reply).0, returned r))
    (loops : (op : Operation) (c : GreeterClient) (request : Request) (rest : List Reply)
        (reply : Reply) (request' : Request) (op' : Operation)
      → I op c
      → (react (send c request rest) op reply).1 ≡ again request' op'
      → I op' (react (send c request rest) op reply).0) where
  pub drive_rule :
      (replies : List Reply) (c : GreeterClient) (request : Request) (op : Operation)
      → I op c
      → Q (drive replies c request op)
  unfolding drive
  drive_rule [] c request op i = waits op c request i
  drive_rule (reply ∷ replies) c request op i =
      continue_with_cases Q (drive replies) (react (send c request replies) op reply)
        (λ r e. ends op c request replies reply r i e)
        (λ request' op' e.
          drive_rule replies (react (send c request replies) op reply).0 request' op'
            (loops op c request replies reply request' op' i e))
