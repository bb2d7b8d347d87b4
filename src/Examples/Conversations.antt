-- ===== src/Examples/Conversations.antt =====
-- One conversation: begun, a prompt answered, a message, success.
use fomalhaut.Common.{none, some, List, [], ◌∷◌, ◌++◌, ◌≡◌, ◌≢◌, refl, arith}
use fomalhaut.Core.Types.{Text, secret, info, prompt, AuthState}
use fomalhaut.Core.Conversation.{AuthConversation, new}
use fomalhaut.Core.Conversation.Steps.{
  Call, step, after, run, begin, begin_response, emit_prompt, emit_message, authenticate,
  next_event,
}
use fomalhaut.Core.Conversation.Invariant.{Inv, new-Inv, run-Inv}
use fomalhaut.Core.Conversation.Replay.{answers, answered_once}

abbrev password : Text
password = b'p' ∷ b'w' ∷ []

abbrev alice : Text
alice = b'a' ∷ b'l' ∷ []

abbrev asking : List Call
asking = begin ∷ emit_prompt secret password ∷ []

abbrev asked : AuthConversation
asked = record {
  state = AuthState.waiting_for_secret;
  events = prompt 1 secret password ∷ [];
  active_prompt = some 1;
  next_prompt_id = 2;
}

abbrev life : List Call
life =
    begin_response 1
    ∷ emit_message info password
    ∷ emit_prompt secret password
    ∷ next_event
    ∷ begin_response 2
    ∷ authenticate (record { account_name = alice })
    ∷ next_event
    ∷ []

run-asking : run new asking ≡ asked
unfolding run step new
run-asking = refl

asked-Inv : Inv asked
asked-Inv = record {
  awaited = refl;
  positive = omega arith;
  bounded = omega arith;
  queued = omega arith;
}

answers-life : answers asked life ≡ 1 ∷ 2 ∷ []
unfolding answers step
answers-life = refl

run-Inv_example : Inv (run new (asking ++ life))
run-Inv_example = run-Inv new (asking ++ life) new-Inv

answered_once_example :
    (step (run (after asked (begin_response 1)) life) (begin_response 1)).1 ≢ none
unfolding step
answered_once_example = answered_once asked 1 life asked-Inv refl
