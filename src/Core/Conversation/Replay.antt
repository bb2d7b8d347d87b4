-- ===== src/Core/Conversation/Replay.antt =====
-- No prompt of an `AuthConversation` is answered twice, whatever operations come between.
use fomalhaut.Common.{
  ℕ, ◌+◌, ◌-◌, ◌≤◌, none, List, [], ◌∷◌, ◌++◌, ◌≡◌, ◌≢◌, refl, Option, if◌then◌else◌, arith,
}
use fomalhaut.Core.Types.{PromptId, AuthEvent, CoreError}
use fomalhaut.Core.Conversation.{AuthConversation, is_waiting, pop_front}
use fomalhaut.Core.Conversation.Steps.{Call, step, after, run, begin_response, next_event}
use fomalhaut.Core.Conversation.Invariant.{Inv, step-Inv, run-Inv}

-- The least identifier that may still be answered.
abbrev pub floor : AuthConversation → ℕ
floor c = if is_waiting c.state then c.next_prompt_id - 1 else c.next_prompt_id

-- The answer that an operation accepts, if it is one.
abbrev pub accepted : Call → Option CoreError → List PromptId
accepted (begin_response p) none = p ∷ []
accepted _ _ = []

unfoldable pub answers : AuthConversation → List Call → List PromptId
answers c [] = []
answers c (call ∷ calls) = accepted call (step c call).1 ++ answers (after c call) calls

-- Strictly increasing, from `low` on.
abbrev pub Increasing : ℕ → List ℕ → Type 0
Increasing low [] = Unit
Increasing low (p ∷ ps) = (low ≤ p) × Increasing (p + 1) ps

Increasing-weaken :
    (low low' : ℕ) (ps : List ℕ) → low' ≤ low → Increasing low ps → Increasing low' ps
Increasing-weaken low low' [] l h = tt
Increasing-weaken low low' (p ∷ ps) l h = (omega arith, h.1)

floor-pop_front : (c : AuthConversation) (es : List AuthEvent) → floor (pop_front es c).0 ≡ floor c
floor-pop_front c [] = refl
floor-pop_front c (e ∷ es) = refl

pub floor-step : (c : AuthConversation) (call : Call) → Inv c → floor c ≤ floor (after c call)
unfolding step
floor-step c next_event h = omega (arith, floor-pop_front c c.events)
floor-step c call h = ground arith

accepted_floor :
    (c : AuthConversation) (p : PromptId)
    → Inv c
    → (step c (begin_response p)).1 ≡ none
    → (p ≡ floor c) × (floor (after c (begin_response p)) ≡ p + 1)
unfolding step
accepted_floor c p h e = ground arith

answer_refused :
    (c : AuthConversation) (p : PromptId)
    → Inv c
    → (step c (begin_response p)).1 ≢ none
    → after c (begin_response p) ≡ c
unfolding step
answer_refused c p h e = ground arith

-- The prompts that a conversation accepts answers to, over any operations, strictly increase.
answers-Increasing :
    (c : AuthConversation) (calls : List Call) → Inv c → Increasing (floor c) (answers c calls)
unfolding answers
answers-Increasing c [] h = tt
answers-Increasing c (begin_response p ∷ calls) h = ground (
  arith,
  answers-Increasing (after c (begin_response p)) calls (step-Inv c (begin_response p) h),
  accepted_floor c p h,
  answer_refused c p h,
)
answers-Increasing c (call ∷ calls) h =
    Increasing-weaken (floor (after c call)) (floor c) (answers (after c call) calls)
      (floor-step c call h) (answers-Increasing (after c call) calls (step-Inv c call h))

floor-run : (c : AuthConversation) (calls : List Call) → Inv c → floor c ≤ floor (run c calls)
unfolding run
floor-run c [] h = omega arith
floor-run c (call ∷ calls) h =
    omega (arith, floor-step c call h, floor-run (after c call) calls (step-Inv c call h))

-- A prompt that was answered is never answered again: whatever operations follow, a second
-- answer to it is refused.
pub answered_once :
    (c : AuthConversation) (p : PromptId) (calls : List Call)
    → Inv c
    → (step c (begin_response p)).1 ≡ none
    → (step (run (after c (begin_response p)) calls) (begin_response p)).1 ≢ none
answered_once c p calls h first again =
    let now = after c (begin_response p) in
    let later = run now calls in
    let now-Inv = step-Inv c (begin_response p) h in
    omega (
      arith,
      accepted_floor c p h first,
      floor-run now calls now-Inv,
      accepted_floor later p (run-Inv now calls now-Inv) again,
    )
