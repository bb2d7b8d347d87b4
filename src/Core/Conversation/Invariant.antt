-- ===== src/Core/Conversation/Invariant.antt =====
-- What holds of an `AuthConversation` between two operations.
use fomalhaut.Common.{
  ℕ, ◌+◌, ◌-◌, ◌≤◌, if◌then◌else◌, none, some, List, [], ◌∷◌, ◌++◌, ◌≡◌, refl, arith,
}
use fomalhaut.Core.Types.{
  Text, PromptKind, AuthEvent, prompt, message, authenticated, authentication_failed, cancelled,
}
use fomalhaut.Core.Conversation.{AuthConversation, u64_max, is_waiting, new, pop_front}
use fomalhaut.Core.Conversation.Steps.{
  Call, step, after, run, begin, begin_response, emit_prompt, emit_message, authenticate,
  begin_cancel, complete_cancel, reject, fail, disconnect, next_event,
}

-- The prompts of a queue have identifiers from `low` on, in strictly ascending order, below `high`.
abbrev pub Ascending : ℕ → ℕ → List AuthEvent → Type 0
Ascending low high [] = low ≤ high
Ascending low high (prompt id kind text ∷ es) = (low ≤ id) × Ascending (id + 1) high es
Ascending low high (e ∷ es) = Ascending low high es

pub record Inv (c : AuthConversation) : Type 0 where
  pub awaited : c.active_prompt ≡ (if is_waiting c.state then some (c.next_prompt_id - 1) else none)
  pub positive : 1 ≤ c.next_prompt_id
  pub bounded : c.next_prompt_id ≤ u64_max
  pub queued : Ascending 1 c.next_prompt_id c.events

pub new-Inv : Inv new
unfolding new
new-Inv = ground arith

Ascending-prompt :
    (low high : ℕ) (es : List AuthEvent) (kind : PromptKind) (text : Text)
    → Ascending low high es
    → Ascending low (high + 1) (es ++ prompt high kind text ∷ [])
Ascending-prompt low high [] kind text h = omega arith
Ascending-prompt low high (prompt id k t ∷ es) kind text h =
    (h.0, Ascending-prompt (id + 1) high es kind text h.1)
Ascending-prompt low high (message l t ∷ es) kind text h = Ascending-prompt low high es kind text h
Ascending-prompt low high (authenticated i ∷ es) kind text h =
    Ascending-prompt low high es kind text h
Ascending-prompt low high (authentication_failed ∷ es) kind text h =
    Ascending-prompt low high es kind text h
Ascending-prompt low high (cancelled ∷ es) kind text h = Ascending-prompt low high es kind text h

-- An event that is no prompt.
abbrev Plain : AuthEvent → Type 0
Plain (prompt id k t) = ⊥
Plain e = Unit

Ascending-Plain :
    (low high : ℕ) (es : List AuthEvent) (e : AuthEvent)
    → Plain e
    → Ascending low high es
    → Ascending low high (es ++ e ∷ [])
Ascending-Plain low high [] (prompt id k t) p h = absurd p
Ascending-Plain low high [] e p h = h
Ascending-Plain low high (prompt id k t ∷ es) e p h =
    (h.0, Ascending-Plain (id + 1) high es e p h.1)
Ascending-Plain low high (message l t ∷ es) e p h = Ascending-Plain low high es e p h
Ascending-Plain low high (authenticated i ∷ es) e p h = Ascending-Plain low high es e p h
Ascending-Plain low high (authentication_failed ∷ es) e p h = Ascending-Plain low high es e p h
Ascending-Plain low high (cancelled ∷ es) e p h = Ascending-Plain low high es e p h

Ascending-weaken :
    (low low' high : ℕ) (es : List AuthEvent)
    → low' ≤ low
    → Ascending low high es
    → Ascending low' high es
Ascending-weaken low low' high [] l h = omega arith
Ascending-weaken low low' high (prompt id k t ∷ es) l h = (omega arith, h.1)
Ascending-weaken low low' high (message m t ∷ es) l h = Ascending-weaken low low' high es l h
Ascending-weaken low low' high (authenticated i ∷ es) l h = Ascending-weaken low low' high es l h
Ascending-weaken low low' high (authentication_failed ∷ es) l h =
    Ascending-weaken low low' high es l h
Ascending-weaken low low' high (cancelled ∷ es) l h = Ascending-weaken low low' high es l h

Ascending-tail :
    (high : ℕ) (e : AuthEvent) (es : List AuthEvent)
    → Ascending 1 high (e ∷ es)
    → Ascending 1 high es
Ascending-tail high (prompt id k t) es h = Ascending-weaken (id + 1) 1 high es (omega arith) h.1
Ascending-tail high (message m t) es h = h
Ascending-tail high (authenticated i) es h = h
Ascending-tail high authentication_failed es h = h
Ascending-tail high cancelled es h = h

pop_front-Inv :
    (c : AuthConversation) (es : List AuthEvent) → c.events ≡ es → Inv c → Inv (pop_front es c).0
pop_front-Inv c [] q h = h
pop_front-Inv c (e ∷ es) q h = record {
  awaited = h.awaited;
  positive = h.positive;
  bounded = h.bounded;
  queued = Ascending-tail c.next_prompt_id e es (rw q at h.queued);
}

-- Every operation, whether it succeeds or is refused, keeps the invariant.
pub step-Inv : (c : AuthConversation) (call : Call) → Inv c → Inv (after c call)
unfolding step
step-Inv c (emit_prompt k t) h =
    ground (arith, Ascending-prompt 1 c.next_prompt_id c.events k t h.queued)
step-Inv c (emit_message l t) h =
    ground (arith, Ascending-Plain 1 c.next_prompt_id c.events (message l t) tt h.queued)
step-Inv c (authenticate i) h =
    ground (arith, Ascending-Plain 1 c.next_prompt_id c.events (authenticated i) tt h.queued)
step-Inv c complete_cancel h =
    ground (arith, Ascending-Plain 1 c.next_prompt_id c.events cancelled tt h.queued)
step-Inv c reject h =
    ground (arith, Ascending-Plain 1 c.next_prompt_id c.events authentication_failed tt h.queued)
step-Inv c next_event h = pop_front-Inv c c.events refl h
step-Inv c begin h = ground arith
step-Inv c (begin_response p) h = ground arith
step-Inv c begin_cancel h = ground arith
step-Inv c fail h = ground arith
step-Inv c disconnect h = ground arith

-- Every conversation reached from `new` by any operations satisfies the invariant.
pub run-Inv : (c : AuthConversation) (calls : List Call) → Inv c → Inv (run c calls)
unfolding run
run-Inv c [] h = h
run-Inv c (call ∷ calls) h = run-Inv (after c call) calls (step-Inv c call h)
