-- ===== src/Core/Conversation/Delivery.antt =====
-- The events of an `AuthConversation` reach `next_event` in the order in which they were emitted.
use fomalhaut.Common.{none, Option, List, [], ◌∷◌, ◌++◌}
use fomalhaut.Core.Types.{
  AuthEvent, prompt, message, authenticated, authentication_failed, cancelled, CoreError,
}
use fomalhaut.Core.Conversation.{AuthConversation}
use fomalhaut.Core.Conversation.Steps.{
  Call, step, after, begin, emit_prompt, emit_message, authenticate, complete_cancel, reject,
  next_event,
}

-- The event that a successful operation emits.
abbrev pub emitted_by : AuthConversation → Call → Option CoreError → List AuthEvent
emitted_by c (emit_prompt k t) none = prompt c.next_prompt_id k t ∷ []
emitted_by c (emit_message l t) none = message l t ∷ []
emitted_by c (authenticate i) none = authenticated i ∷ []
emitted_by c complete_cancel none = cancelled ∷ []
emitted_by c reject none = authentication_failed ∷ []
emitted_by c _ _ = []

abbrev first : List AuthEvent → List AuthEvent
first [] = []
first (e ∷ es) = e ∷ []

-- What a caller receives from an operation.
abbrev pub delivered_by : AuthConversation → Call → List AuthEvent
delivered_by c next_event = first c.events
delivered_by c _ = []

unfoldable pub emitted : AuthConversation → List Call → List AuthEvent
emitted c [] = []
emitted c (call ∷ calls) = emitted_by c call (step c call).1 ++ emitted (after c call) calls

unfoldable pub delivered : AuthConversation → List Call → List AuthEvent
delivered c [] = []
delivered c (call ∷ calls) = delivered_by c call ++ delivered (after c call) calls

-- No operation of the list begins a new transaction, which drops the pending events.
abbrev pub NoBegin : List Call → Type 0
NoBegin [] = Unit
NoBegin (begin ∷ calls) = ⊥
NoBegin (call ∷ calls) = NoBegin calls
