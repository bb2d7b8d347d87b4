-- ===== src/Core/Conversation/Steps.antt =====
-- Any sequence of operations on one `AuthConversation`, as crates/fomalhaut-core/src/conversation.rs
-- offers them to a backend.
use fomalhaut.Common.{Option, none, some, List, [], ◌∷◌, Result, ok, err, ◌≡◌, arith}
use fomalhaut.Core.Types.{
  Text, PromptId, PromptKind, MessageLevel, AuthenticatedIdentity, CoreError,
}
use fomalhaut.Core.Conversation.{AuthConversation}
use fomalhaut.Core.Conversation

pub data Call : Type 0 where
  begin : Call
  begin_response : PromptId → Call
  emit_prompt : PromptKind → Text → Call
  emit_message : MessageLevel → Text → Call
  authenticate : AuthenticatedIdentity → Call
  begin_cancel complete_cancel reject fail disconnect next_event : Call

abbrev pub error_of {ℓ κ} : {A : Type ℓ} {E : Type κ} → Result A E → Option E
error_of (ok a) = none
error_of (err e) = some e

unfoldable pub step : AuthConversation → Call → AuthConversation × Option CoreError
unfolding Conversation.begin Conversation.begin_response Conversation.emit_prompt
    Conversation.emit_message Conversation.authenticate Conversation.begin_cancel
    Conversation.complete_cancel Conversation.reject Conversation.fail Conversation.disconnect
    Conversation.next_event
step c begin = let (c', r) = Conversation.begin c in (c', error_of r)
step c (begin_response p) = let (c', r) = Conversation.begin_response c p in (c', error_of r)
step c (emit_prompt k t) = let (c', r) = Conversation.emit_prompt c k t in (c', error_of r)
step c (emit_message l t) = let (c', r) = Conversation.emit_message c l t in (c', error_of r)
step c (authenticate i) = let (c', r) = Conversation.authenticate c i in (c', error_of r)
step c begin_cancel = let (c', r) = Conversation.begin_cancel c in (c', error_of r)
step c complete_cancel = let (c', r) = Conversation.complete_cancel c in (c', error_of r)
step c reject = let (c', r) = Conversation.reject c in (c', error_of r)
step c fail = (Conversation.fail c, none)
step c disconnect = (Conversation.disconnect c, none)
step c next_event = let (c', r) = Conversation.next_event c in (c', error_of r)

abbrev pub after : AuthConversation → Call → AuthConversation
after c call = (step c call).0

unfoldable pub run : AuthConversation → List Call → AuthConversation
run c [] = c
run c (call ∷ calls) = run (after c call) calls

next_event_unchanged :
    (c : AuthConversation) {e : CoreError} → (step c next_event).1 ≡ some e → after c next_event ≡ c
unfolding step
next_event_unchanged c h = ground arith

-- An operation that returns an error leaves the whole conversation as it was.
step_error_unchanged :
    (c : AuthConversation) (call : Call) {e : CoreError}
    → (step c call).1 ≡ some e
    → after c call ≡ c
unfolding step
step_error_unchanged c next_event h = next_event_unchanged c h
step_error_unchanged c call h = ground arith
