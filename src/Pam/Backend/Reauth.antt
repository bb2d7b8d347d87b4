-- ===== src/Pam/Backend/Reauth.antt =====
-- crates/fomalhaut-pam/src/backend.rs: `PamReauthBackend` as a `ReauthBackend`. Every call returns,
-- because the backend is sound.
use fomalhaut.Common.{
  true, not, ◌||◌, is_some, sym, subst, ◌<◌, Option, none, some, List, [], ◌∷◌, Result, ok, map_err,
  length, ◌≡◌, refl, arith,
}
use fomalhaut.Core.Types.{AuthState, AuthEvent, BackendError, core}
use fomalhaut.Core.Conversation
use fomalhaut.Core.Conversation.{is_waiting, AuthConversation, pop_front}
use fomalhaut.Pam.Backend.{PamReauthBackend, begin_transaction, answer_prompt, cancel_transaction}
use fomalhaut.Pam.Backend.Invariant.{may_have_worker, is_settled, IsSound, Settles}
use fomalhaut.Pam.Backend.Calls.{
  begin_transaction-Settles, answer_prompt-Settles, cancel_transaction-IsSound,
}
use fomalhaut.Web.Client.{ConversationBackend, ReauthBackend}

pub record SoundBackend : Type 0 where
  pub backend : PamReauthBackend
  pub sound : IsSound backend

-- What a call that settles returns.
abbrev pub settled :
    (o : Option (PamReauthBackend × Result (Unit {0}) BackendError))
    → Settles o
    → SoundBackend × Result (Unit {0}) BackendError
settled (some (b, r)) h = (record { backend = b; sound = h }, r)
settled none h = elim h [ ]

pub next_event-state :
    (c : AuthConversation) (es : List AuthEvent) → (pop_front es c).0.state ≡ c.state
next_event-state c [] = refl
next_event-state c (e ∷ es) = refl

pub pop_front-falls :
    (c : AuthConversation) (es : List AuthEvent) (e : AuthEvent)
    → map_err core (pop_front es c).1 ≡ ok e
    → c.events ≡ es
    → length (pop_front es c).0.events < length es
pop_front-falls c [] e h i = cc
pop_front-falls c (x ∷ xs) e h i = omega arith

-- The field `conversation`, after an event was taken.
abbrev pub taken : PamReauthBackend → PamReauthBackend
unfolding Conversation.next_event
taken b = record b { conversation = (Conversation.next_event b.conversation).0 }

IsSound-with :
    (b : PamReauthBackend) (c : AuthConversation)
    → c.state ≡ b.conversation.state
    → IsSound b
    → IsSound (record b { conversation = c })
IsSound-with b c e h = record {
  prompted = subst (λ (s : AuthState). is_some b.worker_prompt ≡ is_waiting s) (sym e) h.prompted;
  manned =
      subst (λ (s : AuthState). not (is_waiting s) || is_some b.worker ≡ true) (sym e) h.manned;
  freed =
      subst (λ (s : AuthState). may_have_worker s || not (is_some b.worker) ≡ true) (sym e) h.freed;
  settled = subst (λ (s : AuthState). is_settled s ≡ true) (sym e) h.settled;
  named = h.named;
}

pub taken-IsSound : (b : PamReauthBackend) → IsSound b → IsSound (taken b)
unfolding Conversation.next_event
taken-IsSound b =
    IsSound-with b (taken b).conversation (next_event-state b.conversation b.conversation.events)

unfoldable pub pam_conversation : ConversationBackend SoundBackend
unfolding Conversation.needs_cancel Conversation.next_event answer_prompt cancel_transaction
pam_conversation = record {
  state = λ s. s.backend.conversation.state;
  needs_cancel = λ s. Conversation.needs_cancel s.backend.conversation;
  respond = λ s p response.
      settled (answer_prompt s.backend p response)
        (answer_prompt-Settles s.backend p response s.sound);
  cancel = λ s. (
    record {
      backend = (cancel_transaction s.backend).0;
      sound = cancel_transaction-IsSound s.backend s.sound;
    },
    (cancel_transaction s.backend).1,
  );
  next_event = λ s. (
    record { backend = taken s.backend; sound = taken-IsSound s.backend s.sound },
    map_err core (Conversation.next_event s.backend.conversation).1,
  );
  pending = λ s. length s.backend.conversation.events;
  pending_falls =
      λ s e h. pop_front-falls s.backend.conversation s.backend.conversation.events e h refl;
}

unfoldable pub pam_reauth : ReauthBackend SoundBackend
unfolding begin_transaction pam_conversation
pam_reauth = record {
  conversation = pam_conversation;
  begin_reauth =
      λ s. settled (begin_transaction s.backend) (begin_transaction-Settles s.backend s.sound);
}
