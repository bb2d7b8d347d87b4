-- ===== src/Web/Public/Shown.antt =====
-- What crates/fomalhaut-web/src/controller.rs keeps of the core's events for a theme.
use fomalhaut.Common.{
  ℕ, ◌-◌, ◌≤◌, true, false, Option, none, some, List, [], ◌∷◌, ◌++◌, drop, Result, ok, >=>-eq-ok,
  map_err-eq-ok, ok-injective, sym, subst, err, map_err, if◌then◌else◌, ◌==◌, length, length-append,
  All, ◌≡◌, refl, ap, ◌∙◌, if-elim, arith,
}
use fomalhaut.Core.Types
use fomalhaut.Core.Types.{Text}
use fomalhaut.Web.Protocol.{
  EventSequence, Prompt, PromptKind, MessageLevel, AuthMessage, Event, new_prompt_id, new_prompt,
  new_message, validate_text,
}
use fomalhaut.Web.Public.{
  ControllerError, AuthPublicState, prompt_kind, message_level, new, reset_conversation,
  update_state, show_prompt, show_message, close, apply_core_event,
}

-- What happens to the public state.
pub data Change : Type 0 where
  resets : Change
  updates : Types.AuthState → Change
  applies : Types.AuthEvent → Change

abbrev pub change : AuthPublicState → Change → AuthPublicState
change a resets = reset_conversation a
change a (updates state) = update_state a state
change a (applies event) = (apply_core_event a event).0

abbrev pub changes : AuthPublicState → List Change → AuthPublicState
changes a [] = a
changes a (c ∷ cs) = changes (change a c) cs

abbrev prompt_number : Option Prompt → Option ℕ
prompt_number none = none
prompt_number (some p) = some p.prompt_id

abbrev IsValidPrompt : Option Prompt → Type 0
IsValidPrompt none = Unit
IsValidPrompt (some p) =
    (p.prompt_id ≤ 9007199254740991) × (validate_text p.message 4096 true false ≡ ok tt)

abbrev IsValidMessage : AuthMessage → Type 0
IsValidMessage m = validate_text m.text 4096 true false ≡ ok tt

-- The prompt that a theme sees is the one that the core has active, and all is within the limits.
pub record IsShown (a : AuthPublicState) : Type 0 where
  pub same_prompt : a.core_prompt ≡ prompt_number a.prompt
  pub valid_prompt : IsValidPrompt a.prompt
  pub few_messages : length a.messages ≤ 16
  pub valid_messages : All IsValidMessage a.messages

All-append :
    (ms : List AuthMessage) (m : AuthMessage)
    → All IsValidMessage ms
    → IsValidMessage m
    → All IsValidMessage (ms ++ m ∷ [])
All-append [] m h v = (v, tt)
All-append (x ∷ ms) m h v = (h.0, All-append ms m h.1 v)

length-drop_one : (ms : List AuthMessage) → length (drop 1 ms) ≡ length ms - 1
length-drop_one [] = omega arith
length-drop_one (m ∷ ms) = omega arith

All-drop_one : (ms : List AuthMessage) → All IsValidMessage ms → All IsValidMessage (drop 1 ms)
All-drop_one [] h = tt
All-drop_one (m ∷ ms) h = h.1

record Room (ms : List AuthMessage) : Type 0 where
  left : length ms ≤ 15
  sound : All IsValidMessage ms

room :
    (ms : List AuthMessage)
    → length ms ≤ 16
    → All IsValidMessage ms
    → Room (if length ms == 16 then drop 1 ms else ms)
room ms l v =
    if-elim Room (length ms == 16) _ _
      (λ e. record { left = ground (arith, length-drop_one ms); sound = All-drop_one ms v })
      (λ n. record { left = ground arith; sound = v })

new_prompt_id-eq-ok : (id n : ℕ) → new_prompt_id id ≡ ok n → (n ≡ id) × (id ≤ 9007199254740991)
unfolding new_prompt_id
new_prompt_id-eq-ok id n h = ground arith

new_prompt-eq-ok :
    (n : ℕ) (kind : PromptKind) (text : Text) (p : Prompt)
    → new_prompt n kind text ≡ ok p
    → (p.prompt_id ≡ n) × (validate_text p.message 4096 true false ≡ ok tt)
unfolding new_prompt
new_prompt-eq-ok n kind text p h =
    let (_, v, h) = >=>-eq-ok (validate_text text 4096 true false) _ h in
    subst (λ p. (p.prompt_id ≡ n) × (validate_text p.message 4096 true false ≡ ok tt))
      (ok-injective h) (refl, v)

new_message-eq-ok :
    (level : MessageLevel) (text : Text) (m : AuthMessage)
    → new_message level text ≡ ok m
    → IsValidMessage m
unfolding new_message
new_message-eq-ok level text m h =
    let (_, v, h) = >=>-eq-ok (validate_text text 4096 true false) _ h in
    subst IsValidMessage (ok-injective h) v

show_prompt-IsShown :
    (a : AuthPublicState) (id : ℕ) (r : Result Prompt ControllerError)
    → ((p : Prompt) → r ≡ ok p → (p.prompt_id ≡ id) × IsValidPrompt (some p))
    → IsShown a
    → IsShown (show_prompt a id r).0
show_prompt-IsShown a id (ok p) v h = record {
  same_prompt = ap some (sym (v p refl).0);
  valid_prompt = (v p refl).1;
  few_messages = h.few_messages;
  valid_messages = h.valid_messages;
}
show_prompt-IsShown a id (err e) v h = h

apply_prompt-IsShown :
    (a : AuthPublicState) (id : ℕ) (kind : Types.PromptKind) (text : Text)
    → IsShown a
    → IsShown (apply_core_event a (Types.prompt id kind text)).0
unfolding apply_core_event
apply_prompt-IsShown a id kind text h =
    show_prompt-IsShown a id _
      (λ p r.
        let (n, i, r) = >=>-eq-ok (map_err _ (new_prompt_id id)) _ r in
        let (same, small) = new_prompt_id-eq-ok id n (map_err-eq-ok _ (new_prompt_id id) i) in
        let (q, v) =
          new_prompt-eq-ok n (prompt_kind kind) text p
            (map_err-eq-ok _ (new_prompt n (prompt_kind kind) text) r) in
        (q ∙ same, (omega (arith, q, same, small), v)))
      h

show_message-IsShown :
    (a : AuthPublicState) (r : Result AuthMessage ControllerError)
    → ((m : AuthMessage) → r ≡ ok m → IsValidMessage m)
    → IsShown a
    → IsShown (show_message a r).0
show_message-IsShown a (err e) v h = h
show_message-IsShown a (ok m) v h =
    let r = room a.messages h.few_messages h.valid_messages in
    record {
      same_prompt = h.same_prompt;
      valid_prompt = h.valid_prompt;
      few_messages = omega (
        arith,
        r.left,
        length-append (if length a.messages == 16 then drop 1 a.messages else a.messages) (m ∷ []),
      );
      valid_messages = All-append _ m r.sound (v m refl);
    }

apply_message-IsShown :
    (a : AuthPublicState) (level : Types.MessageLevel) (text : Text)
    → IsShown a
    → IsShown (apply_core_event a (Types.message level text)).0
unfolding apply_core_event
apply_message-IsShown a level text h =
    show_message-IsShown a _
      (λ m r.
        new_message-eq-ok (message_level level) text m
          (map_err-eq-ok _ (new_message (message_level level) text) r))
      h

pub close-IsShown : (a : AuthPublicState) (e : Event) → IsShown a → IsShown (close a e).0
close-IsShown a e h = record {
  same_prompt = refl;
  valid_prompt = tt;
  few_messages = h.few_messages;
  valid_messages = h.valid_messages;
}

pub numbered-IsShown :
    (a : AuthPublicState) (s : EventSequence) → IsShown a → IsShown (record a { sequences = s })
numbered-IsShown a s h = record {
  same_prompt = h.same_prompt;
  valid_prompt = h.valid_prompt;
  few_messages = h.few_messages;
  valid_messages = h.valid_messages;
}

apply_core_event-IsShown :
    (a : AuthPublicState) (e : Types.AuthEvent) → IsShown a → IsShown (apply_core_event a e).0
unfolding apply_core_event
apply_core_event-IsShown a (Types.prompt id kind text) h = apply_prompt-IsShown a id kind text h
apply_core_event-IsShown a (Types.message level text) h = apply_message-IsShown a level text h
apply_core_event-IsShown a (Types.authenticated identity) h = close-IsShown a Event.auth_succeeded h
apply_core_event-IsShown a Types.authentication_failed h = close-IsShown a Event.auth_failed h
apply_core_event-IsShown a Types.cancelled h = close-IsShown a Event.auth_cancelled h

pub change-IsShown : (a : AuthPublicState) (c : Change) → IsShown a → IsShown (change a c)
unfolding reset_conversation update_state
change-IsShown a resets h = record {
  same_prompt = refl;
  valid_prompt = tt;
  few_messages = omega arith;
  valid_messages = tt;
}
change-IsShown a (updates state) h = record {
  same_prompt = h.same_prompt;
  valid_prompt = h.valid_prompt;
  few_messages = h.few_messages;
  valid_messages = h.valid_messages;
}
change-IsShown a (applies e) h = apply_core_event-IsShown a e h

changes-IsShown_from : (a : AuthPublicState) (cs : List Change) → IsShown a → IsShown (changes a cs)
changes-IsShown_from a [] h = h
changes-IsShown_from a (c ∷ cs) h = changes-IsShown_from (change a c) cs (change-IsShown a c h)

-- Whatever core events a new public state is given, and however it is reset and updated between
-- them, also where an event is refused, the prompt that it shows has the number of the core's active
-- prompt, or both are none; that number is at most 2 ^ 53 - 1; at most 16 messages are kept; and the
-- texts of the prompt and the messages pass validate_text with 4096 bytes.
pub changes-IsShown :
    (state : Types.AuthState) (cs : List Change) → IsShown (changes (new state) cs)
unfolding new
changes-IsShown state cs = changes-IsShown_from (new state) cs (record {
  same_prompt = refl;
  valid_prompt = tt;
  few_messages = omega arith;
  valid_messages = tt;
})
