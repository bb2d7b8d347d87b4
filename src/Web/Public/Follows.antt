-- ===== src/Web/Public/Follows.antt =====
-- Events sent to a theme in several parts (crates/fomalhaut-web/src/controller.rs): each part is numbered
-- behind the part before it.
use fomalhaut.Common.{
  ℕ, ◌+◌, ◌≤◌, List, [], ◌∷◌, ◌++◌, map, Result, ok, err, length, length-append, leb, if-elim, ◌≡◌,
  ◌⊎◌, inl, inr, refl, sym, ap, subst, ◌∙◌, arith,
}
use fomalhaut.Core.Types
use fomalhaut.Web.Protocol.{Event, EventEnvelope, Prompt, AuthMessage}
use fomalhaut.Web.Public.{
  AuthPublicState, ControllerError, envelope_events, apply_core_event, show_prompt, show_message,
}
use fomalhaut.Web.Public.Numbers.{numbered, first_unused, envelope_events-numbered}

abbrev pub events_of : List EventEnvelope → List Event
events_of = map (λ e. e.event)

-- The part `sent` is numbered from `n` on, and `next` is the number behind it; or nothing was sent, and
-- all numbers are spent.
pub record Follows (n : ℕ) (sent : List EventEnvelope) (next : ℕ) : Type 0 where
  pub consecutive : sent ≡ numbered n (events_of sent)
  pub below : next ≤ first_unused
  pub continued : (next ≡ n + length sent) ⊎ ((sent ≡ []) × (next ≡ first_unused))

events_of-numbered : (n : ℕ) (es : List Event) → events_of (numbered n es) ≡ es
events_of-numbered n [] = refl
events_of-numbered n (e ∷ es) = ap (◌∷◌ e) (events_of-numbered (n + 1) es)

length-numbered : (n : ℕ) (es : List Event) → length (numbered n es) ≡ length es
length-numbered n [] = refl
length-numbered n (e ∷ es) = omega (arith, length-numbered (n + 1) es)

-- What a result sends.
abbrev pub sent_by : {A E : Type 0} → (A → List EventEnvelope) → Result A E → List EventEnvelope
sent_by events (ok a) = events a
sent_by events (err e) = []

pub nothing-Follows : (n : ℕ) → n ≤ first_unused → Follows n [] n
nothing-Follows n h = record { consecutive = refl; below = h; continued = inl (omega arith) }

pub envelope_events-Follows :
    (a : AuthPublicState) (events : List Event)
    → a.sequences.next ≤ first_unused
    → let (a', r) = envelope_events a events in
      Follows a.sequences.next (sent_by (λ es. es) r) a'.sequences.next
envelope_events-Follows a events h =
    subst
      (λ (p : AuthPublicState × Result (List EventEnvelope) ControllerError).
        Follows a.sequences.next (sent_by (λ es. es) p.1) p.0.sequences.next)
      (sym (envelope_events-numbered a events h))
      (if-elim
        (λ (p : AuthPublicState × Result (List EventEnvelope) ControllerError).
          Follows a.sequences.next (sent_by (λ es. es) p.1) p.0.sequences.next)
        (leb (a.sequences.next + length events) first_unused) _ _
        (λ t. record {
          consecutive =
              ap (numbered a.sequences.next) (sym (events_of-numbered a.sequences.next events));
          below = ground (arith, t);
          continued = inl (omega (arith, length-numbered a.sequences.next events));
        })
        (λ f. record { consecutive = refl; below = omega arith; continued = inr (refl, refl) }))

map-append : (xs ys : List EventEnvelope) → events_of (xs ++ ys) ≡ events_of xs ++ events_of ys
map-append [] ys = refl
map-append (x ∷ xs) ys = ap (◌∷◌ x.event) (map-append xs ys)

numbered-append :
    (n : ℕ) (es fs : List Event)
    → numbered n (es ++ fs) ≡ numbered n es ++ numbered (n + length es) fs
numbered-append n [] fs = ap (λ (m : ℕ). numbered m fs) (omega arith)
numbered-append n (e ∷ es) fs = ap (◌∷◌ (record { sequence = n; event = e })) (
    numbered-append (n + 1) es fs
    ∙ ap (λ (m : ℕ). numbered (n + 1) es ++ numbered m fs) (omega arith))

-- Two parts after one another.
pub record IsConsecutive (n : ℕ) (sent : List EventEnvelope) : Type 0 where
  pub consecutive : sent ≡ numbered n (events_of sent)
  pub below : n + length sent ≤ first_unused

length-events_of : (xs : List EventEnvelope) → length (events_of xs) ≡ length xs
length-events_of [] = refl
length-events_of (x ∷ xs) = omega (arith, length-events_of xs)

length-zero : (xs : List EventEnvelope) → length xs ≤ 0 → xs ≡ []
length-zero [] h = refl
length-zero (x ∷ xs) h = absurd (omega arith)

pub Follows-append :
    (n m : ℕ) (xs ys : List EventEnvelope)
    → n ≤ first_unused
    → Follows n xs m
    → IsConsecutive m ys
    → IsConsecutive n (xs ++ ys)
Follows-append n m xs ys h f g = elim f.continued [
  | inl e ↦ record {
    consecutive = cc (
      f.consecutive,
      g.consecutive,
      map-append xs ys,
      e,
      length-events_of xs,
      numbered-append n (events_of xs) (events_of ys),
    );
    below = omega (arith, length-append xs ys, e, g.below);
  }
  | inr (e, s) ↦
      subst (IsConsecutive n)
        (sym (
          ap (λ (zs : List EventEnvelope). zs ++ ys) e
          ∙ length-zero ys (omega (arith, s, g.below))))
        (record { consecutive = refl; below = omega arith })
]

show_prompt-sequences :
    (a : AuthPublicState) (id : ℕ) (r : Result Prompt ControllerError)
    → (show_prompt a id r).0.sequences ≡ a.sequences
show_prompt-sequences a id (ok p) = refl
show_prompt-sequences a id (err e) = refl

show_message-sequences :
    (a : AuthPublicState) (r : Result AuthMessage ControllerError)
    → (show_message a r).0.sequences ≡ a.sequences
show_message-sequences a (ok m) = refl
show_message-sequences a (err e) = refl

pub apply_core_event-sequences :
    (a : AuthPublicState) (e : Types.AuthEvent) → (apply_core_event a e).0.sequences ≡ a.sequences
unfolding apply_core_event
apply_core_event-sequences a (Types.prompt id kind text) = show_prompt-sequences a id _
apply_core_event-sequences a (Types.message level text) = show_message-sequences a _
apply_core_event-sequences a (Types.authenticated identity) = refl
apply_core_event-sequences a Types.authentication_failed = refl
apply_core_event-sequences a Types.cancelled = refl
