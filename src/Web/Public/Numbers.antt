-- ===== src/Web/Public/Numbers.antt =====
-- The numbers of the events that crates/fomalhaut-web/src/controller.rs sends to a theme.
use fomalhaut.Common.{
  ℕ, ◌+◌, ◌≤◌, ◌<◌, List, [], ◌∷◌, Result, ok, err, leb, if◌then◌else◌, length, ◌==◌, ◌>=>◌,
  Bool-cases, inl, inr, if-elim, ◌≡◌, ap, ◌∙◌, arith,
}
use fomalhaut.Web.Protocol.{Event, EventEnvelope, EventSequence, allocate, sequence_exhausted}
use fomalhaut.Web.Public.{
  ControllerError, controller_error, AuthPublicState, enveloped, number_events, envelope_events,
}

-- The events with the numbers from one on.
abbrev pub numbered : ℕ → List Event → List EventEnvelope
numbered n [] = []
numbered n (e ∷ es) = record { sequence = n; event = e } ∷ numbered (n + 1) es

-- 2 ^ 53, the first number that is not used.
abbrev pub first_unused : ℕ
first_unused = 9007199254740992

abbrev pub exhausted : ControllerError
exhausted = controller_error "the frontend event sequence is exhausted"

allocate-ok :
    (s : EventSequence)
    → s.next < first_unused
    → allocate s ≡ (record { next = s.next + 1 }, ok s.next)
unfolding allocate
allocate-ok s h = ground arith

allocate-err :
    (s : EventSequence) → s.next ≡ first_unused → allocate s ≡ (s, err sequence_exhausted)
unfolding allocate
allocate-err s h = ground arith

abbrev Numbering : Type 0
Numbering = EventSequence × Result (List EventEnvelope) ControllerError

abbrev put : ℕ → Event → Numbering → Numbering
put n e (t, r) = (t, r >=> λ es. ok (record { sequence = n; event = e } ∷ es))

number_events-ok :
    (s : EventSequence) (events : List Event)
    → s.next + length events ≤ first_unused
    → number_events s events
      ≡ (record { next = s.next + length events }, ok (numbered s.next events))
unfolding number_events
number_events-ok s [] h = ground arith
number_events-ok s (e ∷ es) h =
    ap (enveloped e (λ s. number_events s es)) (allocate-ok s (omega arith))
    ∙ ap (put s.next e) (number_events-ok (record { next = s.next + 1 }) es (omega arith))
    ∙ ap (λ (n : ℕ). put s.next e (record { next = n }, ok (numbered (s.next + 1) es)))
        (omega arith)

number_events-err :
    (s : EventSequence) (events : List Event)
    → s.next ≤ first_unused
    → first_unused < s.next + length events
    → number_events s events ≡ (record { next = first_unused }, err exhausted)
unfolding number_events
number_events-err s [] h i = absurd (omega arith)
number_events-err s (e ∷ es) h i = elim (Bool-cases (s.next == first_unused)) [
  | inl t ↦
      ap (enveloped e (λ s. number_events s es)) (allocate-err s (ground arith))
      ∙ ap (λ (n : ℕ). (record { next = n }, err exhausted)) (ground arith)
  | inr f ↦
      ap (enveloped e (λ s. number_events s es)) (allocate-ok s (ground arith))
      ∙ ap (put s.next e)
          (number_events-err (record { next = s.next + 1 }) es (ground arith) (omega arith))
]

abbrev with_sequences :
    AuthPublicState → Numbering → AuthPublicState × Result (List EventEnvelope) ControllerError
with_sequences a (s, r) = (record a { sequences = s }, r)

-- While the numbers last, envelope_events gives the events in their order, numbered one by one from
-- the next number, and leaves the number behind the last as the next; when they do not last, it
-- fails, and every number is spent. The rest of the state is as it was.
pub envelope_events-numbered :
    (a : AuthPublicState) (events : List Event)
    → a.sequences.next ≤ first_unused
    → envelope_events a events ≡ (
        if leb (a.sequences.next + length events) first_unused
        then (
          record a { sequences = record { next = a.sequences.next + length events } },
          ok (numbered a.sequences.next events),
        )
        else (record a { sequences = record { next = first_unused } }, err exhausted))
unfolding envelope_events
envelope_events-numbered a events h =
    if-elim (λ x. envelope_events a events ≡ x)
      (leb (a.sequences.next + length events) first_unused) _ _
      (λ t. ap (with_sequences a) (number_events-ok a.sequences events (ground arith)))
      (λ f. ap (with_sequences a) (number_events-err a.sequences events h (ground arith)))
