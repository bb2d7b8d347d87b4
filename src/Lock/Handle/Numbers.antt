-- ===== src/Lock/Handle/Numbers.antt =====
-- The numbers that crates/fomalhaut-lock/src/controller_worker.rs gives to the views.
use mathlib.Core.List.{append_assoc, append-nil}
use fomalhaut.Common.{
  ℕ, ◌+◌, ◌≤◌, ◌<◌, Bool, true, false, Option, none, some, List, [], ◌∷◌, ◌++◌, Result, ok, err,
  leb, get_elem?, All, All-concat, All-imp, if-elim, ◌≡◌, refl, sym, ap, subst, ◌∙◌, arith,
}
use fomalhaut.Core.Conversation.Replay.{Increasing}
use fomalhaut.Lock.Worker.{Channel, Output}
use fomalhaut.Lock.Worker.Commands.{WorkerCommand, register, detach, shutdown}
use fomalhaut.Lock.Handle.{
  Handles, ViewController, TrySendError, SubmitError, offer, try_send, registered_view,
  register_view, from_view, submit, cancel_page, mark_detached, detach_view, shutdown_view,
  shut_down, Notice, notice, Call, registers, submits, cancels, closes, tells, stops, step, run,
  spawn,
}

abbrev number_of : WorkerCommand → List ℕ
number_of (register view output) = view ∷ []
number_of _ = []

abbrev pub registered : List WorkerCommand → List ℕ
registered [] = []
registered (c ∷ cs) = number_of c ++ registered cs

registered-concat :
    (cs : List WorkerCommand) (c : WorkerCommand)
    → registered (cs ++ c ∷ []) ≡ registered cs ++ number_of c
registered-concat [] c = append-nil (number_of c)
registered-concat (d ∷ cs) c =
    rw (registered-concat cs c, append_assoc (number_of d) (registered cs) (number_of c))

Increasing-concat :
    (low n : ℕ) (xs : List ℕ)
    → low ≤ n
    → Increasing low xs
    → All (λ x. x < n) xs
    → Increasing low (xs ++ n ∷ [])
Increasing-concat low n [] l h k = (l, tt)
Increasing-concat low n (x ∷ xs) l h k =
    (h.0, Increasing-concat (x + 1) n xs (ground (arith, k.0)) h.1 k.1)

-- The numbers that were given, below the next one, which is a word of 64 bits.
record HasNumbers (next : ℕ) (numbers : List ℕ) : Type 0 where
  positive : 1 ≤ next
  word : next ≤ 18446744073709551615
  increasing : Increasing 1 numbers
  below : All (λ x. x < next) numbers

abbrev Numbered : Handles → Type 0
Numbered h = HasNumbers h.next_view (registered h.sent)

pushed-Numbered :
    (next : ℕ) (cs : List WorkerCommand) (c : WorkerCommand)
    → number_of c ≡ []
    → HasNumbers next (registered cs)
    → HasNumbers next (registered (cs ++ c ∷ []))
pushed-Numbered next cs c e h =
    subst (HasNumbers next)
      (sym (registered-concat cs c ∙ ap (λ ns. registered cs ++ ns) e ∙ append-nil (registered cs)))
      h

offer-Numbered :
    (answers : List (Result (Unit {0}) TrySendError)) (h : Handles) (c : WorkerCommand)
    → number_of c ≡ []
    → Numbered h
    → Numbered (offer answers c h).0
offer-Numbered [] h c e n = n
offer-Numbered (err x ∷ rest) h c e n = n
offer-Numbered (ok u ∷ rest) h c e n = pushed-Numbered h.next_view h.sent c e n

given-Numbered :
    (next : ℕ) (numbers : List ℕ)
    → leb 18446744073709551615 next ≡ false
    → HasNumbers next numbers
    → HasNumbers (next + 1) (numbers ++ next ∷ [])
given-Numbered next numbers e h = record {
  positive = omega arith;
  word = ground (arith, e);
  increasing = Increasing-concat 1 next numbers h.positive h.increasing h.below;
  below =
      All-concat (λ x. x < next + 1) numbers next
        (All-imp (λ x. x < next) (λ x. x < next + 1) (λ x l. omega arith) numbers h.below)
        (omega arith);
}

registered_view-Numbered :
    (answers : List (Result (Unit {0}) TrySendError)) (h : Handles) (output : Channel Output)
    → leb 18446744073709551615 h.next_view ≡ false
    → Numbered h
    → Numbered (registered_view h.next_view (offer answers (register h.next_view output) h)).0
registered_view-Numbered [] h output e n = n
registered_view-Numbered (err x ∷ rest) h output e n = n
registered_view-Numbered (ok u ∷ rest) h output e n =
    subst (HasNumbers (h.next_view + 1))
      (sym (registered-concat h.sent (register h.next_view output)))
      (given-Numbered h.next_view (registered h.sent) e n)

from_view-Numbered :
    (h : Handles) (v : Option ViewController) (c : ViewController → WorkerCommand)
    → ((v : ViewController) → number_of (c v) ≡ [])
    → Numbered h
    → Numbered (from_view h v c).0
unfolding from_view try_send
from_view-Numbered h none c e n = n
from_view-Numbered h (some v) c e n =
    if-elim (λ (p : Handles × Result (Unit {0}) SubmitError). Numbered p.0) v.detached _ _ (λ t. n)
      (λ f. offer-Numbered h.answers h (c v) (e v) n)

detach_view-Numbered :
    (h : Handles) (at : ℕ) (v : Option ViewController) → Numbered h → Numbered (detach_view h at v)
unfolding detach_view try_send
detach_view-Numbered h at none n = n
detach_view-Numbered h at (some v) n =
    if-elim Numbered v.detached _ _ (λ t. n)
      (λ f.
        offer-Numbered h.answers (record h { views = mark_detached at h.views }) (detach v.view)
          refl n)

notice_number : (t : Notice) → number_of (notice t) ≡ []
notice_number t = ground arith

shut_down-Numbered : (h : Handles) (there : Bool) → Numbered h → Numbered (shut_down h there)
unfolding shut_down
shut_down-Numbered h true n =
    if-elim Numbered h.thread _ _ (λ t. pushed-Numbered h.next_view h.sent shutdown refl n) (λ f. n)
shut_down-Numbered h false n = if-elim Numbered h.thread _ _ (λ t. n) (λ f. n)

step-Numbered : (h : Handles) (c : Call) → Numbered h → Numbered (step h c)
unfolding step register_view submit cancel_page shutdown_view try_send
step-Numbered h (registers output) n =
    if-elim (λ (p : Handles × Result (Unit {0}) _). Numbered p.0)
      (leb 18446744073709551615 h.next_view) _ _ (λ t. n)
      (λ f. registered_view-Numbered h.answers h output f n)
step-Numbered h (submits at epoch r) n = from_view-Numbered h (get_elem? h.views at) _ (λ v. refl) n
step-Numbered h (cancels at) n = from_view-Numbered h (get_elem? h.views at) _ (λ v. refl) n
step-Numbered h (closes at) n = detach_view-Numbered h at (get_elem? h.views at) n
step-Numbered h (tells t) n = offer-Numbered h.answers h (notice t) (notice_number t) n
step-Numbered h (stops there) n = shut_down-Numbered h there n

run-Numbered : (h : Handles) (cs : List Call) → Numbered h → Numbered (run h cs)
unfolding run
run-Numbered h [] n = n
run-Numbered h (c ∷ cs) n = run-Numbered (step h c) cs (step-Numbered h c n)

-- Over any calls of the handle and of the views, and whatever the queue takes, the views that the worker is
-- told to register have strictly increasing numbers from 1 on, so no two views share one.
pub run-Increasing :
    (answers : List (Result (Unit {0}) TrySendError)) (cs : List Call)
    → Increasing 1 (registered (run (spawn answers) cs).sent)
run-Increasing answers cs =
    (run-Numbered (spawn answers) cs (record {
      positive = omega arith;
      word = omega arith;
      increasing = tt;
      below = tt;
    })).increasing
