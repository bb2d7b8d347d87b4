-- ===== src/Lock/Handle.antt =====
-- crates/fomalhaut-lock/src/controller_worker.rs: the handle of the locker's worker, and those of the views,
-- which send to the same queue.
pub mod Numbers
use fomalhaut.Common.{
  zero, ℕ, suc, ◌+◌, Bool, true, false, Option, none, some, List, [], ◌∷◌, ◌++◌, Result, ok, err,
  map_err, leb, get_elem?, if◌then◌else◌,
}
use fomalhaut.Web.Messages.{RequestEnvelope}
use fomalhaut.Lock.Worker.{Channel, Output}
use fomalhaut.Lock.Worker.Commands.{
  WorkerCommand, register, detach, request, cancel_for_page, sleeps, resumes, lock_acquired,
  lock_failed, lock_released, shutdown,
}

pub data TrySendError : Type 0 where
  full disconnected : TrySendError

pub data SubmitError : Type 0 where
  busy stopped : SubmitError

pub data ViewRegistrationError : Type 0 where
  identifier_exhausted controller_unavailable : ViewRegistrationError

abbrev pub map_error : TrySendError → SubmitError
map_error full = busy
map_error disconnected = stopped

abbrev pub map_try_send : Result (Unit {0}) TrySendError → Result (Unit {0}) SubmitError
map_try_send r = map_err map_error r

-- `ViewController`, without the queue.
pub record ViewController : Type 0 where
  pub view : ℕ
  pub detached : Bool

-- `WorkerHandle` with the views that it gave away, and the queue: what its sends will give, and what it took.
pub record Handles : Type 0 where
  pub answers : List (Result (Unit {0}) TrySendError)
  pub sent : List WorkerCommand
  pub thread : Bool
  pub next_view : ℕ
  pub views : List ViewController

abbrev pub spawn : List (Result (Unit {0}) TrySendError) → Handles
spawn answers = record { answers = answers; sent = []; thread = true; next_view = 1; views = [] }

abbrev pub offer :
    List (Result (Unit {0}) TrySendError)
    → WorkerCommand
    → Handles
    → Handles × Result (Unit {0}) SubmitError
offer [] c h = (h, map_try_send (err disconnected))
offer (err e ∷ rest) c h = (record h { answers = rest }, map_try_send (err e))
offer (ok u ∷ rest) c h =
    (record h { answers = rest; sent = h.sent ++ c ∷ [] }, map_try_send (ok u))

unfoldable pub try_send : Handles → WorkerCommand → Handles × Result (Unit {0}) SubmitError
try_send h c = offer h.answers c h

abbrev pub registered_view :
    ℕ → Handles × Result (Unit {0}) SubmitError → Handles × Result (Unit {0}) ViewRegistrationError
registered_view view (h, err e) = (h, err controller_unavailable)
registered_view view (h, ok u) = (
  record h {
    next_view = view + 1;
    views = h.views ++ record { view = view; detached = false } ∷ [];
  },
  ok u,
)

-- The number is a word of 64 bits.
unfoldable pub register_view :
    Handles → Channel Output → Handles × Result (Unit {0}) ViewRegistrationError
unfolding try_send
register_view h output =
    if leb 18446744073709551615 h.next_view
    then (h, err identifier_exhausted)
    else registered_view h.next_view (try_send h (register h.next_view output))

abbrev pub from_view :
    Handles
    → Option ViewController
    → (ViewController → WorkerCommand)
    → Handles × Result (Unit {0}) SubmitError
unfolding try_send
from_view h none c = (h, ok tt)
from_view h (some v) c = if v.detached then (h, err stopped) else try_send h (c v)

-- `submit` and `cancel_for_page` of the view at a place among the views.
unfoldable pub submit : Handles → ℕ → ℕ → RequestEnvelope → Handles × Result (Unit {0}) SubmitError
unfolding from_view
submit h at epoch r = from_view h (get_elem? h.views at) (λ v. request v.view epoch r)

unfoldable pub cancel_page : Handles → ℕ → Handles × Result (Unit {0}) SubmitError
unfolding from_view
cancel_page h at = from_view h (get_elem? h.views at) (λ v. cancel_for_page)

abbrev pub mark_detached : ℕ → List ViewController → List ViewController
mark_detached at [] = []
mark_detached zero (v ∷ vs) = record v { detached = true } ∷ vs
mark_detached (suc at) (v ∷ vs) = v ∷ mark_detached at vs

abbrev pub detach_view : Handles → ℕ → Option ViewController → Handles
unfolding try_send
detach_view h at none = h
detach_view h at (some v) =
    if v.detached
    then h
    else (try_send (record h { views = mark_detached at h.views }) (detach v.view)).0

-- `shutdown` of a view, and its drop.
unfoldable pub shutdown_view : Handles → ℕ → Handles
unfolding detach_view
shutdown_view h at = detach_view h at (get_elem? h.views at)

-- `send` waits for a place in the queue, so it fails only if the worker is gone.
unfoldable pub shut_down : Handles → Bool → Handles
shut_down h there =
    if h.thread
    then record h { thread = false; sent = if there then h.sent ++ shutdown ∷ [] else h.sent }
    else h

-- The other methods of the handle.
pub data Notice : Type 0 where
  mark_lock_acquired mark_lock_failed mark_lock_released prepare_for_sleep resume_after_sleep :
      Notice

abbrev pub notice : Notice → WorkerCommand
notice mark_lock_acquired = lock_acquired
notice mark_lock_failed = lock_failed
notice mark_lock_released = lock_released
notice prepare_for_sleep = sleeps
notice resume_after_sleep = resumes

pub data Call : Type 0 where
  registers : Channel Output → Call
  submits : ℕ → ℕ → RequestEnvelope → Call
  cancels closes : ℕ → Call
  tells : Notice → Call
  stops : Bool → Call

unfoldable pub step : Handles → Call → Handles
unfolding register_view submit cancel_page shutdown_view try_send shut_down
step h (registers output) = (register_view h output).0
step h (submits at epoch r) = (submit h at epoch r).0
step h (cancels at) = (cancel_page h at).0
step h (closes at) = shutdown_view h at
step h (tells n) = (try_send h (notice n)).0
step h (stops there) = shut_down h there

unfoldable pub run : Handles → List Call → Handles
unfolding step
run h [] = h
run h (c ∷ cs) = run (step h c) cs
