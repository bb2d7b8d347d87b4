-- ===== src/Lock/Worker.antt =====
-- crates/fomalhaut-lock/src/controller_worker.rs: the loop that owns the locker controller. A channel is
-- the list of what its sends will give, beside what was sent.
pub mod Commands
pub mod Start
pub mod Trace
pub mod Orderly
pub mod Told
use mathlib.Core.Option
use fomalhaut.Common.{
  ℕ, Bool, true, false, not, ◌||◌, Option, none, some, String, List, [], ◌∷◌, ◌++◌, Result, ok, err,
  is_empty, any, ◌==◌, ◌>=>◌, if◌then◌else◌,
}
use fomalhaut.Core.Types.{Text}
use fomalhaut.Web.Protocol.{EventEnvelope}
use fomalhaut.Web.Messages.{RequestEnvelope, ResponseEnvelope}
use fomalhaut.Web.Public.{ControllerError, controller_error}
use fomalhaut.Web.Batch.{ControllerBatch}
use fomalhaut.Web.Locker.{LockerController}

pub data NativeEvent : Type 0 where
  backend_ready lock_acquired lock_failed unlock released : NativeEvent
  fatal : String → NativeEvent

-- `ControllerOutput` of crates/fomalhaut-gtk/src/lib.rs, for a view of the locker.
pub data Output : Type 0 where
  ready : List Text → Output
  batch : ℕ → Text → List Text → Output
  events : List Text → Output
  fatal : String → Output

-- The sender of a channel.
pub record Channel (A : Type 0) : Type 0 where
  pub answers : List Bool
  pub sent : List A

abbrev pub answer : {A : Type 0} → List Bool → A → Channel A → Channel A × Bool
answer [] a c = (c, false)
answer (true ∷ bs) a c = (record { answers = bs; sent = c.sent ++ a ∷ [] }, true)
answer (false ∷ bs) a c = (record c { answers = bs }, false)

-- `send` and `try_send`: whether the channel took the value.
unfoldable pub send : {A : Type 0} → Channel A → A → Channel A × Bool
send c a = answer c.answers a c

abbrev pub Views : Type 0
Views = List (ℕ × Channel Output)

-- The JSON codec; each may fail.
pub record Codec : Type 0 where
  pub response_json : ResponseEnvelope → Option Text
  pub event_dispatch_script : EventEnvelope → Option Text

-- What the loop owns. A view that is removed stands in `gone`.
pub record Worker (B P : Type 0) : Type 0 where
  pub controller : LockerController B P
  pub views : Views
  pub gone : Views
  pub native : Channel NativeEvent

-- `map` and `collect`: a failure ends it.
unfoldable pub collect : (EventEnvelope → Option Text) → List EventEnvelope → Option (List Text)
collect f [] = some []
collect f (e ∷ es) = elim (f e) [
  | none ↦ none
  | some s ↦ elim (collect f es) [ none ↦ none | some ss ↦ some (s ∷ ss) ]
]

unfoldable pub into_bridge_parts :
    Codec → ControllerBatch → Result (Text × List Text) ControllerError
unfolding collect
into_bridge_parts k b = elim (k.response_json b.response) [
  | none ↦ err (controller_error "the controller response could not be serialized")
  | some response ↦ elim (collect k.event_dispatch_script b.events) [
    | none ↦ err (controller_error "a controller event could not be serialized")
    | some scripts ↦ ok (response, scripts)
  ]
]

abbrev pub contains_view : ℕ → Views → Bool
contains_view view views = any (λ v. v.0 == view) views

-- The views with that number, and the others.
abbrev pub remove_view : ℕ → Views → Views × Views
remove_view view [] = ([], [])
remove_view view ((n, c) ∷ vs) =
    let (kept, gone) = remove_view view vs in
    if n == view then (kept, (n, c) ∷ gone) else ((n, c) ∷ kept, gone)

-- A view is kept if its channel took the output.
abbrev pub keep_if : Bool → ℕ → Channel Output → Views × Views → Views × Views
keep_if true n c (kept, gone) = ((n, c) ∷ kept, gone)
keep_if false n c (kept, gone) = (kept, (n, c) ∷ gone)

abbrev pub is_excluded : Option ℕ → ℕ → Bool
is_excluded none n = false
is_excluded (some m) n = m == n

unfoldable pub broadcast_serialized_events : Views → Option ℕ → List Text → Views × Views
unfolding send
broadcast_serialized_events [] excluded scripts = ([], [])
broadcast_serialized_events ((n, c) ∷ vs) excluded scripts =
    let rest = broadcast_serialized_events vs excluded scripts in
    let (c', taken) = send c (events scripts) in
    if is_excluded excluded n || is_empty scripts
    then keep_if true n c rest
    else keep_if taken n c' rest

unfoldable pub send_to_view : Views → ℕ → Output → Views × Views
unfolding send
send_to_view [] view output = ([], [])
send_to_view ((n, c) ∷ vs) view output =
    let (kept, gone) = send_to_view vs view output in
    let (c', taken) = send c output in
    if n == view then keep_if taken n c' (vs, []) else ((n, c) ∷ kept, gone)

-- Every view gets the output, and is drained.
abbrev pub send_all : Output → Views → Views
unfolding send
send_all output [] = []
send_all output ((n, c) ∷ vs) = (n, (send c output).0) ∷ send_all output vs

module _ {B P : Type 0} where
  abbrev pub with_views : Worker B P → Views × Views → Worker B P
  with_views h (kept, gone) = record h { views = kept; gone = h.gone ++ gone }

  unfoldable pub notify : Worker B P → NativeEvent → Worker B P × Bool
  unfolding send
  notify h e = let (c, taken) = send h.native e in (record h { native = c }, taken)

  unfoldable pub send_view_fallback : Worker B P → String → Worker B P
  unfolding send
  send_view_fallback h message = record h {
    views = [];
    gone = h.gone ++ send_all (fatal message) h.views;
  }

  unfoldable pub send_fatal : Worker B P → String → Worker B P
  unfolding send_view_fallback notify
  send_fatal h message = (notify (send_view_fallback h message) (NativeEvent.fatal message)).0

  abbrev pub broadcast_scripts : Worker B P → Option (List Text) → Worker B P × Bool
  broadcast_scripts h none = (h, false)
  broadcast_scripts h (some scripts) =
      (with_views h (broadcast_serialized_events h.views none scripts), true)

  unfoldable pub broadcast_events : Codec → Worker B P → List EventEnvelope → Worker B P × Bool
  unfolding collect broadcast_serialized_events
  broadcast_events k h es = broadcast_scripts h (collect k.event_dispatch_script es)

  -- A view that is there is replaced.
  unfoldable pub attach_view : Worker B P → ℕ → Channel Output → List Text → Worker B P
  unfolding send
  attach_view h view output resources =
      let (c, taken) = send output (ready resources) in
      let (kept, gone) = remove_view view h.views in
      if taken then record h { views = (view, c) ∷ kept; gone = h.gone ++ gone } else h
