-- ===== src/Greeter/Worker.antt =====
-- crates/fomalhaut/src/controller_worker.rs: the thread that owns the greeter controller. The commands of
-- the host are a list, and the channel to it is the list of what its sends will give.
pub mod Told
pub mod Outputs
pub mod Trusted
use fomalhaut.Common.{
  ℕ, Bool, true, false, Option, none, some, String, List, [], ◌∷◌, Result, ok, err, if◌then◌else◌,
}
use fomalhaut.Core.Types.{Text}
use fomalhaut.Web.Messages.{RequestEnvelope, UserSummary, UiLocale}
use fomalhaut.Web.Public.{ControllerError}
use fomalhaut.Web.Batch.{ControllerBatch}
use fomalhaut.Web.Client.{LoginBackend, PowerControl}
use fomalhaut.Web.Greeter.{GreeterController, TrustedSession, Method, with_locale_and_power_control}
use fomalhaut.Web.Greeter.Requests.{handle, cancel_for_lifecycle}
use fomalhaut.User.Directory.{DiscoveredUsers, UserDiscoveryError}
use fomalhaut.Lock.Worker.{Channel, Codec, send, into_bridge_parts}

pub data GreeterAction : Type 0 where
  session_started : GreeterAction

-- `WorkerOutput`.
pub data WorkerOutput : Type 0 where
  ready : List Text → WorkerOutput
  batch : ℕ → Text → List Text → Option GreeterAction → WorkerOutput
  fatal : String → WorkerOutput

pub data WorkerCommand : Type 0 where
  request : ℕ → RequestEnvelope → WorkerCommand
  cancel_for_page shutdown : WorkerCommand

-- What the loop owns.
pub record Worker (B P : Type 0) : Type 0 where
  pub controller : GreeterController B P
  pub outputs : Channel WorkerOutput

-- How a round ends: with `next`, with `break`, or with `return`.
pub data Flow : Type 0 where
  next stop leave : Flow

-- `into_parts`, of no users if their discovery failed.
abbrev pub parts_or_default :
    Result DiscoveredUsers UserDiscoveryError → List UserSummary × List Text
parts_or_default (ok d) = (d.summaries, d.avatars)
parts_or_default (err e) = ([], [])

abbrev pub terminal : Bool → Option GreeterAction
terminal true = some GreeterAction.session_started
terminal false = none

module _ {B P : Type 0} where
  abbrev pub or_stop : Worker B P → Channel WorkerOutput × Bool → Worker B P × Flow
  or_stop h (outputs, true) = (record h { outputs = outputs }, next)
  or_stop h (outputs, false) = (record h { outputs = outputs }, stop)

  unfoldable pub send_fatal : Worker B P → String → Worker B P
  unfolding send
  send_fatal h message = record h { outputs = (send h.outputs (fatal message)).0 }

  abbrev pub delivered :
      Worker B P → ℕ → Bool → Result (Text × List Text) ControllerError → Worker B P × Flow
  unfolding send_fatal send
  delivered h epoch started (err e) =
      (send_fatal h "the authentication controller could not encode its output", stop)
  delivered h epoch started (ok (response, event_scripts)) =
      or_stop h (send h.outputs (batch epoch response event_scripts (terminal started)))

  unfoldable pub handled :
      Codec → Worker B P → ℕ → Method B P ControllerBatch ControllerError → Worker B P × Flow
  unfolding delivered send_fatal into_bridge_parts
  handled codec h epoch (c, err e) = (
    send_fatal (record h { controller = c })
        "the authentication controller could not maintain public state",
    stop,
  )
  handled codec h epoch (c, ok b) =
      delivered (record h { controller = c }) epoch b.session_started (into_bridge_parts codec b)

  abbrev pub cancelled :
      String → Flow → Flow → Worker B P → Method B P (Unit {0}) ControllerError → Worker B P × Flow
  unfolding send_fatal
  cancelled message good bad h (c, ok _) = (record h { controller = c }, good)
  cancelled message good bad h (c, err e) = (send_fatal (record h { controller = c }) message, bad)

  module _ (k : LoginBackend B) (w : PowerControl P) where
    unfoldable pub command : Codec → Worker B P → WorkerCommand → Worker B P × Flow
    unfolding handle handled cancel_for_lifecycle cancelled
    command codec h (request epoch r) = handled codec h epoch (handle k w h.controller r)
    command codec h cancel_for_page =
        cancelled "the authentication controller could not cancel a stale page" next stop h
          (cancel_for_lifecycle k h.controller)
    command codec h shutdown =
        cancelled "the authentication controller could not cancel during shutdown" leave leave h
          (cancel_for_lifecycle k h.controller)

    -- What stands behind the loop.
    unfoldable pub finish : Worker B P → Worker B P
    unfolding cancel_for_lifecycle
    finish h = record h { controller = (cancel_for_lifecycle k h.controller).0 }

    abbrev pub go_on : Worker B P × Flow → (Worker B P → Worker B P) → Worker B P
    unfolding finish
    go_on (h, next) rest = rest h
    go_on (h, stop) rest = finish h
    go_on (h, leave) rest = h

    -- The loop; the commands end when the host is gone.
    unfoldable pub serve : Codec → Worker B P → List WorkerCommand → Worker B P
    unfolding command finish go_on
    serve codec h [] = finish h
    serve codec h (c ∷ cs) = go_on (command codec h c) (λ h. serve codec h cs)

    abbrev pub announced :
        Codec
        → GreeterController B P
        → List WorkerCommand
        → Channel WorkerOutput × Bool
        → Worker B P
    unfolding serve finish
    announced codec c commands (outputs, false) =
        finish (record { controller = c; outputs = outputs })
    announced codec c commands (outputs, true) =
        serve codec (record { controller = c; outputs = outputs }) commands

    -- The worker at its end, if it came to have a controller, beside the channel.
    abbrev pub Ended : Type 0
    Ended = Channel WorkerOutput × Option (GreeterController B P)

    abbrev pub ended : Worker B P → Ended
    ended h = (h.outputs, some h.controller)

    abbrev pub connected :
        Codec
        → List TrustedSession
        → List UserSummary × List Text
        → P
        → UiLocale
        → List WorkerCommand
        → Channel WorkerOutput
        → Option B
        → Ended
    unfolding send announced with_locale_and_power_control
    connected codec sessions found power locale commands outputs none =
        ((send outputs (fatal "the authentication service could not be reached")).0, none)
    connected codec sessions (users, avatars) power locale commands outputs (some client) = ended (
        announced codec (with_locale_and_power_control k client sessions users power locale)
          commands (send outputs (ready avatars)))

    -- Whether there is a runtime, and the client that connects, are inputs.
    unfoldable pub run_worker :
        Codec
        → Result DiscoveredUsers UserDiscoveryError
        → Bool
        → Option B
        → List TrustedSession
        → P
        → UiLocale
        → List WorkerCommand
        → Channel WorkerOutput
        → Ended
    unfolding send connected
    run_worker codec discovered runtime client sessions power locale commands outputs =
        if runtime
        then connected codec sessions (parts_or_default discovered) power locale commands outputs
            client
        else ((send outputs (fatal "the authentication runtime could not be created")).0, none)
