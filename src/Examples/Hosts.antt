-- ===== src/Examples/Hosts.antt =====
-- The worker of the locker, over a scripted backend.
use fomalhaut.Common.{true, none, some, String, List, [], ◌∷◌, ◌≡◌, ◌⊎◌, refl}
use fomalhaut.Session.Texts.{chars}
use fomalhaut.Web.Messages.{UiLocale}
use fomalhaut.Lock.Worker.{Channel, Output, NativeEvent, fatal, Codec}
use fomalhaut.Lock.Worker.Commands.{WorkerCommand, register, request}
use fomalhaut.Lock.Worker.Start.{Account, run_worker}
use fomalhaut.Lock.Worker.Trace.{IsOrderly}
use fomalhaut.Lock.Worker.Told.{run_worker-IsOrderly}
use fomalhaut.Examples.Controllers.{reauth, power, idle, begins, answers}

abbrev pub codec : Codec
codec = record {
  response_json = λ r. some (chars "reply");
  event_dispatch_script = λ e. some (chars "event");
}

abbrev pub output : Channel Output
output = record { answers = true ∷ true ∷ true ∷ true ∷ true ∷ true ∷ []; sent = [] }

abbrev native : Channel NativeEvent
native = record { answers = true ∷ true ∷ true ∷ true ∷ true ∷ []; sent = [] }

abbrev account : Account
account = record { username = chars "al"; display_name = chars "Al" }

abbrev commands : List WorkerCommand
commands =
    register 1 output
    ∷ WorkerCommand.lock_acquired
    ∷ request 1 0 begins
    ∷ request 1 0 answers
    ∷ WorkerCommand.lock_released
    ∷ WorkerCommand.lock_released
    ∷ []

run_worker-IsOrderly_example :
    let sent =
      (run_worker reauth power codec true
        (some idle)
        account
        none
        []
        UiLocale.english
        commands
        native).0.sent in
    (sent ≡ []) ⊎ ((m : String) × (sent ≡ fatal m ∷ [])) ⊎ IsOrderly sent
run_worker-IsOrderly_example =
    run_worker-IsOrderly reauth power codec true (some idle) account none [] UiLocale.english
      commands native refl

tells :
    (run_worker reauth power codec true
      (some idle)
      account
      none
      []
      UiLocale.english
      commands
      native).0.sent
    ≡ NativeEvent.backend_ready
      ∷ NativeEvent.lock_acquired
      ∷ NativeEvent.unlock
      ∷ NativeEvent.released
      ∷ fatal "the session lock was released without authorization"
      ∷ []
unfolding run_worker
tells = refl
