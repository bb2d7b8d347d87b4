-- ===== src/Examples/Greeters.antt =====
-- The thread of the greeter, over a scripted backend.
use fomalhaut.Common.{true, none, some, List, [], ◌∷◌, All, err, ◌≡◌, refl}
use fomalhaut.Session.Texts.{chars}
use fomalhaut.Web.Messages.{UiLocale, RequestEnvelope, FrontendRequest, AuthBeginParams}
use fomalhaut.Web.Greeter.Trusted.{IsTrusted, logged}
use fomalhaut.User.Directory.{provider}
use fomalhaut.Greeter.Worker.{
  WorkerCommand, request, cancel_for_page, shutdown, ready, batch, run_worker,
}
use fomalhaut.Greeter.Worker.Trusted.{starts, run_worker-IsTrusted}
use fomalhaut.Greeter.Worker.Told.{until_lost, all_told}
use fomalhaut.Greeter.Worker.Outputs.{unsent, run_worker-all_told}
use fomalhaut.Examples.Controllers.{login, power, idle, sessions, answers}
use fomalhaut.Examples.Hosts.{codec}

abbrev begins : RequestEnvelope
begins = record {
  id = 1;
  request = FrontendRequest.auth_begin (AuthBeginParams.greeter (chars "al"));
}

abbrev commands : List WorkerCommand
commands =
    request 7 begins
    ∷ request 7 answers
    ∷ cancel_for_page
    ∷ request 8 begins
    ∷ shutdown
    ∷ request 9 begins
    ∷ []

run_worker-IsTrusted_example : All (IsTrusted sessions) (
    starts
      (run_worker
        (logged login)
        power
        codec
        (err provider)
        true
        (some (idle, []))
        sessions
        []
        UiLocale.english
        commands
        (unsent (true ∷ true ∷ true ∷ true ∷ []))).1)
run_worker-IsTrusted_example =
    run_worker-IsTrusted login power codec [] UiLocale.english sessions commands
      (unsent (true ∷ true ∷ true ∷ true ∷ [])) (err provider) true (some idle)

run_worker-all_told_example :
    (run_worker login power codec
      (err provider)
      true
      (some idle)
      sessions
      []
      UiLocale.english
      commands
      (unsent (true ∷ true ∷ true ∷ true ∷ []))).0.sent
    ≡ until_lost (true ∷ true ∷ true ∷ true ∷ []) (
        all_told login power codec [] UiLocale.english sessions commands
          (err provider)
          true
          (some idle))
run_worker-all_told_example =
    run_worker-all_told login power codec [] UiLocale.english sessions commands (err provider) true
      (some idle) (true ∷ true ∷ true ∷ true ∷ [])

tells :
    (run_worker login power codec
      (err provider)
      true
      (some idle)
      sessions
      []
      UiLocale.english
      commands
      (unsent (true ∷ true ∷ true ∷ true ∷ []))).0.sent
    ≡ ready []
      ∷ batch 7 (chars "reply") (chars "event" ∷ chars "event" ∷ []) none
      ∷ batch 7 (chars "reply") (chars "event" ∷ chars "event" ∷ []) none
      ∷ batch 8 (chars "reply") [] none
      ∷ []
unfolding run_worker
tells = refl
