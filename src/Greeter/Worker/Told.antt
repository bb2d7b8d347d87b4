-- ===== src/Greeter/Worker/Told.antt =====
-- What there is to tell the host in crates/fomalhaut/src/controller_worker.rs, apart from the queue.
use fomalhaut.Common.{
  ℕ, Bool, true, false, Option, none, some, List, [], ◌∷◌, Result, ok, err, String, if◌then◌else◌,
}
use fomalhaut.Core.Types.{Text}
use fomalhaut.Web.Protocol.{EventEnvelope}
use fomalhaut.Web.Messages.{UiLocale}
use fomalhaut.Web.Public.{ControllerError}
use fomalhaut.Web.Batch.{ControllerBatch}
use fomalhaut.Web.Client.{LoginBackend, PowerControl}
use fomalhaut.Web.Greeter.{GreeterController, TrustedSession, Method, with_locale_and_power_control}
use fomalhaut.Web.Greeter.Requests.{handle, cancel_for_lifecycle}
use fomalhaut.User.Directory.{DiscoveredUsers, UserDiscoveryError}
use fomalhaut.Lock.Worker.{Codec}
use fomalhaut.Greeter.Worker.{
  GreeterAction, WorkerOutput, ready, batch, fatal, WorkerCommand, request, cancel_for_page,
  shutdown,
}

-- The scripts of all events, in their order, if each has one.
abbrev pub scripts_of : (EventEnvelope → Option Text) → List EventEnvelope → Option (List Text)
scripts_of f [] = some []
scripts_of f (e ∷ es) = elim (f e) [
  | none ↦ none
  | some s ↦ elim (scripts_of f es) [ none ↦ none | some ss ↦ some (s ∷ ss) ]
]

-- The batch of one request, with its page, if all of it can be encoded.
abbrev pub batch_of : Codec → ℕ → ControllerBatch → Option WorkerOutput
batch_of codec page b = elim (codec.response_json b.response) [
  | none ↦ none
  | some response ↦ elim (scripts_of codec.event_dispatch_script b.events) [
    | none ↦ none
    | some scripts ↦ some (
        batch page response scripts
          (if b.session_started then some GreeterAction.session_started else none))
  ]
]

-- A batch, and what comes behind it; or the failure to encode it.
abbrev pub batch_or_fatal : Option WorkerOutput → List WorkerOutput → List WorkerOutput
batch_or_fatal none later = fatal "the authentication controller could not encode its output" ∷ []
batch_or_fatal (some o) later = o ∷ later

module _ {B P : Type 0} where
  abbrev pub answered :
      Codec
      → ℕ
      → Method B P ControllerBatch ControllerError
      → (GreeterController B P → List WorkerOutput)
      → List WorkerOutput
  answered codec page (c, err e) later =
      fatal "the authentication controller could not maintain public state" ∷ []
  answered codec page (c, ok b) later = batch_or_fatal (batch_of codec page b) (later c)

  abbrev pub unless_failed :
      String
      → Method B P (Unit {0}) ControllerError
      → (GreeterController B P → List WorkerOutput)
      → List WorkerOutput
  unless_failed message (c, ok _) later = later c
  unless_failed message (c, err e) later = fatal message ∷ []

module _ {B P : Type 0} (k : LoginBackend B) (w : PowerControl P) (codec : Codec) where
  -- What a controller has to say to the commands.
  abbrev pub told : GreeterController B P → List WorkerCommand → List WorkerOutput
  told c [] = []
  told c (request page r ∷ cs) = answered codec page (handle k w c r) (λ c. told c cs)
  told c (cancel_for_page ∷ cs) =
      unless_failed "the authentication controller could not cancel a stale page"
        (cancel_for_lifecycle k c) (λ c. told c cs)
  told c (shutdown ∷ cs) =
      unless_failed "the authentication controller could not cancel during shutdown"
        (cancel_for_lifecycle k c) (λ c. [])

-- What the host takes of the outputs, which end with the first that it does not take.
abbrev pub until_lost : List Bool → List WorkerOutput → List WorkerOutput
until_lost (true ∷ answers) (o ∷ os) = o ∷ until_lost answers os
until_lost _ _ = []

module _ {B P : Type 0} (k : LoginBackend B) (w : PowerControl P) (codec : Codec) (power : P)
    (locale : UiLocale) (sessions : List TrustedSession) (commands : List WorkerCommand) where
  -- What there is to say to the host, from the start on.
  abbrev pub all_told :
      Result DiscoveredUsers UserDiscoveryError → Bool → Option B → List WorkerOutput
  all_told discovered false client = fatal "the authentication runtime could not be created" ∷ []
  all_told discovered true none = fatal "the authentication service could not be reached" ∷ []
  all_told (ok d) true (some client) =
      ready d.avatars
      ∷ told k w codec (with_locale_and_power_control k client sessions d.summaries power locale)
          commands
  all_told (err e) true (some client) =
      ready []
      ∷ told k w codec (with_locale_and_power_control k client sessions [] power locale) commands
