-- ===== src/Greeter/Worker/Trusted.antt =====
-- Which sessions the thread of crates/fomalhaut/src/controller_worker.rs starts.
use mathlib.Core.Option
use fomalhaut.Common.{
  ℕ, String, Bool, true, false, Option, none, some, List, [], ◌∷◌, All, Result, ok, err, ◌≡◌, refl,
  subst,
}
use fomalhaut.Core.Types.{Text}
use fomalhaut.Web.Messages.{UserSummary, UiLocale}
use fomalhaut.Web.Public.{ControllerError}
use fomalhaut.Web.Batch.{ControllerBatch}
use fomalhaut.Web.Client.{LoginBackend, PowerControl}
use fomalhaut.Web.Greeter.{GreeterController, TrustedSession, Method, with_locale_and_power_control}
use fomalhaut.Web.Greeter.Requests.{handle, cancel_for_lifecycle}
use fomalhaut.Web.Greeter.Trusted.{
  Call, handles, cancels, called, run, Start, logged, IsTrusted, run-IsTrusted,
}
use fomalhaut.User.Directory.{DiscoveredUsers, UserDiscoveryError}
use fomalhaut.Lock.Worker.{Channel, Codec, send, into_bridge_parts}
use fomalhaut.Greeter.Worker.{
  WorkerOutput, WorkerCommand, request, cancel_for_page, shutdown, Worker, Flow, next, stop, leave,
  parts_or_default, or_stop, send_fatal, delivered, handled, cancelled, command, finish, go_on,
  serve, announced, connected, run_worker,
}

abbrev call_of : WorkerCommand → Call
call_of (request epoch r) = handles r
call_of cancel_for_page = cancels
call_of shutdown = cancels

module _ {B P : Type 0} (k : LoginBackend B) (w : PowerControl P) where
  -- One controller becomes the other by its public methods.
  record IsRun (c d : GreeterController B P) : Type 0 where
    calls : List Call
    same : run k w c calls ≡ d

  or_stop_controller :
      (h : Worker B P) (p : Channel WorkerOutput × Bool) → (or_stop h p).0.controller ≡ h.controller
  or_stop_controller h (outputs, true) = refl
  or_stop_controller h (outputs, false) = refl

  delivered_controller :
      (h : Worker B P) (epoch : ℕ) (started : Bool) (r : Result (Text × List Text) ControllerError)
      → (delivered h epoch started r).0.controller ≡ h.controller
  unfolding delivered send_fatal
  delivered_controller h epoch started (err e) = refl
  delivered_controller h epoch started (ok p) = or_stop_controller h _

  handled_controller :
      (codec : Codec) (h : Worker B P) (epoch : ℕ) (m : Method B P ControllerBatch ControllerError)
      → (handled codec h epoch m).0.controller ≡ m.0
  unfolding handled send_fatal
  handled_controller codec h epoch (c, err e) = refl
  handled_controller codec h epoch (c, ok b) =
      delivered_controller (record h { controller = c }) epoch b.session_started
        (into_bridge_parts codec b)

  cancelled_controller :
      (message : String) (good bad : Flow) (h : Worker B P)
      (m : Method B P (Unit {0}) ControllerError)
      → (cancelled message good bad h m).0.controller ≡ m.0
  unfolding cancelled send_fatal
  cancelled_controller message good bad h (c, err e) = refl
  cancelled_controller message good bad h (c, ok u) = refl

  command_controller :
      (codec : Codec) (h : Worker B P) (c : WorkerCommand)
      → (command k w codec h c).0.controller ≡ called k w h.controller (call_of c)
  unfolding command
  command_controller codec h (request epoch r) =
      handled_controller codec h epoch (handle k w h.controller r)
  command_controller codec h cancel_for_page =
      cancelled_controller _ next stop h (cancel_for_lifecycle k h.controller)
  command_controller codec h shutdown =
      cancelled_controller _ leave leave h (cancel_for_lifecycle k h.controller)

  finish-Run : (h : Worker B P) → IsRun h.controller (finish k w h).controller
  unfolding finish
  finish-Run h = record { calls = cancels ∷ []; same = refl }

  go_on-Run :
      (p : Worker B P × Flow) (rest : Worker B P → Worker B P)
      → ((h : Worker B P) → IsRun h.controller (rest h).controller)
      → IsRun p.0.controller (go_on k w p rest).controller
  unfolding go_on
  go_on-Run (h, next) rest r = r h
  go_on-Run (h, stop) rest r = finish-Run h
  go_on-Run (h, leave) rest r = record { calls = []; same = refl }

  IsRun-called :
      (c d : GreeterController B P) (call : Call) → IsRun (called k w c call) d → IsRun c d
  IsRun-called c d call r = record { calls = call ∷ r.calls; same = r.same }

  -- All that the loop does to its controller are calls of its public methods.
  serve-Run :
      (codec : Codec) (h : Worker B P) (cs : List WorkerCommand)
      → IsRun h.controller (serve k w codec h cs).controller
  unfolding serve
  serve-Run codec h [] = finish-Run h
  serve-Run codec h (c ∷ cs) = IsRun-called h.controller _ (call_of c) (
      subst (λ d. IsRun d (serve k w codec h (c ∷ cs)).controller) (command_controller codec h c)
        (go_on-Run (command k w codec h c) (λ h. serve k w codec h cs) (λ h. serve-Run codec h cs)))

  announced-Run :
      (codec : Codec) (c : GreeterController B P) (cs : List WorkerCommand)
      (p : Channel WorkerOutput × Bool)
      → IsRun c (announced k w codec c cs p).controller
  unfolding announced
  announced-Run codec c cs (outputs, false) =
      finish-Run (record { controller = c; outputs = outputs })
  announced-Run codec c cs (outputs, true) =
      serve-Run codec (record { controller = c; outputs = outputs }) cs

-- The calls of start_session that a worker made.
abbrev pub starts : {B P : Type 0} → Option (GreeterController (B × List Start) P) → List Start
starts none = []
starts (some c) = c.client.1

module _ {B P : Type 0} (k : LoginBackend B) (w : PowerControl P) (codec : Codec) (power : P)
    (locale : UiLocale) (sessions : List TrustedSession) (commands : List WorkerCommand)
    (outputs : Channel WorkerOutput) where
  connected-IsTrusted :
      (found : List UserSummary × List Text) (client : Option B)
      → All (IsTrusted sessions) (
          starts
            (connected
              (logged k)
              w
              codec
              sessions
              found
              power
              locale
              commands
              outputs
              (Option.map (λ b. (b, [])) client)).1)
  unfolding connected
  connected-IsTrusted found none = tt
  connected-IsTrusted (users, avatars) (some b) =
      let r =
        announced-Run (logged k) w codec
          (with_locale_and_power_control (logged k) (b, []) sessions users power locale) commands
          (send outputs (WorkerOutput.ready avatars)) in
      subst (λ (d : GreeterController (B × List Start) P). All (IsTrusted sessions) d.client.1)
        r.same (run-IsTrusted k w b sessions users power locale r.calls)

  -- Whatever the host commands, whatever a theme requests and whatever the backend does, every session that
  -- the thread starts has the command of an entry of the catalog that it was given, and the backend
  -- was authenticated when the session was started.
  pub run_worker-IsTrusted :
      (discovered : Result DiscoveredUsers UserDiscoveryError) (runtime : Bool) (client : Option B)
      → All (IsTrusted sessions) (
          starts
            (run_worker
              (logged k)
              w
              codec
              discovered
              runtime
              (Option.map (λ b. (b, [])) client)
              sessions
              power
              locale
              commands
              outputs).1)
  unfolding run_worker
  run_worker-IsTrusted discovered true client =
      connected-IsTrusted (parts_or_default discovered) client
  run_worker-IsTrusted discovered false client = tt
