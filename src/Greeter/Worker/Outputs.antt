-- ===== src/Greeter/Worker/Outputs.antt =====
-- What the thread of crates/fomalhaut/src/controller_worker.rs tells the host.
use mathlib.Core.List.{append_assoc, append-nil}
use fomalhaut.Common.{
  ℕ, Bool, true, false, Option, none, some, List, [], ◌∷◌, ◌++◌, Result, ok, err, ◌≡◌, refl, sym,
  ◌∙◌, ap, String, if◌then◌else◌, arith,
}
use fomalhaut.Core.Types.{Text}
use fomalhaut.Web.Protocol.{EventEnvelope}
use fomalhaut.Web.Messages.{UiLocale}
use fomalhaut.Web.Public.{ControllerError}
use fomalhaut.Web.Batch.{ControllerBatch}
use fomalhaut.Web.Client.{LoginBackend, PowerControl}
use fomalhaut.Web.Greeter.{GreeterController, TrustedSession, Method}
use fomalhaut.Web.Greeter.Requests.{handle, cancel_for_lifecycle}
use fomalhaut.User.Directory.{DiscoveredUsers, UserDiscoveryError}
use fomalhaut.Lock.Worker.{Channel, answer, Codec, send, collect, into_bridge_parts}
use fomalhaut.Greeter.Worker.{
  GreeterAction, WorkerOutput, ready, batch, fatal, WorkerCommand, request, cancel_for_page,
  shutdown, Worker, next, stop, leave, or_stop, terminal, send_fatal, delivered, handled, cancelled,
  command, finish, go_on, serve, announced, connected, run_worker,
}
use fomalhaut.Greeter.Worker.Told.{
  scripts_of, batch_of, batch_or_fatal, answered, unless_failed, told, until_lost, all_told,
}

until_lost_nil : (answers : List Bool) → until_lost answers [] ≡ []
until_lost_nil [] = refl
until_lost_nil (true ∷ answers) = refl
until_lost_nil (false ∷ answers) = refl

-- The channel got just what the host took of the outputs.
abbrev Gets : Channel WorkerOutput → Channel WorkerOutput → List WorkerOutput → Type 0
Gets before after os = after.sent ≡ before.sent ++ until_lost before.answers os

Gets-nil : (c : Channel WorkerOutput) → Gets c c []
Gets-nil c = sym (ap (λ os. c.sent ++ os) (until_lost_nil c.answers) ∙ append-nil c.sent)

answer-Gets :
    (answers : List Bool) (c : Channel WorkerOutput) (o : WorkerOutput)
    → (answer answers o c).0.sent ≡ c.sent ++ until_lost answers (o ∷ [])
answer-Gets [] c o = sym (append-nil c.sent)
answer-Gets (false ∷ answers) c o = sym (append-nil c.sent)
answer-Gets (true ∷ answers) c o = sym (ap (λ os. c.sent ++ o ∷ os) (until_lost_nil answers))

send-Gets : (c : Channel WorkerOutput) (o : WorkerOutput) → Gets c (send c o).0 (o ∷ [])
unfolding send
send-Gets c o = answer-Gets c.answers c o

collect_lem :
    (f : EventEnvelope → Option Text) (es : List EventEnvelope) → collect f es ≡ scripts_of f es
unfolding collect
collect_lem f [] = refl
collect_lem f (e ∷ es) =
    ap
      (λ (rest : Option (List Text)). elim (f e) [
        | none ↦ none
        | some s ↦ elim rest [ none ↦ none | some ss ↦ some (s ∷ ss) ]
      ])
      (collect_lem f es)

abbrev batch_from : ℕ → Bool → Result (Text × List Text) ControllerError → Option WorkerOutput
batch_from page started (err e) = none
batch_from page started (ok (response, scripts)) =
    some (batch page response scripts (terminal started))

terminal_lem : (b : Bool) → (if b then some GreeterAction.session_started else none) ≡ terminal b
terminal_lem true = refl
terminal_lem false = refl

batch_of_lem :
    (codec : Codec) (page : ℕ) (b : ControllerBatch)
    → batch_of codec page b ≡ batch_from page b.session_started (into_bridge_parts codec b)
unfolding into_bridge_parts
batch_of_lem codec page b =
    ground (arith, collect_lem codec.event_dispatch_script b.events, terminal_lem b.session_started)

module _ {B P : Type 0} (k : LoginBackend B) (w : PowerControl P) (codec : Codec)
    (rest : Worker B P → Worker B P) (later : GreeterController B P → List WorkerOutput)
    (r : (h : Worker B P) → Gets h.outputs (rest h).outputs (later h.controller)) where
  sent-Gets :
      (answers : List Bool) (h : Worker B P) (o : WorkerOutput)
      → (go_on k w (or_stop h (answer answers o h.outputs)) rest).outputs.sent
        ≡ h.outputs.sent ++ until_lost answers (o ∷ later h.controller)
  unfolding go_on finish
  sent-Gets [] h o = sym (append-nil h.outputs.sent)
  sent-Gets (false ∷ answers) h o = sym (append-nil h.outputs.sent)
  sent-Gets (true ∷ answers) h o =
      r (record h { outputs = record { answers = answers; sent = h.outputs.sent ++ o ∷ [] } })
      ∙ append_assoc h.outputs.sent (o ∷ []) (until_lost answers (later h.controller))

  delivered-Gets :
      (h : Worker B P) (page : ℕ) (started : Bool)
      (parts : Result (Text × List Text) ControllerError)
      → Gets h.outputs
          (go_on k w (delivered h page started parts) rest).outputs
          (batch_or_fatal (batch_from page started parts) (later h.controller))
  unfolding go_on finish delivered send send_fatal
  delivered-Gets h page started (err e) = send-Gets h.outputs _
  delivered-Gets h page started (ok (response, scripts)) = sent-Gets h.outputs.answers h _

  handled-Gets :
      (h : Worker B P) (page : ℕ) (m : Method B P ControllerBatch ControllerError)
      → Gets h.outputs
          (go_on k w (handled codec h page m) rest).outputs
          (answered codec page m later)
  unfolding go_on finish handled send_fatal
  handled-Gets h page (c, err e) = send-Gets h.outputs _
  handled-Gets h page (c, ok b) = rw (batch_of_lem codec page b) (
      delivered-Gets (record h { controller = c }) page b.session_started
        (into_bridge_parts codec b))

  page-Gets :
      (h : Worker B P) (message : String) (m : Method B P (Unit {0}) ControllerError)
      → Gets h.outputs
          (go_on k w (cancelled message next stop h m) rest).outputs
          (unless_failed message m later)
  unfolding go_on finish cancelled send_fatal
  page-Gets h message (c, ok u) = r (record h { controller = c })
  page-Gets h message (c, err e) = send-Gets h.outputs (fatal message)

  quit-Gets :
      (h : Worker B P) (message : String) (m : Method B P (Unit {0}) ControllerError)
      → Gets h.outputs
          (go_on k w (cancelled message leave leave h m) rest).outputs
          (unless_failed message m (λ c. []))
  unfolding go_on finish cancelled send_fatal
  quit-Gets h message (c, ok u) = Gets-nil h.outputs
  quit-Gets h message (c, err e) = send-Gets h.outputs (fatal message)

module _ {B P : Type 0} (k : LoginBackend B) (w : PowerControl P) (codec : Codec) where
  command-Gets :
      (h : Worker B P) (c : WorkerCommand) (cs : List WorkerCommand)
      → ((h : Worker B P)
          → Gets h.outputs (serve k w codec h cs).outputs (told k w codec h.controller cs))
      → Gets h.outputs
          (go_on k w (command k w codec h c) (λ h. serve k w codec h cs)).outputs
          (told k w codec h.controller (c ∷ cs))
  unfolding command
  command-Gets h (request page q) cs r =
      handled-Gets k w codec _ _ r h page (handle k w h.controller q)
  command-Gets h cancel_for_page cs r =
      page-Gets k w codec _ _ r h _ (cancel_for_lifecycle k h.controller)
  command-Gets h shutdown cs r = quit-Gets k w codec _ _ r h _ (cancel_for_lifecycle k h.controller)

  serve-Gets :
      (h : Worker B P) (cs : List WorkerCommand)
      → Gets h.outputs (serve k w codec h cs).outputs (told k w codec h.controller cs)
  unfolding serve finish
  serve-Gets h [] = Gets-nil h.outputs
  serve-Gets h (c ∷ cs) = command-Gets h c cs (λ h. serve-Gets h cs)

-- A channel in which nothing was sent yet.
abbrev pub unsent : List Bool → Channel WorkerOutput
unsent answers = record { answers = answers; sent = [] }

module _ {B P : Type 0} (k : LoginBackend B) (w : PowerControl P) (codec : Codec) (power : P)
    (locale : UiLocale) (sessions : List TrustedSession) (commands : List WorkerCommand) where
  announced-Gets :
      (c : GreeterController B P) (avatars : List Text) (answers : List Bool)
      → (announced k w codec c commands
          (answer answers (ready avatars) (unsent answers))).outputs.sent
        ≡ until_lost answers (ready avatars ∷ told k w codec c commands)
  unfolding announced finish
  announced-Gets c avatars [] = refl
  announced-Gets c avatars (false ∷ answers) = refl
  announced-Gets c avatars (true ∷ answers) =
      serve-Gets k w codec
        (record {
          controller = c;
          outputs = record { answers = answers; sent = ready avatars ∷ [] };
        })
        commands

  -- The host gets the following, up to the first output that it does not take. Without a runtime or a
  -- client it is that failure and nothing more. Else it is first that the thread is ready, with the avatars
  -- of the users that were discovered, or with none if that failed; and then, for the commands in their
  -- order: for a request the batch of its page, with the encoded response and event scripts of what the
  -- controller made of it, and with the terminal action just if the session was started; for a page that
  -- was left, nothing. A request whose handling or encoding fails, or a cancelling that fails, ends it with
  -- the message of that failure. The shutdown ends it with no output but the message that its cancelling
  -- failed, if it did.
  pub run_worker-all_told :
      (discovered : Result DiscoveredUsers UserDiscoveryError) (runtime : Bool) (client : Option B)
      (answers : List Bool)
      → (run_worker k w codec discovered runtime client sessions power locale commands
          (unsent answers)).0.sent
        ≡ until_lost answers
            (all_told k w codec power locale sessions commands discovered runtime client)
  unfolding run_worker connected send
  run_worker-all_told discovered false client answers = answer-Gets answers (unsent answers) _
  run_worker-all_told discovered true none answers = answer-Gets answers (unsent answers) _
  run_worker-all_told (ok d) true (some client) answers = announced-Gets _ d.avatars answers
  run_worker-all_told (err e) true (some client) answers = announced-Gets _ [] answers
