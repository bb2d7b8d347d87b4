-- ===== src/Lock/Worker/Told.antt =====
-- All that the worker of crates/fomalhaut-lock/src/controller_worker.rs tells the host.
use fomalhaut.Common.{
  Bool, true, false, not, Option, none, some, String, List, [], ◌∷◌, ◌++◌, Result, ok, err, ◌≡◌,
  ◌⊎◌, inl, inr, ap, if-elim,
}
use fomalhaut.Core.Types.{Text}
use fomalhaut.Web.Protocol.{IdentitySummary, ProtocolValueError, new_identity_summary}
use fomalhaut.Web.Messages.{UiLocale}
use fomalhaut.Web.Client.{ReauthBackend, PowerControl}
use fomalhaut.Web.Locker.Requests.{with_locale_and_power_control}
use fomalhaut.Lock.Worker.{Channel, NativeEvent, fatal, backend_ready, answer, send, Codec}
use fomalhaut.Lock.Worker.Commands.{WorkerCommand}
use fomalhaut.Lock.Worker.Start.{
  Account, started, identified, with_avatar, try_avatar, run_worker, Ended,
}
use fomalhaut.Lock.Worker.Trace.{IsOrderly}
use fomalhaut.Lock.Worker.Orderly.{serve-IsOrderly}

module _ {B P : Type 0} (k : ReauthBackend B) (w : PowerControl P) (codec : Codec) where
  -- Before the backend was ready, the host was told nothing, or one fatal failure.
  abbrev Tells : List NativeEvent → Type 0
  Tells sent = (sent ≡ []) ⊎ ((m : String) × (sent ≡ fatal m ∷ [])) ⊎ IsOrderly sent

  first_fatal :
      (bs : List Bool) (m : String) (c : Channel NativeEvent)
      → c.sent ≡ []
      → Tells (answer bs (fatal m) c).0.sent
  first_fatal [] m c e = inl e
  first_fatal (true ∷ bs) m c e =
      inr (inl (m, ap (λ (es : List NativeEvent). es ++ fatal m ∷ []) e))
  first_fatal (false ∷ bs) m c e = inl e

  started-Tells :
      (backend : B) (power : P) (locale : UiLocale) (cs : List WorkerCommand)
      (i : IdentitySummary × List Text) (bs : List Bool) (native : Channel NativeEvent)
      → native.sent ≡ []
      → Tells (started k w codec backend power locale cs i (answer bs backend_ready native)).0.sent
  unfolding with_locale_and_power_control
  started-Tells backend power locale cs (identity, resources) [] native e = inl e
  started-Tells backend power locale cs (identity, resources) (false ∷ bs) native e = inl e
  started-Tells backend power locale cs (identity, resources) (true ∷ bs) native e = inr (
      inr (
        serve-IsOrderly k w codec resources
          (record {
            controller = with_locale_and_power_control k w backend identity power locale;
            views = [];
            gone = [];
            native = (answer (true ∷ bs) backend_ready native).0;
          })
          cs
          (record {
            standing = λ f. cc;
            told = ap (λ (es : List NativeEvent). es ++ backend_ready ∷ []) e;
          })))

  identified-Tells :
      (a : Account) (avatar : Option Text) (backend : B) (power : P) (locale : UiLocale)
      (cs : List WorkerCommand) (native : Channel NativeEvent)
      (r : Result IdentitySummary ProtocolValueError)
      → native.sent ≡ []
      → Tells (identified k w codec a avatar backend power locale cs native r).0.sent
  unfolding send
  identified-Tells a avatar backend power locale cs native (err x) e =
      first_fatal native.answers _ native e
  identified-Tells a avatar backend power locale cs native (ok identity) e =
      started-Tells backend power locale cs (with_avatar identity (try_avatar a avatar))
        native.answers native e

  -- Over any commands, and wherever channels, the backend or the codec fail, the host of the locker is
  -- told of the lock in order: nothing, or a single fatal failure; or that the backend is ready, then,
  -- as far as it comes, that the lock was acquired, that it may unlock, and that the lock was
  -- released, each at most once, and behind them at most one fatal failure or failure of the lock.
  pub run_worker-IsOrderly :
      (runtime : Bool) (backend : Option B) (a : Account) (avatar : Option Text) (power : P)
      (locale : UiLocale) (cs : List WorkerCommand) (native : Channel NativeEvent)
      → native.sent ≡ []
      → let sent = (run_worker k w codec runtime backend a avatar power locale cs native).0.sent in
        (sent ≡ []) ⊎ ((m : String) × (sent ≡ fatal m ∷ [])) ⊎ IsOrderly sent
  unfolding run_worker send
  run_worker-IsOrderly runtime none a avatar power locale cs native e =
      if-elim (λ (x : Ended k w codec). Tells x.0.sent) (not runtime) _ _
        (λ t. first_fatal native.answers _ native e) (λ f. first_fatal native.answers _ native e)
  run_worker-IsOrderly runtime (some backend) a avatar power locale cs native e =
      if-elim (λ (x : Ended k w codec). Tells x.0.sent) (not runtime) _ _
        (λ t. first_fatal native.answers _ native e)
        (λ f.
          identified-Tells a avatar backend power locale cs native
            (new_identity_summary a.username a.display_name none) e)
