-- ===== src/Lock/Worker/Start.antt =====
-- crates/fomalhaut-lock/src/controller_worker.rs: how the worker starts. Connecting the backend and
-- looking up the avatar are inputs.
use fomalhaut.Common.{
  Option, none, some, List, [], ◌∷◌, Bool, true, false, Result, ok, err, if◌then◌else◌, not,
}
use fomalhaut.Core.Types.{Text}
use fomalhaut.Web.Protocol.{IdentitySummary, new_identity_summary, ProtocolValueError}
use fomalhaut.Web.Messages.{UiLocale}
use fomalhaut.Web.Client.{ReauthBackend, PowerControl}
use fomalhaut.Web.Locker.Requests.{with_locale_and_power_control}
use fomalhaut.Lock.Worker.{Channel, NativeEvent, fatal, backend_ready, Codec, Worker, send}
use fomalhaut.Lock.Worker.Commands.{WorkerCommand, serve}

pub record Account : Type 0 where
  pub username : Text
  pub display_name : Text

-- The identity with the avatar, if it is valid, and the resources that the views then need.
abbrev pub with_avatar :
    IdentitySummary
    → Option (Text × Result IdentitySummary ProtocolValueError)
    → IdentitySummary × List Text
with_avatar fallback none = (fallback, [])
with_avatar fallback (some (uri, ok identity)) = (identity, uri ∷ [])
with_avatar fallback (some (uri, err e)) = (fallback, [])

abbrev pub try_avatar :
    Account → Option Text → Option (Text × Result IdentitySummary ProtocolValueError)
try_avatar a none = none
try_avatar a (some uri) = some (uri, new_identity_summary a.username a.display_name (some uri))

module _ {B P : Type 0} (k : ReauthBackend B) (w : PowerControl P) (codec : Codec) where
  -- What the host is told, and the worker at its end if it came to serve.
  abbrev pub Ended : Type 0
  Ended = Channel NativeEvent × Option (Worker B P)

  abbrev pub started :
      B
      → P
      → UiLocale
      → List WorkerCommand
      → IdentitySummary × List Text
      → Channel NativeEvent × Bool
      → Ended
  started backend power locale commands (identity, resources) (native, false) = (native, none)
  started backend power locale commands (identity, resources) (native, true) =
      let h =
        serve k w codec resources
          (record {
            controller = with_locale_and_power_control k w backend identity power locale;
            views = [];
            gone = [];
            native = native;
          })
          commands in
      (h.native, some h)

  abbrev pub identified :
      Account
      → Option Text
      → B
      → P
      → UiLocale
      → List WorkerCommand
      → Channel NativeEvent
      → Result IdentitySummary ProtocolValueError
      → Ended
  identified a avatar backend power locale commands native (err e) =
      ((send native (fatal "the current account identity is not frontend-safe")).0, none)
  identified a avatar backend power locale commands native (ok fallback) =
      started backend power locale commands (with_avatar fallback (try_avatar a avatar))
        (send native backend_ready)

  unfoldable pub run_worker :
      Bool
      → Option B
      → Account
      → Option Text
      → P
      → UiLocale
      → List WorkerCommand
      → Channel NativeEvent
      → Ended
  unfolding send new_identity_summary with_locale_and_power_control serve
  run_worker runtime none a avatar power locale commands native =
      if not runtime
      then ((send native (fatal "the locker authentication runtime could not be created")).0, none)
      else ((send native (fatal "the isolated PAM worker could not be prepared")).0, none)
  run_worker runtime (some backend) a avatar power locale commands native =
      if not runtime
      then ((send native (fatal "the locker authentication runtime could not be created")).0, none)
      else identified a avatar backend power locale commands native
          (new_identity_summary a.username a.display_name none)
