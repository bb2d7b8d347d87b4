-- ===== src/Pam/Backend/Invariant.antt =====
-- What holds of a `PamReauthBackend` between two calls.
use fomalhaut.Common.{
  not, ◌||◌, ℕ, ◌+◌, Bool, true, false, Option, none, some, is_some, is_empty, Result, ok, err, ◌≡◌,
  refl, arith,
}
use fomalhaut.Core.Types.{AuthState, BackendError}
use fomalhaut.Core.Conversation.{is_waiting}
use fomalhaut.Pam.Ipc.{WorkerMessage}
use fomalhaut.Pam.Transport.{WorkerFailure, WorkerTransport, receive}
use fomalhaut.Pam.Backend.{
  PamReauthBackend, Next, on_message, on_failure, receive_from, round, received, drive_worker,
}
use fomalhaut.Pam.Backend.Termination.{Returns, Rounded, drive_worker_rule}

-- No call is under way.
abbrev pub is_settled : AuthState → Bool
is_settled AuthState.authenticating = false
is_settled AuthState.cancelling = false
is_settled _ = true

-- The states in which a worker may stand ready.
abbrev pub may_have_worker : AuthState → Bool
may_have_worker AuthState.idle = true
may_have_worker AuthState.waiting_for_secret = true
may_have_worker AuthState.waiting_for_visible = true
may_have_worker _ = false

pub record IsSound (b : PamReauthBackend) : Type 0 where
  pub prompted : is_some b.worker_prompt ≡ is_waiting b.conversation.state
  pub manned : not (is_waiting b.conversation.state) || is_some b.worker ≡ true
  pub freed : may_have_worker b.conversation.state || not (is_some b.worker) ≡ true
  pub settled : is_settled b.conversation.state ≡ true
  pub named : is_empty b.identity.username ≡ false

pub record IsDriving (b : PamReauthBackend) : Type 0 where
  pub unprompted : b.worker_prompt ≡ none
  pub busy : b.conversation.state ≡ AuthState.authenticating
  pub named : is_empty b.identity.username ≡ false

abbrev Keeps : PamReauthBackend × Next → Type 0
Keeps = Rounded IsDriving (λ p. IsSound p.0)

on_message-Keeps :
    (b : PamReauthBackend) (w : WorkerTransport) (m : WorkerMessage)
    → b.worker ≡ some w
    → IsDriving b
    → Keeps (on_message b m)
unfolding on_message
on_message-Keeps b w m e d = ground arith

on_failure-Keeps : (b : PamReauthBackend) (f : WorkerFailure) → IsDriving b → Keeps (on_failure b f)
unfolding on_failure
on_failure-Keeps b f d = ground arith

pub IsDriving-with :
    (b : PamReauthBackend) (w : Option WorkerTransport) (n : ℕ)
    → IsDriving b
    → IsDriving (record b { worker = w; received_frames = n })
IsDriving-with b w n d = record { unprompted = d.unprompted; busy = d.busy; named = d.named }

receive_from-Keeps :
    (w : Option WorkerTransport) (b : PamReauthBackend) → IsDriving b → Keeps (receive_from w b)
receive_from-Keeps none b d = on_failure-Keeps b WorkerFailure.disconnected d
receive_from-Keeps (some w) b d = received-Keeps (receive w)
  where
    received-Keeps :
        (p : WorkerTransport × Result WorkerMessage WorkerFailure) → Keeps (received b p)
    received-Keeps (w', ok m) =
        on_message-Keeps (record b { worker = some w' }) w' m refl
          (IsDriving-with b (some w') b.received_frames d)
    received-Keeps (w', err f) =
        on_failure-Keeps (record b { worker = some w' }) f
          (IsDriving-with b (some w') b.received_frames d)

round-Keeps : (b : PamReauthBackend) → IsDriving b → Keeps (round b)
unfolding round
round-Keeps b d =
    let b' = record b { received_frames = b.received_frames + 1 } in
    ground
      (arith, receive_from-Keeps b.worker b' (IsDriving-with b b.worker (b.received_frames + 1) d))

-- A call returns, and leaves a sound backend.
abbrev pub Settles : Option (PamReauthBackend × Result (Unit {0}) BackendError) → Type 0
Settles = Returns (λ p. IsSound p.0)

pub drive_worker-Settles : (b : PamReauthBackend) → IsDriving b → Settles (drive_worker b)
drive_worker-Settles = drive_worker_rule IsDriving (λ p. IsSound p.0) round-Keeps
