-- ===== src/Pam/Backend/Termination.antt =====
-- `drive_worker` ends, whatever the worker says (crates/fomalhaut-pam/src/backend.rs).
use fomalhaut.Common.{
  ℕ, zero, suc, ◌+◌, ◌≤◌, ◌<◌, Option, none, some, Result, ok, err, ◌≡◌, refl, arith,
}
use fomalhaut.Core.Types.{BackendError}
use fomalhaut.Pam.Ipc.{WorkerMessage, max_transaction_frames}
use fomalhaut.Pam.Transport.{WorkerFailure, WorkerTransport, receive}
use fomalhaut.Pam.Backend.{
  PamReauthBackend, Next, return, again, on_message, on_failure, receive_from, round, drive_fuel,
  continue_with, drive_worker_for, drive_worker, received,
}

-- A frame that keeps the loop going leaves the counter alone.
on_message_counter :
    (b : PamReauthBackend) (m : WorkerMessage)
    → (on_message b m).1 ≡ again
    → (on_message b m).0.received_frames ≡ b.received_frames
unfolding on_message
on_message_counter b m e = ground arith

on_failure_ends : (b : PamReauthBackend) (f : WorkerFailure) → (on_failure b f).1 ≡ again → ⊥
unfolding on_failure
on_failure_ends b f e = ground arith

receive_from_counter :
    (w : Option WorkerTransport) (b : PamReauthBackend)
    → (receive_from w b).1 ≡ again
    → (receive_from w b).0.received_frames ≡ b.received_frames
receive_from_counter none b e = absurd (on_failure_ends b WorkerFailure.disconnected e)
receive_from_counter (some w) b e = received_counter (receive w) e
  where
    received_counter :
        (p : WorkerTransport × Result WorkerMessage WorkerFailure)
        → (received b p).1 ≡ again
        → (received b p).0.received_frames ≡ b.received_frames
    received_counter (w', ok m) e = on_message_counter (record b { worker = some w' }) m e
    received_counter (w', err f) e = absurd (on_failure_ends (record b { worker = some w' }) f e)

-- A round that goes on has counted one frame more, within the limit.
pub round_counter :
    (b : PamReauthBackend)
    → (round b).1 ≡ again
    → ((round b).0.received_frames ≡ b.received_frames + 1)
      × (b.received_frames + 1 ≤ max_transaction_frames)
unfolding round
round_counter b e =
    let b' = record b { received_frames = b.received_frames + 1 } in
    ground (arith, receive_from_counter b.worker b')

-- A result is there, and `Q` holds of it.
abbrev pub Returns :
    (PamReauthBackend × Result (Unit {0}) BackendError → Type 0)
    → Option (PamReauthBackend × Result (Unit {0}) BackendError)
    → Type 0
Returns Q none = ⊥
Returns Q (some p) = Q p

-- What a round leaves: an invariant, or the postcondition.
abbrev pub Rounded :
    (PamReauthBackend → Type 0)
    → (PamReauthBackend × Result (Unit {0}) BackendError → Type 0)
    → PamReauthBackend × Next
    → Type 0
Rounded I Q (b, return r) = Q (b, r)
Rounded I Q (b, again) = I b

module _ (I : PamReauthBackend → Type 0)
    (Q : PamReauthBackend × Result (Unit {0}) BackendError → Type 0)
    (rounds : (b : PamReauthBackend) → I b → Rounded I Q (round b)) where
  continue_with-Returns :
      (loop : PamReauthBackend → Option (PamReauthBackend × Result (Unit {0}) BackendError))
      (p : PamReauthBackend × Next)
      → Rounded I Q p
      → (p.1 ≡ again → I p.0 → Returns Q (loop p.0))
      → Returns Q (continue_with loop p)
  continue_with-Returns loop (b, return r) h k = h
  continue_with-Returns loop (b, again) h k = k refl h

  -- The rule for the loop: enough fuel for the frames that are left gives a result.
  pub drive_rule :
      (fuel : ℕ) (b : PamReauthBackend)
      → I b
      → 0 < fuel
      → max_transaction_frames < fuel + b.received_frames
      → Returns Q (drive_worker_for fuel b)
  unfolding drive_worker_for
  drive_rule zero b i pos enough = elim pos [ ]
  drive_rule (suc fuel) b i pos enough =
      continue_with-Returns (drive_worker_for fuel) (round b) (rounds b i) (λ e i'.
        drive_rule fuel (round b).0 i' (omega (arith, round_counter b e))
          (omega (arith, round_counter b e)))

  -- The fuel of the model is enough, wherever the counter stands.
  pub drive_worker_rule : (b : PamReauthBackend) → I b → Returns Q (drive_worker b)
  drive_worker_rule b i = drive_rule drive_fuel b i (omega arith) (omega arith)
