-- ===== src/Pam/Backend/Calls.antt =====
-- Every call of a `PamReauthBackend` returns and keeps it sound
-- (crates/fomalhaut-pam/src/backend.rs).
use fomalhaut.Common.{
  ℕ, Bool, true, false, ◌&&◌, Option, none, some, is_empty, Result, ok, err, ◌≡◌, refl, arith,
  Bool-cases, inl, inr,
}
use fomalhaut.Core.Types.{AuthState, PromptId}
use fomalhaut.Core.Conversation.{AuthConversation, is_waiting, may_begin}
use fomalhaut.Core.Conversation
use fomalhaut.Pam.Bytes.{Bytes}
use fomalhaut.Pam.Transport.{
  WorkerFailure, CurrentUserIdentity, WorkerTransport, WorkerFactory, spawn_next, send_begin,
  send_answer,
}
use fomalhaut.Pam.Backend.{
  PamReauthBackend, connect_with_factory, connected, begin_worker, with_worker, spawn_worker,
  drive_worker, begin_transaction, answer_prompt, answer_worker, answer_taken, answer_failed,
  cancel_transaction, fail_worker, protocol_failure,
}
use fomalhaut.Pam.Backend.Invariant.{
  IsSound, IsDriving, Settles, drive_worker-Settles, IsDriving-with,
}

begin_worker-Settles :
    (w : WorkerTransport) (b : PamReauthBackend) → IsDriving b → Settles (begin_worker (some w) b)
unfolding send_begin fail_worker
begin_worker-Settles w b d = ground (
  arith,
  drive_worker-Settles (record b { worker = some (send_begin w).0 })
      (IsDriving-with b (some (send_begin w).0) b.received_frames d),
)

-- With no worker at hand, one is spawned.
spawn_worker-Settles :
    (p : WorkerFactory × Result WorkerTransport WorkerFailure) (b : PamReauthBackend)
    → b.worker ≡ none
    → IsDriving b
    → Settles (spawn_worker p b)
unfolding Conversation.fail
spawn_worker-Settles (factory, ok w) b e d =
    begin_worker-Settles w (record b { factory = factory })
      (record { unprompted = d.unprompted; busy = d.busy; named = d.named })
spawn_worker-Settles (factory, err failure) b e d = ground arith

with_worker-Settles :
    (w : Option WorkerTransport) (b : PamReauthBackend)
    → b.worker ≡ w
    → IsDriving b
    → Settles (with_worker w b)
with_worker-Settles (some w) b e d = begin_worker-Settles w b d
with_worker-Settles none b e d = spawn_worker-Settles (spawn_next b.factory) b e d

-- Where `begin` of the conversation succeeded.
begun : PamReauthBackend → PamReauthBackend
unfolding Conversation.begin
begun b = record b {
  conversation = (Conversation.begin b.conversation).0;
  worker_prompt = none;
  received_frames = 0;
}

begun-IsDriving :
    (b : PamReauthBackend) → may_begin b.conversation.state ≡ true → IsSound b → IsDriving (begun b)
unfolding begun
begun-IsDriving b may h = ground arith

-- `begin_transaction` returns, whatever the workers and their factory do, and the backend it
-- leaves is sound: it waits for an answer with a worker behind it, or has ended with none.
pub begin_transaction-Settles : (b : PamReauthBackend) → IsSound b → Settles (begin_transaction b)
unfolding begin_transaction begun
begin_transaction-Settles b h = elim (Bool-cases (may_begin b.conversation.state)) [
  | inl may ↦ ground (arith, with_worker-Settles b.worker (begun b) refl (begun-IsDriving b may h))
  | inr not ↦ rw not h
]

answer_worker-Settles :
    (w : Option WorkerTransport) (p : ℕ) (response : Bytes) (b : PamReauthBackend)
    → IsDriving b
    → Settles (answer_worker w p response b)
unfolding fail_worker protocol_failure
answer_worker-Settles none p response b d = ground arith
answer_worker-Settles (some w) p response b d = answered (send_answer w p response)
  where
    answered :
        (q : WorkerTransport × Result (Unit {0}) WorkerFailure)
        → Settles (elim q.1 [
          | ok u ↦ drive_worker (record b { worker = some q.0 })
          | err failure ↦ answer_failed (record b { worker = some q.0 }) failure
        ])
    answered (w', ok u) =
        drive_worker-Settles (record b { worker = some w' })
          (IsDriving-with b (some w') b.received_frames d)
    answered (w', err failure) = ground arith

answer_taken-Settles :
    (p : Option ℕ) (response : Bytes) (b : PamReauthBackend)
    → b.conversation.state ≡ AuthState.authenticating
    → is_empty b.identity.username ≡ false
    → Settles (answer_taken p response b)
unfolding fail_worker
answer_taken-Settles none response b s n = ground arith
answer_taken-Settles (some p) response b s n =
    answer_worker-Settles b.worker p response (record b { worker_prompt = none })
      (record { unprompted = refl; busy = s; named = n })

-- Whether `begin_response` accepts the prompt.
abbrev accepts : PamReauthBackend → PromptId → Bool
accepts b p =
    is_waiting b.conversation.state && Conversation.is_active b.conversation.active_prompt p

-- `answer_prompt` returns, and leaves a sound backend.
pub answer_prompt-Settles :
    (b : PamReauthBackend) (p : PromptId) (response : Bytes)
    → IsSound b
    → Settles (answer_prompt b p response)
unfolding answer_prompt
answer_prompt-Settles b p response h = ground (
  arith,
  answer_taken-Settles b.worker_prompt response
      (record b { conversation = (Conversation.begin_response b.conversation p).0 }),
)

-- `cancel_transaction` keeps a backend sound.
pub cancel_transaction-IsSound :
    (b : PamReauthBackend) → IsSound b → IsSound (cancel_transaction b).0
unfolding cancel_transaction
cancel_transaction-IsSound b h = ground arith

-- A cancelled transaction leaves no worker and no prompt behind, and the conversation idle.
cancel_transaction_lem :
    (b : PamReauthBackend)
    → Conversation.needs_cancel b.conversation ≡ true
    → let (b', r) = cancel_transaction b in
      (r ≡ ok tt)
      × (b'.worker ≡ none)
      × (b'.worker_prompt ≡ none)
      × (b'.conversation.state ≡ AuthState.idle)
      × (b'.conversation.active_prompt ≡ none)
unfolding cancel_transaction Conversation.needs_cancel
cancel_transaction_lem b h = ground arith

-- A backend that connects is sound, if its identity has a name.
pub connect_with_factory-IsSound :
    (identity : CurrentUserIdentity) (factory : WorkerFactory) {b : PamReauthBackend}
    → is_empty identity.username ≡ false
    → connect_with_factory identity factory ≡ ok b
    → IsSound b
unfolding connect_with_factory
connect_with_factory-IsSound identity factory {b} n e = connected_sound (spawn_next factory) e
  where
    connected_sound :
        (p : WorkerFactory × Result WorkerTransport WorkerFailure)
        → connected identity p ≡ ok b
        → IsSound b
    connected_sound (f, ok w) e = ground arith
    connected_sound (f, err failure) e = cc
