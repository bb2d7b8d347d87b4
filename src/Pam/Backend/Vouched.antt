-- ===== src/Pam/Backend/Vouched.antt =====
-- Which worker a `PamReauthBackend` believes (crates/fomalhaut-pam/src/backend.rs).
use fomalhaut.Common.{ℕ, Option, none, some, Result, ok, err, ◌≡◌, ◌≢◌, refl, sym, subst, arith}
use mathlib.Core.Option.{some-injective}
use fomalhaut.Core.Types.{AuthState, BackendError, PromptId}
use fomalhaut.Core.Conversation
use fomalhaut.Pam.Bytes.{Bytes}
use fomalhaut.Pam.Transport.{WorkerFailure, WorkerTransport}
use fomalhaut.Pam.Backend.{
  PamReauthBackend, answer_prompt, answer_worker, answer_taken, fail_worker,
}
use fomalhaut.Pam.Backend.Termination.{Returns}
use fomalhaut.Pam.Backend.Verdict.{
  IsVouched, Verdict, IsRest, Rest, IsTrial, begin_worker-Verdict, answer_worker-Verdict,
}
use fomalhaut.Pam.Backend.{with_worker, spawn_worker, begin_transaction}
use fomalhaut.Pam.Transport.{WorkerFactory, spawn_next}

IsRest-self : (w : WorkerTransport) (name : Bytes) → IsRest w name w
IsRest-self w name = record { same_exit = refl; from_w = λ m. m }

answer_taken-Verdict :
    (o : Option ℕ) (response : Bytes) (b : PamReauthBackend) (w : WorkerTransport)
    → b.worker ≡ some w
    → b.conversation.state ≡ AuthState.authenticating
    → Returns (Verdict w b.identity.username) (answer_taken o response b)
unfolding fail_worker
answer_taken-Verdict none response b w e s = ground arith
answer_taken-Verdict (some p) response b w e s =
    subst
      (λ o.
        Returns (Verdict w b.identity.username)
          (answer_worker o p response (record b { worker_prompt = none })))
      (sym e)
      (answer_worker-Verdict w b.identity.username w p response (record b { worker_prompt = none })
        (IsRest-self w b.identity.username)
        (record {
          busy = s;
          named = refl;
          rest = subst (Rest w b.identity.username) (sym e) (IsRest-self w b.identity.username);
        }))

-- The worker of a new transaction: the one that stands ready, or the next one spawned.
abbrev pub spawned : WorkerFactory × Result WorkerTransport WorkerFailure → Option WorkerTransport
spawned (factory, ok w) = some w
spawned (factory, err failure) = none

abbrev pub next_worker : PamReauthBackend → Option WorkerTransport
next_worker b = elim b.worker [ some w ↦ some w | none ↦ spawned (spawn_next b.factory) ]

IsTrial-begun :
    (b : PamReauthBackend) (w : WorkerTransport) (o : Option WorkerTransport)
    → b.conversation.state ≡ AuthState.authenticating
    → b.worker ≡ o
    → Rest w b.identity.username o
    → IsTrial w b.identity.username b
IsTrial-begun b w o s e r = record {
  busy = s;
  named = refl;
  rest = subst (Rest w b.identity.username) (sym e) r;
}

spawn_worker-Verdict :
    (p : WorkerFactory × Result WorkerTransport WorkerFailure) (b : PamReauthBackend)
    (w : WorkerTransport)
    → b.worker ≡ none
    → spawned p ≡ some w
    → b.conversation.state ≡ AuthState.authenticating
    → Returns (Verdict w b.identity.username) (spawn_worker p b)
unfolding Conversation.fail
spawn_worker-Verdict (factory, err failure) b w e q s = cc
spawn_worker-Verdict (factory, ok v) b w e q s =
    begin_worker-Verdict w b.identity.username v (record b { factory = factory })
      (subst (IsRest w b.identity.username) (sym (some-injective v w q))
        (IsRest-self w b.identity.username))
      (record { busy = s; named = refl; rest = subst (Rest w b.identity.username) (sym e) tt })

with_worker-Verdict :
    (o : Option WorkerTransport) (b : PamReauthBackend) (w : WorkerTransport)
    → b.worker ≡ o
    → elim o [ some v ↦ some v | none ↦ spawned (spawn_next b.factory) ] ≡ some w
    → b.conversation.state ≡ AuthState.authenticating
    → Returns (Verdict w b.identity.username) (with_worker o b)
with_worker-Verdict none b w e q s = spawn_worker-Verdict (spawn_next b.factory) b w e q s
with_worker-Verdict (some v) b w e q s =
    let r =
      subst (IsRest w b.identity.username) (sym (some-injective v w q))
        (IsRest-self w b.identity.username) in
    begin_worker-Verdict w b.identity.username v b r (IsTrial-begun b w (some v) s e r)

begin_transaction-Verdict :
    (b : PamReauthBackend) (w : WorkerTransport)
    → next_worker b ≡ some w
    → b.conversation.state ≢ AuthState.authenticated
    → Returns (Verdict w b.identity.username) (begin_transaction b)
unfolding begin_transaction
begin_transaction-Verdict b w q s = ground (
  arith,
  with_worker-Verdict b.worker
      (record b {
        conversation = (Conversation.begin b.conversation).0;
        worker_prompt = none;
        received_frames = 0;
      })
      w refl q,
)

answer_prompt-Verdict :
    (b : PamReauthBackend) (p : PromptId) (response : Bytes) (w : WorkerTransport)
    → b.worker ≡ some w
    → b.conversation.state ≢ AuthState.authenticated
    → Returns (Verdict w b.identity.username) (answer_prompt b p response)
unfolding answer_prompt
answer_prompt-Verdict b p response w e s = ground (
  arith,
  answer_taken-Verdict b.worker_prompt response
      (record b { conversation = (Conversation.begin_response b.conversation p).0 }) w e,
)

Returns-Verdict :
    (w : WorkerTransport) (name : Bytes)
    (o : Option (PamReauthBackend × Result (Unit {0}) BackendError)) {b : PamReauthBackend}
    {r : Result (Unit {0}) BackendError}
    → Returns (Verdict w name) o
    → o ≡ some (b, r)
    → b.conversation.state ≡ AuthState.authenticated
    → IsVouched w name b
Returns-Verdict w name none h e s = absurd h
Returns-Verdict w name (some p) {b} {r} h e s =
    subst (Verdict w name) (some-injective p (b, r) e) h s

-- If an answer ends authenticated, then the worker that asked vouched for the user, exited cleanly,
-- and the newest event names the account of the backend's identity.
pub answer_prompt-IsVouched :
    (b : PamReauthBackend) (p : PromptId) (response : Bytes) (w : WorkerTransport)
    {b' : PamReauthBackend} {r : Result (Unit {0}) BackendError}
    → b.worker ≡ some w
    → b.conversation.state ≢ AuthState.authenticated
    → answer_prompt b p response ≡ some (b', r)
    → b'.conversation.state ≡ AuthState.authenticated
    → IsVouched w b.identity.username b'
answer_prompt-IsVouched b p response w e s =
    Returns-Verdict w b.identity.username (answer_prompt b p response)
      (answer_prompt-Verdict b p response w e s)

-- If a transaction that begins ends authenticated at once, its worker, which stood ready or was
-- spawned for it, vouched for the user too.
pub begin_transaction-IsVouched :
    (b : PamReauthBackend) (w : WorkerTransport) {b' : PamReauthBackend}
    {r : Result (Unit {0}) BackendError}
    → next_worker b ≡ some w
    → b.conversation.state ≢ AuthState.authenticated
    → begin_transaction b ≡ some (b', r)
    → b'.conversation.state ≡ AuthState.authenticated
    → IsVouched w b.identity.username b'
begin_transaction-IsVouched b w q s =
    Returns-Verdict w b.identity.username (begin_transaction b) (begin_transaction-Verdict b w q s)
