-- ===== src/Pam/Backend/Verdict.antt =====
-- A `PamReauthBackend` is authenticated only by its worker's word
-- (crates/fomalhaut-pam/src/backend.rs).
use fomalhaut.Common.{
  ℕ, ◌+◌, List, [], ◌∷◌, ◌++◌, Option, none, some, Result, ok, err, ◌≡◌, refl, sym, ap, arith,
  get_last?-concat,
}
use mathlib.Core.List.{Memᴰ, get_last?}
use fomalhaut.Core.Types.{AuthState, AuthEvent, BackendError}
use fomalhaut.Pam.Bytes.{Bytes}
use fomalhaut.Pam.Ipc.{WorkerMessage, answer}
use fomalhaut.Pam.Transport.{
  WorkerFailure, WorkerTransport, receive, receive_next, answer_next, send_answer, send_begin,
}
use fomalhaut.Pam.Backend.{
  PamReauthBackend, on_message, on_failure, receive_from, received, round, drive_worker,
  begin_worker, answer_worker, answer_failed, fail_worker, protocol_failure,
}
use fomalhaut.Pam.Backend.Termination.{Returns, Rounded, drive_worker_rule}

-- What a worker says to vouch for the user.
abbrev pub vouch : Result WorkerMessage WorkerFailure
vouch = ok WorkerMessage.authenticated

-- An authenticated backend had a worker that vouched for the user and then exited cleanly, and
-- its newest event names the account fixed in its identity.
pub record IsVouched (w : WorkerTransport) (name : Bytes) (b : PamReauthBackend) : Type 0 where
  pub said : Memᴰ vouch w.messages
  pub exited : w.exit ≡ ok tt
  pub announced :
      get_last? b.conversation.events
      ≡ some (AuthEvent.authenticated (record { account_name = name }))

abbrev pub Verdict :
    WorkerTransport → Bytes → PamReauthBackend × Result (Unit {0}) BackendError → Type 0
Verdict w name p = p.0.conversation.state ≡ AuthState.authenticated → IsVouched w name p.0

module _ (w : WorkerTransport) (name : Bytes) where
  -- The worker that is left is what remains of `w`.
  pub record IsRest (v : WorkerTransport) : Type 0 where
    pub same_exit : v.exit ≡ w.exit
    pub from_w : Memᴰ vouch v.messages → Memᴰ vouch w.messages

  abbrev pub Rest : Option WorkerTransport → Type 0
  Rest none = Unit
  Rest (some v) = IsRest v

  pub record IsTrial (b : PamReauthBackend) : Type 0 where
    pub busy : b.conversation.state ≡ AuthState.authenticating
    pub named : b.identity.username ≡ name
    pub rest : Rest b.worker

  abbrev pub Q : PamReauthBackend × Result (Unit {0}) BackendError → Type 0
  Q = Verdict w name

  on_message-Verdict :
      (b : PamReauthBackend) (v : WorkerTransport) (m : WorkerMessage)
      → b.worker ≡ some v
      → v.exit ≡ w.exit
      → (m ≡ WorkerMessage.authenticated → Memᴰ vouch w.messages)
      → IsTrial b
      → Rounded IsTrial Q (on_message b m)
  unfolding on_message
  on_message-Verdict b v WorkerMessage.authenticated e x said t = ground (
    arith,
    said refl,
    get_last?-concat b.conversation.events
        (AuthEvent.authenticated (record { account_name = b.identity.username })),
  )
  on_message-Verdict b v m e x said t = ground arith

  on_failure-Verdict :
      (b : PamReauthBackend) (f : WorkerFailure) → Rounded IsTrial Q (on_failure b f)
  unfolding on_failure
  on_failure-Verdict b f = ground arith

  received-Verdict :
      (b : PamReauthBackend) (v : WorkerTransport)
      → IsRest v
      → IsTrial b
      → Rounded IsTrial Q (received b (receive v))
  unfolding receive
  received-Verdict b v r t = by_messages v.messages refl
    where
      by_messages :
          (ms : List (Result WorkerMessage WorkerFailure))
          → v.messages ≡ ms
          → Rounded IsTrial Q (received b (receive_next ms v))
      by_messages [] q = on_failure-Verdict (record b { worker = some v }) WorkerFailure.timeout
      by_messages (err f ∷ ms) q =
          on_failure-Verdict (record b { worker = some (record v { messages = ms }) }) f
      by_messages (ok m ∷ ms) q =
          let v' = record v { messages = ms } in
          on_message-Verdict (record b { worker = some v' }) v' m refl r.same_exit
            (λ e. r.from_w (rw q (Memᴰ.head (ap ok (sym e)))))
            (record {
              busy = t.busy;
              named = t.named;
              rest = record {
                same_exit = r.same_exit;
                from_w = λ later. r.from_w (rw q (Memᴰ.tail later));
              };
            })

  receive_from-Verdict :
      (o : Option WorkerTransport) (b : PamReauthBackend)
      → Rest o
      → IsTrial b
      → Rounded IsTrial Q (receive_from o b)
  receive_from-Verdict none b r t = on_failure-Verdict b WorkerFailure.disconnected
  receive_from-Verdict (some v) b r t = received-Verdict b v r t

  round-Verdict : (b : PamReauthBackend) → IsTrial b → Rounded IsTrial Q (round b)
  unfolding round
  round-Verdict b t = ground (
    arith,
    receive_from-Verdict b.worker (record b { received_frames = b.received_frames + 1 }) t.rest
        (record { busy = t.busy; named = t.named; rest = t.rest }),
  )

  drive_worker-Verdict : (b : PamReauthBackend) → IsTrial b → Returns Q (drive_worker b)
  drive_worker-Verdict = drive_worker_rule IsTrial Q round-Verdict

  pub begin_worker-Verdict :
      (v : WorkerTransport) (b : PamReauthBackend)
      → IsRest v
      → IsTrial b
      → Returns Q (begin_worker (some v) b)
  unfolding send_begin fail_worker
  begin_worker-Verdict v b r t = ground (
    arith,
    drive_worker-Verdict (record b { worker = some (send_begin v).0 })
        (record {
          busy = t.busy;
          named = t.named;
          rest = record { same_exit = r.same_exit; from_w = r.from_w };
        }),
  )

  pub answer_worker-Verdict :
      (v : WorkerTransport) (p : ℕ) (response : Bytes) (b : PamReauthBackend)
      → IsRest v
      → IsTrial b
      → Returns Q (answer_worker (some v) p response b)
  unfolding fail_worker protocol_failure send_answer
  answer_worker-Verdict v p response b r t = answered v.answered
    where
      asked : WorkerTransport
      asked = record v { sent = v.sent ++ answer p response ∷ [] }

      answered :
          (rs : List (Result (Unit {0}) WorkerFailure))
          → Returns Q (elim (answer_next rs asked).1 [
            | ok u ↦ drive_worker (record b { worker = some (answer_next rs asked).0 })
            | err failure ↦
                answer_failed (record b { worker = some (answer_next rs asked).0 }) failure
          ])
      answered [] = ground arith
      answered (err f ∷ rs) = ground arith
      answered (ok u ∷ rs) =
          drive_worker-Verdict (record b { worker = some (record asked { answered = rs }) })
            (record {
              busy = t.busy;
              named = t.named;
              rest = record { same_exit = r.same_exit; from_w = r.from_w };
            })
