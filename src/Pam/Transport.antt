-- ===== src/Pam/Transport.antt =====
-- crates/fomalhaut-pam/src/backend.rs: `WorkerTransport` and `WorkerFactory`, as what a worker will
-- do, in order. A worker that says nothing more lets `receive` time out.
use fomalhaut.Common.{ℕ, List, [], ◌∷◌, ◌++◌, Result, err}
use fomalhaut.Core.Types.{AuthenticatedIdentity, CoreError, new_identity}
use fomalhaut.Pam.Bytes.{Bytes}
use fomalhaut.Pam.Ipc.{
  ParentMessage, begin, answer, WorkerMessage, IpcError, io, invalid_frame, limit_exceeded,
}

pub data WorkerFailure : Type 0 where
  spawn timeout disconnected protocol exit_timeout exit_status reader : WorkerFailure

unfoldable pub map_ipc_failure : IpcError → WorkerFailure
map_ipc_failure IpcError.disconnected = WorkerFailure.disconnected
map_ipc_failure io = WorkerFailure.disconnected
map_ipc_failure invalid_frame = WorkerFailure.protocol
map_ipc_failure limit_exceeded = WorkerFailure.protocol

-- crates/fomalhaut-pam/src/identity.rs.
pub record CurrentUserIdentity : Type 0 where
  pub uid : ℕ
  pub username : Bytes
  pub display_name : Bytes

unfoldable pub authenticated_identity : CurrentUserIdentity → Result AuthenticatedIdentity CoreError
unfolding new_identity
authenticated_identity i = new_identity i.username

-- What a worker answers to `send_begin`, to each `send_answer` and `receive`, and to `finish`; and
-- what it was sent.
pub record WorkerTransport : Type 0 where
  pub begun : Result (Unit {0}) WorkerFailure
  pub answered : List (Result (Unit {0}) WorkerFailure)
  pub messages : List (Result WorkerMessage WorkerFailure)
  pub exit : Result (Unit {0}) WorkerFailure
  pub sent : List ParentMessage

unfoldable pub send_begin : WorkerTransport → WorkerTransport × Result (Unit {0}) WorkerFailure
send_begin w = (record w { sent = w.sent ++ begin ∷ [] }, w.begun)

abbrev pub answer_next :
    List (Result (Unit {0}) WorkerFailure)
    → WorkerTransport
    → WorkerTransport × Result (Unit {0}) WorkerFailure
answer_next [] w = (w, err WorkerFailure.disconnected)
answer_next (r ∷ rs) w = (record w { answered = rs }, r)

unfoldable pub send_answer :
    WorkerTransport → ℕ → Bytes → WorkerTransport × Result (Unit {0}) WorkerFailure
send_answer w p response =
    answer_next w.answered (record w { sent = w.sent ++ answer p response ∷ [] })

abbrev pub receive_next :
    List (Result WorkerMessage WorkerFailure)
    → WorkerTransport
    → WorkerTransport × Result WorkerMessage WorkerFailure
receive_next [] w = (w, err WorkerFailure.timeout)
receive_next (m ∷ ms) w = (record w { messages = ms }, m)

unfoldable pub receive : WorkerTransport → WorkerTransport × Result WorkerMessage WorkerFailure
receive w = receive_next w.messages w

unfoldable pub finish : WorkerTransport → Result (Unit {0}) WorkerFailure
finish w = w.exit

-- The workers that `spawn` will return.
abbrev pub WorkerFactory : Type 0
WorkerFactory = List (Result WorkerTransport WorkerFailure)

abbrev pub spawn_next : WorkerFactory → WorkerFactory × Result WorkerTransport WorkerFailure
spawn_next [] = ([], err WorkerFailure.spawn)
spawn_next (r ∷ rs) = (rs, r)
