-- ===== src/Pam/Backend.antt =====
-- crates/fomalhaut-pam/src/backend.rs: `PamReauthBackend`, one worker process for each transaction.
pub mod Invariant
pub mod Termination
pub mod Calls
pub mod Verdict
pub mod Vouched
pub mod Reauth
use fomalhaut.Common.{
  ℕ, zero, suc, ◌+◌, Bool, true, false, List, [], ◌∷◌, Option, none, some, is_some, Result, ok, err,
  leb, ltb, if◌then◌else◌,
}
use fomalhaut.Core.Types.{
  PromptId, PromptKind, MessageLevel, BackendError, core, unavailable, protocol, service, CoreError,
  AuthEvent,
}
use fomalhaut.Core.Conversation.{AuthConversation, u64_max}
use fomalhaut.Core.Conversation
use fomalhaut.Pam.Bytes.{Bytes}
use fomalhaut.Pam.Ipc.{WorkerMessage, WorkerPromptKind, WorkerMessageLevel, max_transaction_frames}
use fomalhaut.Pam.Transport.{
  WorkerFailure, CurrentUserIdentity, authenticated_identity, WorkerTransport, WorkerFactory,
  send_begin, send_answer, receive, finish, spawn_next,
}

pub data PamBackendError : Type 0 where
  spawn not_ready : PamBackendError

pub record PamReauthBackend : Type 0 where
  pub identity : CurrentUserIdentity
  pub conversation : AuthConversation
  pub factory : WorkerFactory
  pub worker : Option WorkerTransport
  pub worker_prompt : Option ℕ
  pub received_frames : ℕ

abbrev pub connect_failure : WorkerFailure → PamBackendError
connect_failure WorkerFailure.spawn = PamBackendError.spawn
connect_failure _ = not_ready

abbrev pub connected :
    CurrentUserIdentity
    → WorkerFactory × Result WorkerTransport WorkerFailure
    → Result PamReauthBackend PamBackendError
connected identity (factory, err failure) = err (connect_failure failure)
connected identity (factory, ok worker) = ok (record {
  identity = identity;
  conversation = Conversation.new;
  factory = factory;
  worker = some worker;
  worker_prompt = none;
  received_frames = 0;
})

unfoldable pub connect_with_factory :
    CurrentUserIdentity → WorkerFactory → Result PamReauthBackend PamBackendError
unfolding Conversation.new
connect_with_factory identity factory = connected identity (spawn_next factory)

-- A terminated worker is dropped.
unfoldable pub terminate_worker : PamReauthBackend → PamReauthBackend
terminate_worker b = record b { worker = none }

unfoldable pub fail_worker : PamReauthBackend → PamReauthBackend
unfolding Conversation.fail
fail_worker b = record b {
  worker = none;
  worker_prompt = none;
  conversation = Conversation.fail b.conversation;
}

unfoldable pub protocol_failure : PamReauthBackend → PamReauthBackend
unfolding Conversation.fail
protocol_failure b = record b {
  worker = none;
  worker_prompt = none;
  conversation = Conversation.fail b.conversation;
}

abbrev pub disconnected : PamReauthBackend → PamReauthBackend × Result (Unit {0}) BackendError
disconnected b = (
  record b { worker = none; conversation = Conversation.disconnect b.conversation },
  err unavailable,
)

abbrev pub finish_taken :
    Option WorkerTransport → PamReauthBackend → PamReauthBackend × Result (Unit {0}) BackendError
finish_taken none b = disconnected b
finish_taken (some worker) b = elim (finish worker) [
  | ok u ↦ (record b { worker = none; worker_prompt = none }, ok tt)
  | err failure ↦ disconnected b
]

unfoldable pub finish_worker : PamReauthBackend → PamReauthBackend × Result (Unit {0}) BackendError
unfolding Conversation.disconnect finish
finish_worker b = finish_taken b.worker b

-- An operation on the field `conversation`, with its error converted as `?` does.
abbrev pub on_conversation :
    PamReauthBackend
    → AuthConversation × Result (Unit {0}) CoreError
    → PamReauthBackend × Result (Unit {0}) BackendError
on_conversation b (v, ok u) = (record b { conversation = v }, ok tt)
on_conversation b (v, err e) = (record b { conversation = v }, err (core e))

-- What follows a `?`.
abbrev pub and_then :
    PamReauthBackend × Result (Unit {0}) BackendError
    → (PamReauthBackend → PamReauthBackend × Result (Unit {0}) BackendError)
    → PamReauthBackend × Result (Unit {0}) BackendError
and_then (b, ok u) f = f b
and_then (b, err e) f = (b, err e)

-- How one round of the loop in `drive_worker` ends.
pub data Next : Type 0 where
  return : Result (Unit {0}) BackendError → Next
  again : Next

abbrev pub returned : PamReauthBackend × Result (Unit {0}) BackendError → PamReauthBackend × Next
returned (b, r) = (b, return r)

abbrev pub violated : PamReauthBackend → PamReauthBackend × Next
violated b = (protocol_failure b, return (err protocol))

abbrev pub prompt_kind : WorkerPromptKind → PromptKind
prompt_kind WorkerPromptKind.secret = PromptKind.secret
prompt_kind WorkerPromptKind.visible = PromptKind.visible

abbrev pub message_level : WorkerMessageLevel → MessageLevel
message_level WorkerMessageLevel.info = MessageLevel.info
message_level WorkerMessageLevel.error = MessageLevel.error

-- After `emit_prompt`: any error is a protocol failure.
abbrev pub prompted :
    ℕ → PamReauthBackend × Result (Unit {0}) BackendError → PamReauthBackend × Next
prompted p (b, ok u) = (record b { worker_prompt = some p }, return (ok tt))
prompted p (b, err e) = violated b

abbrev pub told : PamReauthBackend × Result (Unit {0}) BackendError → PamReauthBackend × Next
told (b, ok u) = (b, again)
told (b, err e) = violated b

abbrev pub accept_identity : PamReauthBackend → PamReauthBackend × Result (Unit {0}) BackendError
accept_identity b = elim (authenticated_identity b.identity) [
  | ok identity ↦ on_conversation b (Conversation.authenticate b.conversation identity)
  | err e ↦ (b, err (core e))
]

unfoldable pub on_message : PamReauthBackend → WorkerMessage → PamReauthBackend × Next
unfolding fail_worker protocol_failure finish_worker authenticated_identity Conversation.emit_prompt
    Conversation.emit_message Conversation.authenticate Conversation.reject
on_message b WorkerMessage.ready = violated b
on_message b (WorkerMessage.prompt p kind text) =
    if is_some b.worker_prompt
    then violated b
    else prompted p
        (on_conversation b (Conversation.emit_prompt b.conversation (prompt_kind kind) text))
on_message b (WorkerMessage.message level text) =
    told (on_conversation b (Conversation.emit_message b.conversation (message_level level) text))
on_message b WorkerMessage.authenticated = returned (and_then (finish_worker b) accept_identity)
on_message b WorkerMessage.rejected =
    returned
      (and_then (finish_worker b) (λ b. on_conversation b (Conversation.reject b.conversation)))
on_message b WorkerMessage.fatal = (fail_worker b, return (err service))

unfoldable pub on_failure : PamReauthBackend → WorkerFailure → PamReauthBackend × Next
unfolding fail_worker protocol_failure
on_failure b WorkerFailure.protocol = violated b
on_failure b failure = (fail_worker b, return (err unavailable))

abbrev pub received :
    PamReauthBackend
    → WorkerTransport × Result WorkerMessage WorkerFailure
    → PamReauthBackend × Next
received b (w, ok m) = on_message (record b { worker = some w }) m
received b (w, err failure) = on_failure (record b { worker = some w }) failure

abbrev pub receive_from : Option WorkerTransport → PamReauthBackend → PamReauthBackend × Next
receive_from none b = on_failure b WorkerFailure.disconnected
receive_from (some w) b = received b (receive w)

-- The body of the loop; `usize` has 64 bits.
unfoldable pub round : PamReauthBackend → PamReauthBackend × Next
unfolding on_message on_failure protocol_failure receive
round b =
    if leb u64_max b.received_frames
    then violated b
    else if ltb max_transaction_frames (b.received_frames + 1)
    then violated (record b { received_frames = b.received_frames + 1 })
    else receive_from b.worker (record b { received_frames = b.received_frames + 1 })

abbrev pub continue_with :
    (PamReauthBackend → Option (PamReauthBackend × Result (Unit {0}) BackendError))
    → PamReauthBackend × Next
    → Option (PamReauthBackend × Result (Unit {0}) BackendError)
continue_with loop (b, return r) = some (b, r)
continue_with loop (b, again) = loop b

-- `none` means that the fuel ran out.
unfoldable pub drive_worker_for :
    ℕ → PamReauthBackend → Option (PamReauthBackend × Result (Unit {0}) BackendError)
drive_worker_for zero b = none
drive_worker_for (suc fuel) b = continue_with (drive_worker_for fuel) (round b)

-- One round more than there are frames in a transaction.
abbrev pub drive_fuel : ℕ
drive_fuel = 129

abbrev pub drive_worker :
    PamReauthBackend → Option (PamReauthBackend × Result (Unit {0}) BackendError)
drive_worker = drive_worker_for drive_fuel

-- Sending `Begin`, and the loop.
abbrev pub begin_worker :
    Option WorkerTransport
    → PamReauthBackend
    → Option (PamReauthBackend × Result (Unit {0}) BackendError)
begin_worker none b =
    some (record b { conversation = Conversation.fail b.conversation }, err unavailable)
begin_worker (some w) b =
    let (w', r) = send_begin w in
    elim r [
      | ok u ↦ drive_worker (record b { worker = some w' })
      | err failure ↦ some (fail_worker (record b { worker = some w' }), err unavailable)
    ]

abbrev pub spawn_worker :
    WorkerFactory × Result WorkerTransport WorkerFailure
    → PamReauthBackend
    → Option (PamReauthBackend × Result (Unit {0}) BackendError)
spawn_worker (factory, ok w) b = begin_worker (some w) (record b { factory = factory })
spawn_worker (factory, err failure) b = some (
  record b { factory = factory; conversation = Conversation.fail b.conversation },
  err unavailable,
)

-- A worker stands ready after `connect`; otherwise one is spawned.
abbrev pub with_worker :
    Option WorkerTransport
    → PamReauthBackend
    → Option (PamReauthBackend × Result (Unit {0}) BackendError)
with_worker (some w) b = begin_worker (some w) b
with_worker none b = spawn_worker (spawn_next b.factory) b

abbrev pub and_run :
    PamReauthBackend × Result (Unit {0}) BackendError
    → (PamReauthBackend → Option (PamReauthBackend × Result (Unit {0}) BackendError))
    → Option (PamReauthBackend × Result (Unit {0}) BackendError)
and_run (b, ok u) f = f b
and_run (b, err e) f = some (b, err e)

unfoldable pub begin_transaction :
    PamReauthBackend → Option (PamReauthBackend × Result (Unit {0}) BackendError)
unfolding Conversation.begin Conversation.fail fail_worker send_begin
begin_transaction b =
    and_run (on_conversation b (Conversation.begin b.conversation))
      (λ b. with_worker b.worker (record b { worker_prompt = none; received_frames = 0 }))

abbrev pub answer_failed :
    PamReauthBackend → WorkerFailure → Option (PamReauthBackend × Result (Unit {0}) BackendError)
answer_failed b WorkerFailure.protocol = some (protocol_failure b, err protocol)
answer_failed b failure = some (fail_worker b, err unavailable)

abbrev pub answer_worker :
    Option WorkerTransport
    → ℕ
    → Bytes
    → PamReauthBackend
    → Option (PamReauthBackend × Result (Unit {0}) BackendError)
answer_worker none p response b = answer_failed b WorkerFailure.disconnected
answer_worker (some w) p response b =
    let (w', r) = send_answer w p response in
    elim r [
      | ok u ↦ drive_worker (record b { worker = some w' })
      | err failure ↦ answer_failed (record b { worker = some w' }) failure
    ]

abbrev pub answer_taken :
    Option ℕ → Bytes → PamReauthBackend → Option (PamReauthBackend × Result (Unit {0}) BackendError)
answer_taken none response b = some (fail_worker b, err protocol)
answer_taken (some p) response b =
    answer_worker b.worker p response (record b { worker_prompt = none })

unfoldable pub answer_prompt :
    PamReauthBackend → PromptId → Bytes → Option (PamReauthBackend × Result (Unit {0}) BackendError)
unfolding Conversation.begin_response fail_worker protocol_failure send_answer
answer_prompt b p response =
    and_run (on_conversation b (Conversation.begin_response b.conversation p))
      (λ b. answer_taken b.worker_prompt response b)

unfoldable pub cancel_transaction :
    PamReauthBackend → PamReauthBackend × Result (Unit {0}) BackendError
unfolding Conversation.begin_cancel Conversation.complete_cancel terminate_worker
cancel_transaction b = and_then (on_conversation b (Conversation.begin_cancel b.conversation)) (λ b.
    on_conversation (record (terminate_worker b) { worker_prompt = none })
      (Conversation.complete_cancel b.conversation))
