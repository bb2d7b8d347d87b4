-- ===== src/Pam/Worker.antt =====
-- crates/fomalhaut-pam/src/worker.rs: one PAM transaction over the framed channel.
-- The crate pam_client is a parameter: what a PAM call does is the tree of what it asks and tells.
-- A read or a write that fails leaves the reader and the writer as they were.
pub mod Verdict
pub mod Sticky
pub mod Answers
use fomalhaut.Common.{
  ℕ, ◌+◌, Bool, true, false, not, List, [], ◌∷◌, Result, ok, err, ltb, leb, ◌==◌, if◌then◌else◌,
  contains,
}
use fomalhaut.Pam.Bytes.{Bytes, is_utf8, Reader, Writer}
use fomalhaut.Pam.Ipc.{
  max_transaction_frames, ParentMessage, WorkerPromptKind, WorkerMessageLevel, WorkerMessage,
  IpcError, invalid_frame, limit_exceeded, read_parent_message, write_worker_message,
}

pub data PamWorkerError : Type 0 where
  startup_protocol pam ipc : PamWorkerError

-- The codes that worker.rs names, and all others.
pub data ErrorCode : Type 0 where
  perm_denied auth_err cred_insufficient user_unknown maxtries new_authtok_reqd : ErrorCode
  acct_expired authtok_expired conv_err other : ErrorCode

-- What a PAM call does: its result, or a prompt, whose answer it reads, or a message.
pub data PamCall : Type 0 where
  done : Result (Unit {0}) ErrorCode → PamCall
  ask : WorkerPromptKind → Bytes → (Result Bytes ErrorCode → PamCall) → PamCall
  tell : WorkerMessageLevel → Bytes → PamCall → PamCall

-- For a user: whether `Context::new` succeeds, and what `authenticate` and `acct_mgmt` do.
pub record Stack : Type 0 where
  pub context : Bytes → Bool
  pub authenticates : Bytes → PamCall
  pub manages : Bytes → PamCall

pub data PamOutcome : Type 0 where
  authenticated rejected : PamOutcome
  fatal : PamWorkerError → PamOutcome

unfoldable pub outcome_message : PamOutcome → WorkerMessage
outcome_message authenticated = WorkerMessage.authenticated
outcome_message rejected = WorkerMessage.rejected
outcome_message (fatal e) = WorkerMessage.fatal

unfoldable pub outcome_result : PamOutcome → Result (Unit {0}) PamWorkerError
outcome_result authenticated = ok tt
outcome_result rejected = ok tt
outcome_result (fatal e) = err e

pub record WorkerConversation : Type 0 where
  pub reader : Reader
  pub writer : Writer
  pub next_prompt : ℕ
  pub frames : ℕ
  pub failed : Bool

unfoldable pub new : Reader → Writer → WorkerConversation
new reader writer = record {
  reader = reader;
  writer = writer;
  next_prompt = 1;
  frames = 0;
  failed = false;
}

-- 2 ^ 64 - 1
abbrev pub u64_max : ℕ
u64_max = 18446744073709551615

unfoldable pub count_frame : WorkerConversation → WorkerConversation × Result (Unit {0}) IpcError
count_frame c =
    if leb u64_max c.frames
    then (c, err limit_exceeded)
    else if ltb max_transaction_frames (c.frames + 1)
    then (record c { frames = c.frames + 1 }, err limit_exceeded)
    else (record c { frames = c.frames + 1 }, ok tt)

-- The rest of a method behind `?`.
abbrev pub and_try {ℓ κ} :
    {A : Type ℓ} {B : Type κ}
    → (WorkerConversation → A → WorkerConversation × Result B IpcError)
    → WorkerConversation × Result A IpcError
    → WorkerConversation × Result B IpcError
and_try f (c, ok a) = f c a
and_try f (c, err e) = (c, err e)

abbrev pub written :
    WorkerConversation → Result Writer IpcError → WorkerConversation × Result (Unit {0}) IpcError
written c (ok w) = (record c { writer = w }, ok tt)
written c (err e) = (c, err e)

unfoldable pub send :
    WorkerConversation → WorkerMessage → WorkerConversation × Result (Unit {0}) IpcError
unfolding count_frame
send c m = and_try (λ c _. written c (write_worker_message c.writer m)) (count_frame c)

abbrev pub taken :
    WorkerConversation
    → Result (ParentMessage × Reader) IpcError
    → WorkerConversation × Result ParentMessage IpcError
taken c (ok (m, r)) = (record c { reader = r }, ok m)
taken c (err e) = (c, err e)

-- `read_parent_message(&mut self.reader)`.
abbrev pub receive : WorkerConversation → WorkerConversation × Result ParentMessage IpcError
receive c = taken c (read_parent_message c.reader)

abbrev pub expect_begin :
    WorkerConversation → ParentMessage → WorkerConversation × Result (Unit {0}) IpcError
expect_begin c ParentMessage.begin = (c, ok tt)
expect_begin c (ParentMessage.prepare u) = (c, err invalid_frame)
expect_begin c (ParentMessage.answer p r) = (c, err invalid_frame)

unfoldable pub wait_for_begin : WorkerConversation → WorkerConversation × Result (Unit {0}) IpcError
unfolding count_frame
wait_for_begin c = and_try (λ c _. and_try expect_begin (receive c)) (count_frame c)

abbrev pub conversation_error : WorkerConversation → WorkerConversation × Result Bytes ErrorCode
conversation_error c = (record c { failed = true }, err conv_err)

-- `map_err`, which sets `failed`, and `?`.
abbrev pub or_fail {ℓ} :
    {A : Type ℓ}
    → (WorkerConversation → A → WorkerConversation × Result Bytes ErrorCode)
    → WorkerConversation × Result A IpcError
    → WorkerConversation × Result Bytes ErrorCode
or_fail f (c, ok a) = f c a
or_fail f (c, err e) = conversation_error c

-- The checks of the answer to a prompt; a C string holds no NUL.
abbrev pub accept :
    ℕ → WorkerConversation → ParentMessage → WorkerConversation × Result Bytes ErrorCode
accept id c (ParentMessage.answer p response) =
    if not (p == id)
    then conversation_error c
    else if contains 0 response
    then conversation_error c
    else (c, ok response)
accept id c ParentMessage.begin = conversation_error c
accept id c (ParentMessage.prepare u) = conversation_error c

unfoldable pub exchange :
    ℕ → WorkerPromptKind → Bytes → WorkerConversation → WorkerConversation × Result Bytes ErrorCode
unfolding send count_frame
exchange id kind text c =
    or_fail (λ c _. or_fail (λ c _. or_fail (accept id) (receive c)) (count_frame c))
      (send c (WorkerMessage.prompt id kind text))

unfoldable pub prompt :
    WorkerConversation → Bytes → WorkerPromptKind → WorkerConversation × Result Bytes ErrorCode
unfolding exchange is_utf8
prompt c text kind =
    if c.failed
    then (c, err conv_err)
    else if not (is_utf8 text)
    then (c, err conv_err)
    else if leb u64_max c.next_prompt
    then (c, err conv_err)
    else exchange c.next_prompt kind text (record c { next_prompt = c.next_prompt + 1 })

abbrev pub sent : WorkerConversation × Result (Unit {0}) IpcError → WorkerConversation
sent (c, ok _) = c
sent (c, err e) = record c { failed = true }

unfoldable pub message : WorkerConversation → Bytes → WorkerMessageLevel → WorkerConversation
unfolding send is_utf8
message c text level =
    if c.failed
    then c
    else if not (is_utf8 text)
    then record c { failed = true }
    else sent (send c (WorkerMessage.message level text))

-- A PAM call with the handler of its conversation: `prompt_echo_on`, `prompt_echo_off`,
-- `text_info` and `error_msg`.
unfoldable pub call :
    PamCall → WorkerConversation → WorkerConversation × Result (Unit {0}) ErrorCode
unfolding prompt message
call (done r) c = (c, r)
call (ask kind text k) c = let (c, r) = prompt c text kind in call (k r) c
call (tell level text k) c = call k (message c text level)

abbrev pub is_rejection : ErrorCode → Bool
is_rejection conv_err = false
is_rejection other = false
is_rejection perm_denied = true
is_rejection auth_err = true
is_rejection cred_insufficient = true
is_rejection user_unknown = true
is_rejection maxtries = true
is_rejection new_authtok_reqd = true
is_rejection acct_expired = true
is_rejection authtok_expired = true

unfoldable pub pam_error_outcome : WorkerConversation → ErrorCode → PamOutcome
pam_error_outcome c code =
    if c.failed then fatal ipc else if is_rejection code then rejected else fatal pam

abbrev pub and_then_pam :
    (WorkerConversation → WorkerConversation × PamOutcome)
    → WorkerConversation × Result (Unit {0}) ErrorCode
    → WorkerConversation × PamOutcome
and_then_pam f (c, err code) = (c, pam_error_outcome c code)
and_then_pam f (c, ok _) = if c.failed then (c, fatal ipc) else f c

unfoldable pub authenticate : Stack → Bytes → WorkerConversation → WorkerConversation × PamOutcome
unfolding call pam_error_outcome
authenticate stack username c =
    and_then_pam (λ c. and_then_pam (λ c. (c, authenticated)) (call (stack.manages username) c))
      (call (stack.authenticates username) c)

abbrev pub begun :
    Stack
    → Bytes
    → WorkerConversation × Result (Unit {0}) IpcError
    → WorkerConversation × PamOutcome
begun stack username (c, ok _) = authenticate stack username c
begun stack username (c, err e) = (c, fatal startup_protocol)

-- Behind `drop(context)`.
abbrev pub report_to :
    Writer → PamOutcome → Result Writer IpcError → Writer × Result (Unit {0}) PamWorkerError
report_to writer outcome (ok w) = (w, outcome_result outcome)
report_to writer outcome (err e) = (writer, err ipc)

abbrev pub report : WorkerConversation × PamOutcome → Writer × Result (Unit {0}) PamWorkerError
report (c, outcome) =
    report_to c.writer outcome (write_worker_message c.writer (outcome_message outcome))

abbrev pub on_ready :
    Stack
    → Bytes
    → WorkerConversation × Result (Unit {0}) IpcError
    → Writer × Result (Unit {0}) PamWorkerError
on_ready stack username (c, ok _) = report (begun stack username (wait_for_begin c))
on_ready stack username (c, err e) = (c.writer, err ipc)

abbrev pub prepared :
    Stack
    → Writer
    → Result (ParentMessage × Reader) IpcError
    → Writer × Result (Unit {0}) PamWorkerError
prepared stack writer (ok (ParentMessage.prepare username, r)) =
    if stack.context username
    then on_ready stack username (send (new r writer) WorkerMessage.ready)
    else (writer, err pam)
prepared stack writer (ok (ParentMessage.begin, r)) = (writer, err startup_protocol)
prepared stack writer (ok (ParentMessage.answer p x, r)) = (writer, err startup_protocol)
prepared stack writer (err e) = (writer, err startup_protocol)

unfoldable pub run_pam_worker_with :
    Stack → Reader → Writer → Writer × Result (Unit {0}) PamWorkerError
unfolding send new wait_for_begin authenticate outcome_message outcome_result
run_pam_worker_with stack reader writer = prepared stack writer (read_parent_message reader)
