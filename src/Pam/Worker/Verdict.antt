-- ===== src/Pam/Worker/Verdict.antt =====
-- When the worker of crates/fomalhaut-pam/src/worker.rs reports that PAM authenticated the user.
use fomalhaut.Common.{false, Result, ok, err, ◌≡◌, refl, subst, if-elim, ◌⊎◌, inl, inr}
use fomalhaut.Pam.Bytes.{Bytes, Reader, Writer}
use fomalhaut.Pam.Ipc.{
  ParentMessage, WorkerMessage, IpcError, read_parent_message, write_worker_message,
}
use fomalhaut.Pam.Worker.{
  PamWorkerError, ErrorCode, Stack, PamOutcome, outcome_message, outcome_result, WorkerConversation,
  new, send, wait_for_begin, call, pam_error_outcome, is_rejection, and_then_pam, authenticate,
  begun, report_to, report, on_ready, prepared, run_pam_worker_with,
}

-- Both calls of PAM succeeded, one behind the other, in a conversation that never failed.
pub record IsVouched (stack : Stack) (username : Bytes) (c e : WorkerConversation) : Type 0 where
  pub between : WorkerConversation
  pub authenticates : call (stack.authenticates username) c ≡ (between, ok tt)
  pub sound_between : between.failed ≡ false
  pub manages : call (stack.manages username) between ≡ (e, ok tt)
  pub sound_after : e.failed ≡ false

abbrev Vouches : Stack → Bytes → WorkerConversation → WorkerConversation × PamOutcome → Type 0
Vouches stack username c (e, PamOutcome.authenticated) = IsVouched stack username c e
Vouches stack username c (e, PamOutcome.rejected) = e.failed ≡ false
Vouches stack username c (e, PamOutcome.fatal x) = Unit

pam_error_outcome-Vouches :
    (stack : Stack) (username : Bytes) (c e : WorkerConversation) (code : ErrorCode)
    → Vouches stack username c (e, pam_error_outcome e code)
unfolding pam_error_outcome
pam_error_outcome-Vouches stack username c e code =
    if-elim (λ o. Vouches stack username c (e, o)) e.failed _ _ (λ _. tt)
      (λ n.
        if-elim (λ o. Vouches stack username c (e, o)) (is_rejection code) _ _ (λ _. n) (λ _. tt))

managed-Vouches :
    (stack : Stack) (username : Bytes) (c d : WorkerConversation)
    (x : WorkerConversation × Result (Unit {0}) ErrorCode)
    → call (stack.authenticates username) c ≡ (d, ok tt)
    → d.failed ≡ false
    → call (stack.manages username) d ≡ x
    → Vouches stack username c (and_then_pam (λ c. (c, PamOutcome.authenticated)) x)
managed-Vouches stack username c d (e, err code) a n m =
    pam_error_outcome-Vouches stack username c e code
managed-Vouches stack username c d (e, ok _) a n m =
    if-elim (Vouches stack username c) e.failed _ _ (λ _. tt)
      (λ f. record {
        between = d;
        authenticates = a;
        sound_between = n;
        manages = m;
        sound_after = f;
      })

authenticated-Vouches :
    (stack : Stack) (username : Bytes) (c : WorkerConversation)
    (x : WorkerConversation × Result (Unit {0}) ErrorCode)
    → call (stack.authenticates username) c ≡ x
    → Vouches stack username c (
        and_then_pam
          (λ c. and_then_pam (λ c. (c, PamOutcome.authenticated)) (call (stack.manages username) c))
          x)
authenticated-Vouches stack username c (d, err code) a =
    pam_error_outcome-Vouches stack username c d code
authenticated-Vouches stack username c (d, ok _) a =
    if-elim (Vouches stack username c) d.failed _ _ (λ _. tt)
      (λ n. managed-Vouches stack username c d (call (stack.manages username) d) a n refl)

authenticate-Vouches :
    (stack : Stack) (username : Bytes) (c : WorkerConversation)
    → Vouches stack username c (authenticate stack username c)
unfolding authenticate
authenticate-Vouches stack username c =
    authenticated-Vouches stack username c (call (stack.authenticates username) c) refl

-- The worker was prepared for a user, said that it is ready, and was told to begin; and it ran to
-- its verdict, which is its last frame, in a conversation that did not fail.
pub record Ended (stack : Stack) (reader : Reader) (writer w : Writer) : Type 0 where
  pub username : Bytes
  pub rest : Reader
  pub prepared_for : read_parent_message reader ≡ ok (ParentMessage.prepare username, rest)
  pub waits : WorkerConversation
  pub begins : WorkerConversation
  pub ends : WorkerConversation
  pub readied : send (new rest writer) WorkerMessage.ready ≡ (waits, ok tt)
  pub begun_by : wait_for_begin waits ≡ (begins, ok tt)
  pub sound : ends.failed ≡ false
  pub verdict :
      (write_worker_message ends.writer WorkerMessage.rejected ≡ ok w)
      ⊎ (IsVouched stack username begins ends
          × (write_worker_message ends.writer WorkerMessage.authenticated ≡ ok w))

abbrev EndedWell : Stack → Reader → Writer → Writer × Result (Unit {0}) PamWorkerError → Type 0
EndedWell stack reader writer (w, ok _) = Ended stack reader writer w
EndedWell stack reader writer (w, err e) = Unit

module _ (stack : Stack) (reader rest : Reader) (writer : Writer) (username : Bytes)
    (p : read_parent_message reader ≡ ok (ParentMessage.prepare username, rest)) where
  report-Ended :
      (d c e : WorkerConversation) (o : PamOutcome) (r : Result Writer IpcError)
      → send (new rest writer) WorkerMessage.ready ≡ (d, ok tt)
      → wait_for_begin d ≡ (c, ok tt)
      → Vouches stack username c (e, o)
      → write_worker_message e.writer (outcome_message o) ≡ r
      → EndedWell stack reader writer (report_to e.writer o r)
  unfolding outcome_message outcome_result
  report-Ended d c e o (err x) s b v h = tt
  report-Ended d c e PamOutcome.authenticated (ok w) s b v h = record {
    username = username;
    rest = rest;
    prepared_for = p;
    waits = d;
    begins = c;
    ends = e;
    readied = s;
    begun_by = b;
    sound = v.sound_after;
    verdict = inr (v, h);
  }
  report-Ended d c e PamOutcome.rejected (ok w) s b v h = record {
    username = username;
    rest = rest;
    prepared_for = p;
    waits = d;
    begins = c;
    ends = e;
    readied = s;
    begun_by = b;
    sound = v;
    verdict = inl h;
  }
  report-Ended d c e (PamOutcome.fatal x) (ok w) s b v h = tt

  fatal-Ended :
      (c : WorkerConversation) (r : Result Writer IpcError)
      → EndedWell stack reader writer
          (report_to c.writer (PamOutcome.fatal PamWorkerError.startup_protocol) r)
  unfolding outcome_result
  fatal-Ended c (ok w) = tt
  fatal-Ended c (err x) = tt

  begun-Ended :
      (d : WorkerConversation) (x : WorkerConversation × Result (Unit {0}) IpcError)
      → send (new rest writer) WorkerMessage.ready ≡ (d, ok tt)
      → wait_for_begin d ≡ x
      → EndedWell stack reader writer (report (begun stack username x))
  unfolding outcome_message
  begun-Ended d (c, ok _) s b =
      let (e, o) = authenticate stack username c in
      report-Ended d c e o (write_worker_message e.writer (outcome_message o)) s b
        (authenticate-Vouches stack username c) refl
  begun-Ended d (c, err e) s b = fatal-Ended c (write_worker_message c.writer WorkerMessage.fatal)

  on_ready-Ended :
      (x : WorkerConversation × Result (Unit {0}) IpcError)
      → send (new rest writer) WorkerMessage.ready ≡ x
      → EndedWell stack reader writer (on_ready stack username x)
  on_ready-Ended (d, ok _) s = begun-Ended d (wait_for_begin d) s refl
  on_ready-Ended (d, err e) s = tt

prepared-Ended :
    (stack : Stack) (reader : Reader) (writer : Writer)
    (r : Result (ParentMessage × Reader) IpcError)
    → read_parent_message reader ≡ r
    → EndedWell stack reader writer (prepared stack writer r)
prepared-Ended stack reader writer (ok (ParentMessage.prepare username, rest)) h =
    if-elim (EndedWell stack reader writer) (stack.context username) _ _
      (λ _.
        on_ready-Ended stack reader rest writer username h
          (send (new rest writer) WorkerMessage.ready) refl)
      (λ _. tt)
prepared-Ended stack reader writer (ok (ParentMessage.begin, rest)) h = tt
prepared-Ended stack reader writer (ok (ParentMessage.answer p x, rest)) h = tt
prepared-Ended stack reader writer (err e) h = tt

-- When run_pam_worker_with succeeds, the first frame that it read prepares it for a user, it wrote
-- READY, the next frame told it to begin, its conversation has not failed, and the last frame that it
-- wrote is REJECTED, or it is AUTHENTICATED and both PAM calls for just
-- this user, authenticate and then acct_mgmt, succeeded in a conversation that never failed.
pub run_pam_worker_with-Ended :
    (stack : Stack) (reader : Reader) (writer w : Writer)
    → run_pam_worker_with stack reader writer ≡ (w, ok tt)
    → Ended stack reader writer w
unfolding run_pam_worker_with
run_pam_worker_with-Ended stack reader writer w h =
    subst (EndedWell stack reader writer) h
      (prepared-Ended stack reader writer (read_parent_message reader) refl)
