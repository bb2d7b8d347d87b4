-- ===== src/Pam/Worker/Answers.antt =====
-- What crates/fomalhaut-pam/src/worker.rs hands to PAM as the answer to a prompt.
use fomalhaut.Common.{
  ℕ, ◌+◌, ◌≤◌, false, not, Result, ok, err, ltb, leb, ◌==◌, contains, ◌≡◌, refl, ◌∙◌, sym, ap,
  subst, if-elim, arith,
}
use fomalhaut.Pam.Bytes.{Bytes, is_utf8, Reader, Writer}
use fomalhaut.Pam.Ipc.{
  ParentMessage, WorkerPromptKind, WorkerMessage, IpcError, read_parent_message,
  write_worker_message,
}
use fomalhaut.Pam.Worker.{
  ErrorCode, WorkerConversation, count_frame, written, send, taken, receive, and_try, or_fail,
  accept, exchange, u64_max, prompt,
}

-- From the state before to the state after, with the answer.
pub record Answered (id : ℕ) (kind : WorkerPromptKind) (text : Bytes) (c d : WorkerConversation)
    (r : Bytes) : Type 0 where
  pub asked : write_worker_message c.writer (WorkerMessage.prompt id kind text) ≡ ok d.writer
  pub replied : read_parent_message c.reader ≡ ok (ParentMessage.answer id r, d.reader)
  pub clean : contains 0 r ≡ false
  pub counted : d.frames ≡ c.frames + 2
  pub limit : d.frames ≤ 128
  pub advanced : d.next_prompt ≡ c.next_prompt
  pub still : d.failed ≡ c.failed

-- A step that succeeds, as the predicate says.
abbrev Succeeds :
    {A E : Type 0} → (WorkerConversation → A → Type 0) → WorkerConversation × Result A E → Type 0
Succeeds P (d, ok r) = P d r
Succeeds P (d, err e) = Unit

Succeeds-map :
    {A E : Type 0} (P Q : WorkerConversation → A → Type 0) (x : WorkerConversation × Result A E)
    → ((d : WorkerConversation) (a : A) → P d a → Q d a)
    → Succeeds P x
    → Succeeds Q x
Succeeds-map P Q (d, ok a) f h = f d a h
Succeeds-map P Q (d, err e) f h = tt

or_fail-Succeeds :
    {A : Type 0} (P : WorkerConversation → Bytes → Type 0) (Q : WorkerConversation → A → Type 0)
    (f : WorkerConversation → A → WorkerConversation × Result Bytes ErrorCode)
    (x : WorkerConversation × Result A IpcError)
    → Succeeds Q x
    → ((d : WorkerConversation) (a : A) → Q d a → Succeeds P (f d a))
    → Succeeds P (or_fail f x)
or_fail-Succeeds P Q f (d, ok a) q h = h d a q
or_fail-Succeeds P Q f (d, err e) q h = tt

-- One more frame, and nothing else.
record Counts (c d : WorkerConversation) : Type 0 where
  one_more : d ≡ record c { frames = c.frames + 1 }
  within : c.frames + 1 ≤ 128

count_frame-Counts : (c : WorkerConversation) → Succeeds (λ d _. Counts c d) (count_frame c)
unfolding count_frame
count_frame-Counts c =
    if-elim (Succeeds (λ d _. Counts c d)) (leb u64_max c.frames) _ _ (λ _. tt)
      (λ _.
        if-elim (Succeeds (λ d _. Counts c d)) (ltb 128 (c.frames + 1)) _ _ (λ _. tt)
          (λ n. record { one_more = refl; within = ground arith }))

record Sends (m : WorkerMessage) (c d : WorkerConversation) : Type 0 where
  wrote : write_worker_message c.writer m ≡ ok d.writer
  sent_frame : d ≡ record c { frames = c.frames + 1; writer = d.writer }

abbrev set_writer : WorkerConversation → Writer → WorkerConversation
set_writer c w = record c { writer = w }

written-Sends :
    (m : WorkerMessage) (c d : WorkerConversation) (r : Result Writer IpcError)
    → write_worker_message c.writer m ≡ r
    → Counts c d
    → Succeeds (λ e _. Sends m c e) (written d r)
written-Sends m c d (ok w) e k = record {
  wrote = e;
  sent_frame = ap (λ (d : WorkerConversation). set_writer d w) k.one_more;
}
written-Sends m c d (err x) e k = tt

and_try-written :
    (m : WorkerMessage) (c : WorkerConversation)
    (x : WorkerConversation × Result (Unit {0}) IpcError)
    → Succeeds (λ d _. Counts c d) x
    → Succeeds (λ e _. Sends m c e) (and_try (λ c _. written c (write_worker_message c.writer m)) x)
and_try-written m c (d, ok _) k =
    written-Sends m c d (write_worker_message d.writer m)
      (ap (λ d. write_worker_message d.writer m) (sym k.one_more)) k
and_try-written m c (d, err e) k = tt

send-Sends : (m : WorkerMessage) (c : WorkerConversation) → Succeeds (λ e _. Sends m c e) (send c m)
unfolding send
send-Sends m c = and_try-written m c (count_frame c) (count_frame-Counts c)

taken-Succeeds :
    (c : WorkerConversation) (r : Result (ParentMessage × Reader) IpcError)
    → Succeeds (λ d m. (r ≡ ok (m, d.reader)) × (d ≡ record c { reader = d.reader })) (taken c r)
taken-Succeeds c (ok (m, r)) = (refl, refl)
taken-Succeeds c (err e) = tt

accept-Succeeds :
    (id : ℕ) (c : WorkerConversation) (m : ParentMessage)
    → Succeeds
        (λ d r. (d ≡ c) × (m ≡ ParentMessage.answer id r) × (contains 0 r ≡ false))
        (accept id c m)
accept-Succeeds id c (ParentMessage.answer p r) =
    let good = λ (d : WorkerConversation) (x : Bytes).
      (d ≡ c) × (ParentMessage.answer p r ≡ ParentMessage.answer id x) × (contains 0 x ≡ false) in
    if-elim (Succeeds good) (not (p == id)) _ _ (λ _. tt)
      (λ e.
        if-elim (Succeeds good) (contains 0 r) _ _ (λ _. tt)
          (λ n. (refl, ap (λ i. ParentMessage.answer i r) (ground arith), n)))
accept-Succeeds id c ParentMessage.begin = tt
accept-Succeeds id c (ParentMessage.prepare u) = tt

-- An answer to the prompt, which the reader held.
record Replies (id : ℕ) (c d : WorkerConversation) (r : Bytes) : Type 0 where
  replied : read_parent_message c.reader ≡ ok (ParentMessage.answer id r, d.reader)
  only_read : d ≡ record c { reader = d.reader }
  no_nul : contains 0 r ≡ false

receive-Succeeds :
    (id : ℕ) (c : WorkerConversation) → Succeeds (Replies id c) (or_fail (accept id) (receive c))
receive-Succeeds id c =
    or_fail-Succeeds (Replies id c)
      (λ d m.
        (read_parent_message c.reader ≡ ok (m, d.reader)) × (d ≡ record c { reader = d.reader }))
      (accept id) (receive c) (taken-Succeeds c (read_parent_message c.reader))
      (λ d m q.
        Succeeds-map (λ e r. (e ≡ d) × (m ≡ ParentMessage.answer id r) × (contains 0 r ≡ false))
          (Replies id c) (accept id d m)
          (λ e r (same, is, clean). record {
            replied = cc (q.0, same, is);
            only_read = subst (λ e. e ≡ record c { reader = e.reader }) (sym same) q.1;
            no_nul = clean;
          })
          (accept-Succeeds id d m))

answered :
    (id : ℕ) (kind : WorkerPromptKind) (text : Bytes) (c d e f : WorkerConversation) (r : Bytes)
    → Sends (WorkerMessage.prompt id kind text) c d
    → Counts d e
    → Replies id e f r
    → Answered id kind text c f r
answered id kind text c d e f r s k p =
    let ds = s.sent_frame in
    let es = k.one_more in
    let fs = p.only_read in
    record {
      asked =
          s.wrote
          ∙ ap ok (sym (ap (λ (x : WorkerConversation). x.writer) es))
          ∙ ap ok (sym (ap (λ (x : WorkerConversation). x.writer) fs));
      replied =
          subst (λ x. read_parent_message x ≡ ok (ParentMessage.answer id r, f.reader))
            (ap (λ (x : WorkerConversation). x.reader) es
              ∙ ap (λ (x : WorkerConversation). x.reader) ds)
            p.replied;
      clean = p.no_nul;
      counted = omega (
        arith,
        ap (λ (x : WorkerConversation). x.frames) ds,
        ap (λ (x : WorkerConversation). x.frames) es,
        ap (λ (x : WorkerConversation). x.frames) fs,
      );
      limit = omega (
        arith,
        k.within,
        ap (λ (x : WorkerConversation). x.frames) es,
        ap (λ (x : WorkerConversation). x.frames) fs,
      );
      advanced =
          ap (λ (x : WorkerConversation). x.next_prompt) fs
          ∙ ap (λ (x : WorkerConversation). x.next_prompt) es
          ∙ ap (λ (x : WorkerConversation). x.next_prompt) ds;
      still =
          ap (λ (x : WorkerConversation). x.failed) fs
          ∙ ap (λ (x : WorkerConversation). x.failed) es
          ∙ ap (λ (x : WorkerConversation). x.failed) ds;
    }

exchange-Answered :
    (id : ℕ) (kind : WorkerPromptKind) (text : Bytes) (c : WorkerConversation)
    → Succeeds (Answered id kind text c) (exchange id kind text c)
unfolding exchange
exchange-Answered id kind text c =
    or_fail-Succeeds (Answered id kind text c)
      (λ d _. Sends (WorkerMessage.prompt id kind text) c d)
      (λ c _. or_fail (λ c _. or_fail (accept id) (receive c)) (count_frame c))
      (send c (WorkerMessage.prompt id kind text))
      (send-Sends (WorkerMessage.prompt id kind text) c)
      (λ d _ s.
        or_fail-Succeeds (Answered id kind text c) (λ e _. Counts d e)
          (λ c _. or_fail (accept id) (receive c)) (count_frame d) (count_frame-Counts d)
          (λ e _ k.
            Succeeds-map (Replies id e) (Answered id kind text c) (or_fail (accept id) (receive e))
              (λ f r p. answered id kind text c d e f r s k p) (receive-Succeeds id e)))

-- Behind the prompt its number is spent.
abbrev pub spent : WorkerConversation → WorkerConversation
spent c = record c { next_prompt = c.next_prompt + 1 }

prompt-Succeeds :
    (c : WorkerConversation) (text : Bytes) (kind : WorkerPromptKind)
    → Succeeds
        (λ d r. (c.failed ≡ false) × Answered c.next_prompt kind text (spent c) d r)
        (prompt c text kind)
unfolding prompt
prompt-Succeeds c text kind =
    let p = λ (d : WorkerConversation) (r : Bytes).
      (c.failed ≡ false) × Answered c.next_prompt kind text (spent c) d r in
    if-elim (Succeeds p) c.failed _ _ (λ _. tt)
      (λ n.
        if-elim (Succeeds p) (not (is_utf8 text)) _ _ (λ _. tt)
          (λ _.
            if-elim (Succeeds p) (leb u64_max c.next_prompt) _ _ (λ _. tt)
              (λ _.
                Succeeds-map (Answered c.next_prompt kind text (spent c)) p
                  (exchange c.next_prompt kind text (spent c)) (λ d r a. (n, a))
                  (exchange-Answered c.next_prompt kind text (spent c)))))

-- When a prompt hands PAM a response, the conversation had not failed and has not, the prompt was
-- written as one frame under the next number, the next frame read is an answer to that number with
-- just this response, which holds no NUL, the number is spent, and the two frames are counted and
-- within the limit of 128.
pub prompt-Answered :
    (c d : WorkerConversation) (text r : Bytes) (kind : WorkerPromptKind)
    → prompt c text kind ≡ (d, ok r)
    → (c.failed ≡ false) × Answered c.next_prompt kind text (spent c) d r
prompt-Answered c d text r kind h =
    subst (Succeeds (λ d r. (c.failed ≡ false) × Answered c.next_prompt kind text (spent c) d r)) h
      (prompt-Succeeds c text kind)
