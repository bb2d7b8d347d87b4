-- ===== src/Pam/Worker/Sticky.antt =====
-- A conversation of crates/fomalhaut-pam/src/worker.rs that failed, and the limit on its frames.
use fomalhaut.Common.{
  ℕ, ◌+◌, ◌≤◌, true, false, not, Result, ok, err, leb, ◌≡◌, refl, sym, subst, if-elim, Bool-cases,
  ◌⊎◌, inl, inr, arith,
}
use fomalhaut.Pam.Bytes.{Bytes, is_utf8, Reader, Writer}
use fomalhaut.Pam.Ipc.{
  ParentMessage, WorkerPromptKind, WorkerMessageLevel, WorkerMessage, IpcError, read_parent_message,
  write_worker_message,
}
use fomalhaut.Pam.Worker.{
  ErrorCode, PamCall, done, ask, tell, WorkerConversation, count_frame, u64_max, written, send,
  taken, receive, and_try, or_fail, accept, exchange, prompt, message, sent, call,
}

prompt-failed :
    (c : WorkerConversation) (text : Bytes) (kind : WorkerPromptKind)
    → c.failed ≡ true
    → prompt c text kind ≡ (c, err ErrorCode.conv_err)
unfolding prompt
prompt-failed c text kind h = simp h refl

message-failed :
    (c : WorkerConversation) (text : Bytes) (level : WorkerMessageLevel)
    → c.failed ≡ true
    → message c text level ≡ c
unfolding message
message-failed c text level h = simp h refl

-- Once the conversation failed, a PAM call reads nothing, writes nothing, and changes nothing,
-- whatever it asks or tells.
pub call-failed : (p : PamCall) (c : WorkerConversation) → c.failed ≡ true → (call p c).0 ≡ c
unfolding call
call-failed (done r) c h = refl
call-failed (ask kind text k) c h =
    subst (λ x. (call (k x.1) x.0).0 ≡ c) (sym (prompt-failed c text kind h))
      (call-failed (k (err ErrorCode.conv_err)) c h)
call-failed (tell level text k) c h =
    subst (λ x. (call k x).0 ≡ c) (sym (message-failed c text level h)) (call-failed k c h)

-- The counter passes the limit only in a conversation that failed, and then by one.
pub record WithinLimit (c : WorkerConversation) : Type 0 where
  pub live : c.failed ≡ false → c.frames ≤ 128
  pub bound : c.frames ≤ 129

-- A step, and what it returns where it succeeds.
abbrev Counted {ℓ} : {A : Type ℓ} → WorkerConversation × Result A IpcError → Type 0
Counted (c, ok _) = c.frames ≤ 128
Counted (c, err e) = c.frames ≤ 129

count_frame-Counted : (c : WorkerConversation) → c.frames ≤ 128 → Counted (count_frame c)
unfolding count_frame
count_frame-Counted c h = ground arith

written-Counted :
    (c : WorkerConversation) (r : Result Writer IpcError) → c.frames ≤ 128 → Counted (written c r)
written-Counted c (ok w) h = h
written-Counted c (err e) h = omega arith

taken-Counted :
    (c : WorkerConversation) (r : Result (ParentMessage × Reader) IpcError)
    → c.frames ≤ 128
    → Counted (taken c r)
taken-Counted c (ok (m, r)) h = h
taken-Counted c (err e) h = omega arith

and_try-Counted {ℓ κ} :
    {A : Type ℓ} {B : Type κ} (f : WorkerConversation → A → WorkerConversation × Result B IpcError)
    (x : WorkerConversation × Result A IpcError)
    → ((c : WorkerConversation) (a : A) → c.frames ≤ 128 → Counted (f c a))
    → Counted x
    → Counted (and_try f x)
and_try-Counted f (c, ok a) h x = h c a x
and_try-Counted f (c, err e) h x = x

send-Counted : (c : WorkerConversation) (m : WorkerMessage) → c.frames ≤ 128 → Counted (send c m)
unfolding send
send-Counted c m h =
    and_try-Counted (λ c _. written c (write_worker_message c.writer m)) (count_frame c)
      (λ c _ h. written-Counted c (write_worker_message c.writer m) h) (count_frame-Counted c h)

or_fail-WithinLimit {ℓ} :
    {A : Type ℓ} (f : WorkerConversation → A → WorkerConversation × Result Bytes ErrorCode)
    (x : WorkerConversation × Result A IpcError)
    → ((c : WorkerConversation) (a : A) → c.frames ≤ 128 → WithinLimit (f c a).0)
    → Counted x
    → WithinLimit (or_fail f x).0
or_fail-WithinLimit f (c, ok a) h x = h c a x
or_fail-WithinLimit f (c, err e) h x = record { live = λ h. absurd cc; bound = x }

accept-WithinLimit :
    (id : ℕ) (c : WorkerConversation) (m : ParentMessage)
    → c.frames ≤ 128
    → WithinLimit (accept id c m).0
accept-WithinLimit id c (ParentMessage.answer p response) h = record {
  live = λ _. ground arith;
  bound = ground arith;
}
accept-WithinLimit id c ParentMessage.begin h = record {
  live = λ _. ground arith;
  bound = ground arith;
}
accept-WithinLimit id c (ParentMessage.prepare u) h = record {
  live = λ _. ground arith;
  bound = ground arith;
}

receive-WithinLimit :
    (id : ℕ) (c : WorkerConversation)
    → c.frames ≤ 128
    → WithinLimit (or_fail (accept id) (receive c)).0
receive-WithinLimit id c h =
    or_fail-WithinLimit (accept id) (receive c) (accept-WithinLimit id)
      (taken-Counted c (read_parent_message c.reader) h)

count-WithinLimit :
    (id : ℕ) (c : WorkerConversation)
    → c.frames ≤ 128
    → WithinLimit (or_fail (λ c _. or_fail (accept id) (receive c)) (count_frame c)).0
count-WithinLimit id c h =
    or_fail-WithinLimit (λ c _. or_fail (accept id) (receive c)) (count_frame c)
      (λ c _ h. receive-WithinLimit id c h) (count_frame-Counted c h)

exchange-WithinLimit :
    (id : ℕ) (kind : WorkerPromptKind) (text : Bytes) (c : WorkerConversation)
    → c.frames ≤ 128
    → WithinLimit (exchange id kind text c).0
unfolding exchange
exchange-WithinLimit id kind text c h =
    or_fail-WithinLimit (λ c _. or_fail (λ c _. or_fail (accept id) (receive c)) (count_frame c))
      (send c (WorkerMessage.prompt id kind text)) (λ c _ h. count-WithinLimit id c h)
      (send-Counted c (WorkerMessage.prompt id kind text) h)

prompt-WithinLimit :
    (c : WorkerConversation) (text : Bytes) (kind : WorkerPromptKind)
    → WithinLimit c
    → WithinLimit (prompt c text kind).0
unfolding prompt
prompt-WithinLimit c text kind h =
    let p = λ (x : WorkerConversation × Result Bytes ErrorCode). WithinLimit x.0 in
    if-elim p c.failed _ _ (λ _. h)
      (λ n.
        if-elim p (not (is_utf8 text)) _ _ (λ _. h)
          (λ _.
            if-elim p (leb u64_max c.next_prompt) _ _ (λ _. h)
              (λ _.
                exchange-WithinLimit c.next_prompt kind text
                  (record c { next_prompt = c.next_prompt + 1 }) (h.live n))))

sent-WithinLimit :
    (x : WorkerConversation × Result (Unit {0}) IpcError) → Counted x → WithinLimit (sent x)
sent-WithinLimit (c, ok _) h = record { live = λ _. h; bound = omega arith }
sent-WithinLimit (c, err e) h = record { live = λ h. absurd cc; bound = h }

message-WithinLimit :
    (c : WorkerConversation) (text : Bytes) (level : WorkerMessageLevel)
    → WithinLimit c
    → WithinLimit (message c text level)
unfolding message
message-WithinLimit c text level h =
    if-elim WithinLimit c.failed _ _ (λ _. h)
      (λ n.
        if-elim WithinLimit (not (is_utf8 text)) _ _
          (λ _. record { live = λ h. absurd cc; bound = h.bound })
          (λ _.
            sent-WithinLimit (send c (WorkerMessage.message level text))
              (send-Counted c (WorkerMessage.message level text) (h.live n))))

pub call-WithinLimit :
    (p : PamCall) (c : WorkerConversation) → WithinLimit c → WithinLimit (call p c).0
unfolding call
call-WithinLimit (done r) c h = h
call-WithinLimit (ask kind text k) c h =
    call-WithinLimit (k (prompt c text kind).1) (prompt c text kind).0
      (prompt-WithinLimit c text kind h)
call-WithinLimit (tell level text k) c h =
    call-WithinLimit k (message c text level) (message-WithinLimit c text level h)

-- A PAM call that starts within the limit of 128 frames leaves the conversation within it, or leaves
-- it failed with at most 129 frames counted, whatever the call asks and tells, and whatever is read.
pub call-limited :
    (p : PamCall) (c : WorkerConversation)
    → c.frames ≤ 128
    → ((call p c).0.frames ≤ 128) ⊎ (((call p c).0.failed ≡ true) × ((call p c).0.frames ≤ 129))
call-limited p c h =
    let w = call-WithinLimit p c (record { live = λ _. h; bound = omega arith }) in
    elim (Bool-cases (call p c).0.failed) [ inl e ↦ inr (e, w.bound) | inr n ↦ inl (w.live n) ]
