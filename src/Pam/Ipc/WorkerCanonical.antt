-- ===== src/Pam/Ipc/WorkerCanonical.antt =====
-- The worker's messages are read in one spelling only (crates/fomalhaut-pam/src/ipc.rs).
use fomalhaut.Common.{
  ℕ, ◌≤◌, ◌∷◌, ◌++◌, Result, ok, err, >=>-eq-ok, ok-injective, length, take, drop, is_empty, ==→eq,
  ◌≡◌, refl, sym, ap, subst, ◌∙◌, ◌&&◌, ◌||◌, leb, ◌==◌, true, Bool-cases, inl, inr, arith,
  if◌then◌else◌,
}
use fomalhaut.Pam.Bytes.{Bytes, AreBytes, Reader, to_be_bytes, from_be_bytes}
use fomalhaut.Pam.Bytes.Words.{to_be_bytes-from_be_bytes, from_be_bytes-lt}
use fomalhaut.Pam.Ipc.{
  WorkerMessage, ready, prompt, message, authenticated, rejected, fatal, WorkerPromptKind, secret,
  visible, WorkerMessageLevel, info, error, IpcError, prompt_tag, message_tag, max_prompt_bytes,
  decode_text, read_frame, decode_prompt, decode_message, decode_worker, read_worker_message,
}
use fomalhaut.Pam.Ipc.Frames.{
  frame, take-append-drop, length-take, AreBytes-take, ReadFrame, read_frame-ReadFrame,
}
use fomalhaut.Pam.Ipc.Texts.{decode_text-eq-ok, is_empty-eq}
use fomalhaut.Pam.Ipc.Worker.{tag_of, payload_of, Carries, IsU64}

-- A message that was decoded, and its only spelling.
pub record Decoded (tag : ℕ) (payload : Bytes) (m : WorkerMessage) : Type 0 where
  pub tag_is : tag ≡ tag_of m
  pub payload_is : payload ≡ payload_of m
  pub carried : Carries m
  pub prompt_is_u64 : IsU64 m

decode_prompt-Decoded :
    (kind : WorkerPromptKind) (payload : Bytes) {m : WorkerMessage}
    → AreBytes payload
    → 8 ≤ length payload
    → decode_prompt kind payload ≡ ok m
    → Decoded (prompt_tag kind) payload m
unfolding decode_prompt
decode_prompt-Decoded kind payload b l h =
    let (text, decoded, same) =
      >=>-eq-ok (decode_text (drop 8 payload) max_prompt_bytes true) _ h in
    let (whole, carried) = decode_text-eq-ok (drop 8 payload) max_prompt_bytes true decoded in
    subst (Decoded (prompt_tag kind) payload)
      (ap (prompt (from_be_bytes (take 8 payload)) kind) whole ∙ ok-injective same)
      (record {
        tag_is = refl;
        payload_is =
            sym (take-append-drop 8 payload) ∙ ap (λ bs. bs ++ drop 8 payload) (sym prefix);
        carried = carried;
        prompt_is_u64 = rw eight at (from_be_bytes-lt (take 8 payload) (AreBytes-take 8 payload b));
      })
  where
    eight : length (take 8 payload) ≡ 8
    eight = length-take 8 payload l

    prefix : to_be_bytes 8 (from_be_bytes (take 8 payload)) ≡ take 8 payload
    prefix = rw eight at (to_be_bytes-from_be_bytes (take 8 payload) (AreBytes-take 8 payload b))

decode_message-Decoded :
    (level : WorkerMessageLevel) (payload : Bytes) {m : WorkerMessage}
    → decode_message level payload ≡ ok m
    → Decoded (message_tag level) payload m
unfolding decode_message
decode_message-Decoded level payload h =
    let (text, decoded, same) = >=>-eq-ok (decode_text payload max_prompt_bytes true) _ h in
    let (whole, carried) = decode_text-eq-ok payload max_prompt_bytes true decoded in
    subst (Decoded (message_tag level) payload) (ap (message level) whole ∙ ok-injective same)
      (record { tag_is = refl; payload_is = refl; carried = carried; prompt_is_u64 = tt })

-- A message with no payload.
abbrev IsBare : WorkerMessage → Type 0
IsBare (prompt p kind text) = ⊥
IsBare (message level text) = ⊥
IsBare m = Unit

Decoded-bare :
    (m : WorkerMessage) (payload : Bytes)
    → IsBare m
    → is_empty payload ≡ true
    → Decoded (tag_of m) payload m
Decoded-bare (prompt p kind text) payload b e = absurd b
Decoded-bare (message level text) payload b e = absurd b
Decoded-bare ready payload b e = record {
  tag_is = refl;
  payload_is = is_empty-eq payload e;
  carried = tt;
  prompt_is_u64 = tt;
}
Decoded-bare _ payload b e = record {
  tag_is = refl;
  payload_is = is_empty-eq payload e;
  carried = tt;
  prompt_is_u64 = tt;
}

decode_bare-Decoded :
    (bare : WorkerMessage) (tag : ℕ) (payload : Bytes) {m : WorkerMessage}
    → IsBare bare
    → tag == tag_of bare && is_empty payload ≡ true
    → ◌≡◌ {A = Result WorkerMessage IpcError} (ok bare) (ok m)
    → Decoded tag payload m
decode_bare-Decoded bare tag payload {m} b test h =
    subst (λ t. Decoded t payload m) (sym (==→eq tag (tag_of bare) (ground arith)))
      (subst (Decoded (tag_of bare) payload) (ok-injective h)
        (Decoded-bare bare payload b (ground arith)))

choose_prompt :
    (tag : ℕ)
    → (tag == 17) || (tag == 18) ≡ true
    → prompt_tag (if tag == 17 then secret else visible) ≡ tag
choose_prompt tag h = ground arith

choose_message :
    (tag : ℕ)
    → (tag == 19) || (tag == 20) ≡ true
    → message_tag (if tag == 19 then info else error) ≡ tag
choose_message tag h = ground arith

-- The last arms of the match on the tag.
decode_end-Decoded :
    (tag : ℕ) (payload : Bytes) {m : WorkerMessage}
    → (if tag == 21 && is_empty payload
        then ok authenticated
        else if tag == 22 && is_empty payload
        then ok rejected
        else if tag == 23 && is_empty payload
        then ok fatal
        else err IpcError.invalid_frame)
      ≡ ok m
    → Decoded tag payload m
decode_end-Decoded tag payload h = elim (Bool-cases (tag == 21 && is_empty payload)) [
  | inl here ↦ decode_bare-Decoded authenticated tag payload tt here (rw here at h)
  | inr later ↦
      let h2 = rw later at h in
      elim (Bool-cases (tag == 22 && is_empty payload)) [
        | inl here ↦ decode_bare-Decoded rejected tag payload tt here (rw here at h2)
        | inr later2 ↦
            let h3 = rw later2 at h2 in
            elim (Bool-cases (tag == 23 && is_empty payload)) [
              | inl here ↦ decode_bare-Decoded fatal tag payload tt here (rw here at h3)
              | inr none_left ↦ cc (rw none_left at h3)
            ]
      ]
]

decode_worker-Decoded :
    (tag : ℕ) (payload : Bytes) {m : WorkerMessage}
    → AreBytes payload
    → decode_worker tag payload ≡ ok m
    → Decoded tag payload m
unfolding decode_worker
decode_worker-Decoded tag payload {m} b h = elim (Bool-cases (tag == 16 && is_empty payload)) [
  | inl here ↦ decode_bare-Decoded ready tag payload tt here (rw here at h)
  | inr later ↦
      let h2 = rw later at h in
      elim (Bool-cases ((tag == 17 || tag == 18) && leb 8 (length payload))) [
        | inl here ↦
            subst (λ t. Decoded t payload m) (choose_prompt tag (ground arith))
              (decode_prompt-Decoded (if tag == 17 then secret else visible) payload b
                (ground arith) (rw here at h2))
        | inr later2 ↦
            let h3 = rw later2 at h2 in
            elim (Bool-cases (tag == 19 || tag == 20)) [
              | inl here ↦
                  subst (λ t. Decoded t payload m) (choose_message tag here)
                    (decode_message-Decoded (if tag == 19 then info else error) payload
                      (rw here at h3))
              | inr later3 ↦ decode_end-Decoded tag payload (rw later3 at h3)
            ]
      ]
]

Decoded-frame :
    (r r' : Reader) (tag : ℕ) (payload : Bytes) (m : WorkerMessage)
    → ReadFrame r tag payload r'
    → Decoded tag payload m
    → r.bytes ≡ frame (tag_of m) (payload_of m) ++ r'.bytes
Decoded-frame r r' tag payload m f d =
    f.split
    ∙ ap (λ t. t ∷ ((to_be_bytes 4 (length payload) ++ payload) ++ r'.bytes)) d.tag_is
    ∙ ap (λ p. frame (tag_of m) p ++ r'.bytes) d.payload_is

-- Whatever `read_worker_message` accepts is the one frame that the message is written as, and its
-- text is within the limits that the writer checks.
pub read_worker_message-Decoded :
    (r : Reader) {m : WorkerMessage} {r' : Reader}
    → AreBytes r.bytes
    → read_worker_message r ≡ ok (m, r')
    → (r.bytes ≡ frame (tag_of m) (payload_of m) ++ r'.bytes) × Carries m × IsU64 m
unfolding read_worker_message
read_worker_message-Decoded r {m} {r'} b h =
    let ((tag, payload, r1), read, rest) = >=>-eq-ok (read_frame r) _ h in
    let f = read_frame-ReadFrame r b read in
    let (m1, decoded, same) = >=>-eq-ok (decode_worker tag payload) _ rest in
    let d = decode_worker-Decoded tag payload f.payload_bytes decoded in
    subst
      (λ q. (r.bytes ≡ frame (tag_of q.0) (payload_of q.0) ++ q.1.bytes) × Carries q.0 × IsU64 q.0)
      (ok-injective same) (Decoded-frame r r1 tag payload m1 f d, d.carried, d.prompt_is_u64)
