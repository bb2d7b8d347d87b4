-- ===== src/Pam/Ipc/ParentCanonical.antt =====
-- The lock screen's messages are read in one spelling only (crates/fomalhaut-pam/src/ipc.rs).
use fomalhaut.Common.{
  ℕ, ◌≤◌, ◌∷◌, ◌++◌, Result, ok, ◌>=>◌, >=>-eq-ok, ok-injective, length, take, drop, contains, ◌≡◌,
  refl, sym, ap, subst, ◌∙◌, ◌&&◌, leb, ◌==◌, true, false, Bool-cases, ==→eq, is_empty, inl, inr,
  arith,
}
use fomalhaut.Pam.Bytes.{Bytes, AreBytes, Reader, to_be_bytes, from_be_bytes}
use fomalhaut.Pam.Bytes.Words.{to_be_bytes-from_be_bytes, from_be_bytes-lt}
use fomalhaut.Pam.Ipc.{
  ParentMessage, prepare, begin, IpcError, max_username_bytes, max_frame_bytes, decode_text,
  read_frame, rotate_off, decode_answer, decode_parent, read_parent_message,
}
use fomalhaut.Pam.Ipc.Frames.{
  frame, take-append-drop, length-take, AreBytes-take, ReadFrame, read_frame-ReadFrame,
}
use fomalhaut.Pam.Ipc.Texts.{
  decode_text-eq-ok, decode_text-nonempty, rotate_off_lem, length-drop, is_empty-eq,
}
use fomalhaut.Pam.Ipc.Parent.{tag_of, payload_of, Carries, IsU64}

-- A message that was decoded, and its only spelling.
pub record Decoded (tag : ℕ) (payload : Bytes) (m : ParentMessage) : Type 0 where
  pub tag_is : tag ≡ tag_of m
  pub payload_is : payload ≡ payload_of m
  pub carried : Carries m
  pub prompt_is_u64 : IsU64 m

decode_prepare-Decoded :
    (payload : Bytes) {m : ParentMessage}
    → (decode_text payload max_username_bytes false >=> (λ text. ok (prepare text))) ≡ ok m
    → Decoded 1 payload m
decode_prepare-Decoded payload {m} h =
    let (text, decoded, same) = >=>-eq-ok (decode_text payload max_username_bytes false) _ h in
    let (whole, carried) = decode_text-eq-ok payload max_username_bytes false decoded in
    subst (Decoded 1 payload) (ap prepare whole ∙ ok-injective same) (record {
      tag_is = refl;
      payload_is = refl;
      carried = (decode_text-nonempty payload max_username_bytes decoded, carried);
      prompt_is_u64 = tt;
    })

decode_answer-Decoded :
    (payload : Bytes) {m : ParentMessage}
    → AreBytes payload
    → 8 ≤ length payload
    → length payload ≤ max_frame_bytes
    → decode_answer payload ≡ ok m
    → Decoded 3 payload m
unfolding decode_answer
decode_answer-Decoded payload b l g h = elim (Bool-cases (contains 0 (rotate_off payload))) [
  | inl nul ↦ cc (rw nul at h)
  | inr clean ↦ subst (Decoded 3 payload) (ok-injective (rw clean at h)) (record {
    tag_is = refl;
    payload_is =
        sym (take-append-drop 8 payload)
        ∙ ap (λ bs. bs ++ drop 8 payload) (sym same)
        ∙ ap (λ bs. to_be_bytes 8 (from_be_bytes (take 8 payload)) ++ bs)
            (sym (rotate_off_lem payload));
    carried = (omega (arith, ap length (rotate_off_lem payload), length-drop 8 payload), clean);
    prompt_is_u64 = rw eight at (from_be_bytes-lt (take 8 payload) (AreBytes-take 8 payload b));
  })
]
  where
    eight : length (take 8 payload) ≡ 8
    eight = length-take 8 payload l

    same : to_be_bytes 8 (from_be_bytes (take 8 payload)) ≡ take 8 payload
    same = rw eight at (to_be_bytes-from_be_bytes (take 8 payload) (AreBytes-take 8 payload b))

decode_begin-Decoded :
    (tag : ℕ) (payload : Bytes) {m : ParentMessage}
    → tag == 2 && is_empty payload ≡ true
    → ◌≡◌ {A = Result ParentMessage IpcError} (ok begin) (ok m)
    → Decoded tag payload m
decode_begin-Decoded tag payload test h = subst (Decoded tag payload) (ok-injective h) (record {
  tag_is = ground arith;
  payload_is = is_empty-eq payload (ground arith);
  carried = tt;
  prompt_is_u64 = tt;
})

decode_parent-Decoded :
    (tag : ℕ) (payload : Bytes) {m : ParentMessage}
    → AreBytes payload
    → length payload ≤ max_frame_bytes
    → decode_parent tag payload ≡ ok m
    → Decoded tag payload m
unfolding decode_parent
decode_parent-Decoded tag payload {m} b g h = elim (Bool-cases (tag == 1)) [
  | inl one ↦
      subst (λ t. Decoded t payload m) (sym (==→eq tag 1 one))
        (decode_prepare-Decoded payload (rw one at h))
  | inr not_one ↦
      let h2 = rw not_one at h in
      elim (Bool-cases (tag == 2 && is_empty payload)) [
        | inl two ↦ decode_begin-Decoded tag payload two (rw two at h2)
        | inr not_two ↦
            let h3 = rw not_two at h2 in
            elim (Bool-cases
              (tag == 3 && leb 8 (length payload) && leb (length payload) max_frame_bytes)) [
                | inl three ↦
                    subst (λ t. Decoded t payload m) (sym (==→eq tag 3 (ground arith)))
                      (decode_answer-Decoded payload b (ground arith) g (rw three at h3))
                | inr not_three ↦ cc (rw not_three at h3)
              ]
      ]
]

Decoded-frame :
    (r r' : Reader) (tag : ℕ) (payload : Bytes) (m : ParentMessage)
    → ReadFrame r tag payload r'
    → Decoded tag payload m
    → r.bytes ≡ frame (tag_of m) (payload_of m) ++ r'.bytes
Decoded-frame r r' tag payload m f d =
    f.split
    ∙ ap (λ t. t ∷ ((to_be_bytes 4 (length payload) ++ payload) ++ r'.bytes)) d.tag_is
    ∙ ap (λ p. frame (tag_of m) p ++ r'.bytes) d.payload_is

-- Whatever `read_parent_message` accepts is the one frame that the message is written as.
pub read_parent_message-Decoded :
    (r : Reader) {m : ParentMessage} {r' : Reader}
    → AreBytes r.bytes
    → read_parent_message r ≡ ok (m, r')
    → (r.bytes ≡ frame (tag_of m) (payload_of m) ++ r'.bytes) × Carries m × IsU64 m
unfolding read_parent_message
read_parent_message-Decoded r {m} {r'} b h =
    let ((tag, payload, r1), read, rest) = >=>-eq-ok (read_frame r) _ h in
    let f = read_frame-ReadFrame r b read in
    let (m1, decoded, same) = >=>-eq-ok (decode_parent tag payload) _ rest in
    let d = decode_parent-Decoded tag payload f.payload_bytes f.bounded decoded in
    subst
      (λ q. (r.bytes ≡ frame (tag_of q.0) (payload_of q.0) ++ q.1.bytes) × Carries q.0 × IsU64 q.0)
      (ok-injective same) (Decoded-frame r r1 tag payload m1 f d, d.carried, d.prompt_is_u64)
