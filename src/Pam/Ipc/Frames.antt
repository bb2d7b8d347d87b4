-- ===== src/Pam/Ipc/Frames.antt =====
-- Frames alone: what `write_frame` writes, `read_frame` reads, and the other way round.
use fomalhaut.Common.{
  ℕ, zero, suc, ◌≤◌, [], ◌∷◌, ◌++◌, Result, ok, length, take, drop, length-append, ◌≡◌, refl, sym,
  ap, subst, >=>-eq-ok, map_err-eq-ok, ok-injective, ◌∙◌, inl, inr, ltb, false, Bool-cases, le→ltb,
  arith,
}
use mathlib.Core.List.{append_assoc}
use fomalhaut.Pam.Bytes.{
  Bytes, AreBytes, ErrorKind, Reader, Writer, to_be_bytes, from_be_bytes, read_exact, write_all,
  flush,
}
use fomalhaut.Pam.Bytes.Words.{
  length-to_be_bytes, from_be_bytes-to_be_bytes, to_be_bytes-from_be_bytes,
}
use fomalhaut.Pam.Ipc.{
  classify_io, max_frame_bytes, write_frame, read_frame, read_payload, split_header,
}

-- The bytes of a frame.
abbrev pub frame : ℕ → Bytes → Bytes
frame tag payload = tag ∷ (to_be_bytes 4 (length payload) ++ payload)

pub take-append_of : (n : ℕ) (xs ys : Bytes) → length xs ≡ n → take n (xs ++ ys) ≡ xs
take-append_of zero [] ys h = refl
take-append_of zero (x ∷ xs) ys h = absurd (omega arith)
take-append_of (suc n) [] ys h = absurd (omega arith)
take-append_of (suc n) (x ∷ xs) ys h = ap (◌∷◌ x) (take-append_of n xs ys (omega arith))

pub drop-append_of : (n : ℕ) (xs ys : Bytes) → length xs ≡ n → drop n (xs ++ ys) ≡ ys
drop-append_of zero [] ys h = refl
drop-append_of zero (x ∷ xs) ys h = absurd (omega arith)
drop-append_of (suc n) [] ys h = absurd (omega arith)
drop-append_of (suc n) (x ∷ xs) ys h = drop-append_of n xs ys (omega arith)

pub take-append-drop : (n : ℕ) (xs : Bytes) → take n xs ++ drop n xs ≡ xs
take-append-drop zero xs = refl
take-append-drop (suc n) [] = refl
take-append-drop (suc n) (x ∷ xs) = ap (◌∷◌ x) (take-append-drop n xs)

pub length-take : (n : ℕ) (xs : Bytes) → n ≤ length xs → length (take n xs) ≡ n
length-take zero xs h = refl
length-take (suc n) [] h = absurd (omega arith)
length-take (suc n) (x ∷ xs) h = omega (arith, length-take n xs (omega arith))

pub AreBytes-take : (n : ℕ) (xs : Bytes) → AreBytes xs → AreBytes (take n xs)
AreBytes-take zero xs h = tt
AreBytes-take (suc n) [] h = tt
AreBytes-take (suc n) (x ∷ xs) h = (h.0, AreBytes-take n xs h.1)

pub AreBytes-drop : (n : ℕ) (xs : Bytes) → AreBytes xs → AreBytes (drop n xs)
AreBytes-drop zero xs h = h
AreBytes-drop (suc n) [] h = tt
AreBytes-drop (suc n) (x ∷ xs) h = AreBytes-drop n xs h.1

read_exact_lem :
    (n : ℕ) (xs ys : Bytes) (k : ErrorKind)
    → length xs ≡ n
    → read_exact n (record { bytes = xs ++ ys; ending = k })
      ≡ ok (xs, record { bytes = ys; ending = k })
unfolding read_exact
read_exact_lem n xs ys k h = rw (
  le→ltb (length (xs ++ ys)) n (omega (arith, length-append xs ys)),
  take-append_of n xs ys h,
  drop-append_of n xs ys h,
)

-- What was read is what came first.
record Took (n : ℕ) (r : Reader) (xs : Bytes) (r' : Reader) : Type 0 where
  count : length xs ≡ n
  split : r.bytes ≡ xs ++ r'.bytes
  ending : r'.ending ≡ r.ending
  front : xs ≡ take n r.bytes
  back : r'.bytes ≡ drop n r.bytes

read_exact_long :
    (n : ℕ) (r : Reader) {xs : Bytes} {r' : Reader}
    → ltb (length r.bytes) n ≡ false
    → ◌≡◌ {A = Result (Bytes × Reader) ErrorKind}
        (ok (take n r.bytes, record r { bytes = drop n r.bytes }))
        (ok (xs, r'))
    → Took n r xs r'
read_exact_long n r long e = ground (arith, take-append-drop n r.bytes, length-take n r.bytes)

read_exact-Took :
    (n : ℕ) (r : Reader) {xs : Bytes} {r' : Reader} → read_exact n r ≡ ok (xs, r') → Took n r xs r'
unfolding read_exact
read_exact-Took n r e = elim (Bool-cases (ltb (length r.bytes) n)) [
  | inl short ↦ cc (rw short at e)
  | inr long ↦ read_exact_long n r long (rw long at e)
]

-- What `write_frame` writes, if it succeeds, is the frame.
pub write_frame_lem :
    (w : Writer) (tag : ℕ) (payload : Bytes) {w' : Writer}
    → write_frame w tag payload ≡ ok w'
    → (w'.written ≡ w.written ++ frame tag payload) × (length payload ≤ max_frame_bytes)
unfolding write_frame write_all flush
write_frame_lem w tag payload e =
    ground (arith, append_assoc w.written (tag ∷ to_be_bytes 4 (length payload)) payload)

-- A frame within the limit is read back, and what stands behind it is left.
pub read_frame-frame :
    (tag : ℕ) (payload rest : Bytes) (k : ErrorKind)
    → length payload ≤ max_frame_bytes
    → read_frame (record { bytes = frame tag payload ++ rest; ending = k })
      ≡ ok (tag, payload, record { bytes = rest; ending = k })
unfolding read_frame
read_frame-frame tag payload rest k h =
    let len = to_be_bytes 4 (length payload) in
    let back : from_be_bytes len ≡ length payload =
      from_be_bytes-to_be_bytes 4 (length payload) (omega arith) in
    rw (
      append_assoc len payload rest,
      read_exact_lem 5 (tag ∷ len) (payload ++ rest) k
          (omega (arith, length-to_be_bytes 4 (length payload))),
      back,
      le→ltb max_frame_bytes (length payload) h,
      read_exact_lem (length payload) payload rest k refl,
    )

-- The bytes of a frame that was read, and of no other.
pub record ReadFrame (r : Reader) (tag : ℕ) (payload : Bytes) (r' : Reader) : Type 0 where
  pub split : r.bytes ≡ frame tag payload ++ r'.bytes
  pub ending : r'.ending ≡ r.ending
  pub bounded : length payload ≤ max_frame_bytes
  pub payload_bytes : AreBytes payload
  pub rest_bytes : AreBytes r'.bytes

Took-AreBytes :
    (n : ℕ) (r : Reader) (xs : Bytes) (r' : Reader)
    → Took n r xs r'
    → AreBytes r.bytes
    → AreBytes xs × AreBytes r'.bytes
Took-AreBytes n r xs r' t h =
    (rw t.front (AreBytes-take n r.bytes h), rw t.back (AreBytes-drop n r.bytes h))

Took-ReadFrame :
    (r : Reader) (tag : ℕ) (len payload : Bytes) (r1 r2 : Reader)
    → Took 5 r (tag ∷ len) r1
    → Took (from_be_bytes len) r1 payload r2
    → from_be_bytes len ≤ max_frame_bytes
    → AreBytes r.bytes
    → ReadFrame r tag payload r2
Took-ReadFrame r tag len payload r1 r2 one two small h =
    let (head, tail) = Took-AreBytes 5 r (tag ∷ len) r1 one h in
    let four : length len ≡ 4 = omega (arith, one.count) in
    let same : to_be_bytes 4 (length payload) ≡ len =
      rw (two.count, ← four) (to_be_bytes-from_be_bytes len head.1) in
    record {
      split =
          one.split
          ∙ ap (λ b. tag ∷ (len ++ b)) two.split
          ∙ ap (◌∷◌ tag) (sym (append_assoc len payload r2.bytes))
          ∙ ap (λ l. tag ∷ ((l ++ payload) ++ r2.bytes)) (sym same);
      ending = two.ending ∙ one.ending;
      bounded = omega (arith, two.count);
      payload_bytes = (Took-AreBytes (from_be_bytes len) r1 payload r2 two tail).0;
      rest_bytes = (Took-AreBytes (from_be_bytes len) r1 payload r2 two tail).1;
    }

read_payload-ReadFrame :
    (r : Reader) (tag : ℕ) (len : Bytes) (r1 : Reader) {t : ℕ} {payload : Bytes} {r' : Reader}
    → Took 5 r (tag ∷ len) r1
    → AreBytes r.bytes
    → read_payload tag (from_be_bytes len) r1 ≡ ok (t, payload, r')
    → ReadFrame r t payload r'
read_payload-ReadFrame r tag len r1 took h e =
    elim (Bool-cases (ltb max_frame_bytes (from_be_bytes len))) [
      | inl large ↦ cc (rw large at e)
      | inr small ↦
          let ((p, r2), read, same) = >=>-eq-ok _ _ (rw small at e) in
          subst (λ q. ReadFrame r q.0 q.1 q.2) (ok-injective same)
            (Took-ReadFrame r tag len p r1 r2 took
              (read_exact-Took (from_be_bytes len) r1 (map_err-eq-ok classify_io _ read))
              (ground arith) h)
    ]

split_header-ReadFrame :
    (r : Reader) (header : Bytes) (r1 : Reader) {t : ℕ} {payload : Bytes} {r' : Reader}
    → Took 5 r header r1
    → AreBytes r.bytes
    → split_header header r1 ≡ ok (t, payload, r')
    → ReadFrame r t payload r'
split_header-ReadFrame r [] r1 took h e = cc
split_header-ReadFrame r (tag ∷ len) r1 took h e = read_payload-ReadFrame r tag len r1 took h e

-- Whatever `read_frame` accepts is a frame, and it takes just that frame off the stream.
pub read_frame-ReadFrame :
    (r : Reader) {tag : ℕ} {payload : Bytes} {r' : Reader}
    → AreBytes r.bytes
    → read_frame r ≡ ok (tag, payload, r')
    → ReadFrame r tag payload r'
unfolding read_frame
read_frame-ReadFrame r h e =
    let ((header, r1), read, rest) = >=>-eq-ok _ _ e in
    split_header-ReadFrame r header r1 (read_exact-Took 5 r (map_err-eq-ok classify_io _ read)) h
      rest
