-- ===== src/Pam/Ipc/Texts.antt =====
-- Texts and bodies that frames carry (crates/fomalhaut-pam/src/ipc.rs).
use fomalhaut.Common.{
  ℕ, zero, suc, ◌-◌, ◌≤◌, [], ◌∷◌, ok, >=>-eq-ok, length, take, drop, contains, ◌≡◌, refl, Bool,
  true, false, is_empty, arith,
}
use fomalhaut.Pam.Bytes.{Bytes, is_utf8}
use fomalhaut.Pam.Ipc.{validate_text, decode_text, rotate_off}
use fomalhaut.Pam.Ipc.Frames.{take-append_of}

-- A text that the protocol carries.
pub record IsText (maximum : ℕ) (text : Bytes) : Type 0 where
  pub short : length text ≤ maximum
  pub no_nul : contains 0 text ≡ false
  pub utf8 : is_utf8 text ≡ true

pub decode_text-IsText :
    (text : Bytes) (maximum : ℕ) → IsText maximum text → decode_text text maximum true ≡ ok text
unfolding decode_text validate_text
decode_text-IsText text maximum h = ground arith

pub validate_text-IsText :
    (text : Bytes) (maximum : ℕ) (allow_empty : Bool) {u : Unit {0}}
    → validate_text text maximum allow_empty ≡ ok u
    → IsText maximum text
unfolding validate_text
validate_text-IsText text maximum allow_empty h = ground arith

pub decode_text-eq-ok :
    (payload : Bytes) (maximum : ℕ) (allow_empty : Bool) {text : Bytes}
    → decode_text payload maximum allow_empty ≡ ok text
    → (payload ≡ text) × IsText maximum payload
unfolding decode_text
decode_text-eq-ok payload maximum allow_empty h =
    let (u, valid, rest) = >=>-eq-ok (validate_text payload maximum allow_empty) _ h in
    let text = validate_text-IsText payload maximum allow_empty valid in (ground arith, text)

pub decode_text-nonempty :
    (payload : Bytes) (maximum : ℕ) {text : Bytes}
    → decode_text payload maximum false ≡ ok text
    → 1 ≤ length payload
unfolding decode_text validate_text
decode_text-nonempty [] maximum h = cc
decode_text-nonempty (b ∷ bs) maximum h = omega arith

pub length-drop : (n : ℕ) (xs : Bytes) → length (drop n xs) ≡ length xs - n
length-drop zero xs = omega arith
length-drop (suc n) [] = omega arith
length-drop (suc n) (x ∷ xs) = omega (arith, length-drop n xs)

-- Rotating and cutting takes off the first eight bytes.
pub rotate_off_lem : (payload : Bytes) → rotate_off payload ≡ drop 8 payload
rotate_off_lem payload =
    take-append_of (length payload - 8) (drop 8 payload) (take 8 payload) (length-drop 8 payload)

pub is_empty-eq : (payload : Bytes) → is_empty payload ≡ true → payload ≡ []
is_empty-eq [] h = refl
is_empty-eq (b ∷ bs) h = cc
