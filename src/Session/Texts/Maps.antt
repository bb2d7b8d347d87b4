-- ===== src/Session/Texts/Maps.antt =====
-- Laws of the maps of crates/fomalhaut-session/src/discovery.rs.
use Prim.Native.Nat.{Ordering}
use fomalhaut.Common.{
  ◌+◌, true, false, none, some, List, [], ◌∷◌, ◌≡◌, ◌≢◌, refl, if◌then◌else◌, Bool-cases, inl, inr,
  ==_refl, length, arith,
}
use fomalhaut.Core.Types.{Text}
use fomalhaut.Session.Texts.{text_eq, text_compare, insert, get}

pub text_eq_refl : (t : Text) → text_eq t t ≡ true
unfolding text_eq
text_eq_refl [] = refl
text_eq_refl (c ∷ cs) = rw (==_refl c, text_eq_refl cs)

pub text_eq→eq : (t u : Text) → text_eq t u ≡ true → t ≡ u
unfolding text_eq
text_eq→eq [] [] h = refl
text_eq→eq [] (d ∷ ds) h = cc
text_eq→eq (c ∷ cs) [] h = cc
text_eq→eq (c ∷ cs) (d ∷ ds) h = ground (arith, text_eq→eq cs ds)

pub text_compare-eq : (t u : Text) → text_compare t u ≡ Ordering.eq → t ≡ u
unfolding text_compare
text_compare-eq [] [] h = refl
text_compare-eq [] (d ∷ ds) h = cc
text_compare-eq (c ∷ cs) [] h = cc
text_compare-eq (c ∷ cs) (d ∷ ds) h = ground (arith, text_compare-eq cs ds)

pub text_compare_refl : (t : Text) → text_compare t t ≡ Ordering.eq
unfolding text_compare
text_compare_refl [] = refl
text_compare_refl (c ∷ cs) = ground (arith, text_compare_refl cs)

pub text_eq_ne : (t u : Text) → t ≢ u → text_eq t u ≡ false
text_eq_ne t u h = elim (Bool-cases (text_eq t u)) [
  | inl e ↦ absurd (h (text_eq→eq t u e))
  | inr n ↦ n
]

module _ {ℓ} {V : Type ℓ} where
  -- A map law in the form of a test.
  pub get-insert :
      (k j : Text) (v : V) (m : List (Text × V))
      → get j (insert k v m) ≡ (if text_eq k j then some v else get j m)
  unfolding get insert
  get-insert k j v [] = refl
  get-insert k j v ((i, w) ∷ m) = ground (
    arith,
    get-insert k j v m,
    text_compare-eq k i,
    text_eq→eq k j,
    text_eq→eq i j,
    text_eq_refl j,
    text_compare_refl k,
  )

  -- A new key makes the map longer by one.
  pub length-insert :
      (k : Text) (v : V) (m : List (Text × V))
      → get k m ≡ none
      → length (insert k v m) ≡ length m + 1
  unfolding get insert
  length-insert k v [] h = omega arith
  length-insert k v ((i, w) ∷ m) h =
      ground (arith, length-insert k v m, text_compare-eq k i, text_eq_refl k)
