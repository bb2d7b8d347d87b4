-- ===== src/Session/Texts.antt =====
-- What crates/fomalhaut-session/src uses of the standard library: the order and equality of strings,
-- `BTreeMap`, and the classes of characters.
pub mod Maps
use Prim.Native.Nat.{compare, Ordering}
use Prim.Native.Char.{code}
use fomalhaut.Common.{
  ℕ, String, Bool, true, false, ◌&&◌, ◌||◌, Option, none, some, List, [], ◌∷◌, ◌++◌, leb, ◌==◌,
  if◌then◌else◌, any,
}
use fomalhaut.Core.Types.{Text}

-- The characters of a literal.
abbrev pub chars : String → Text
chars String.[] = []
chars (String.◌∷◌ c s) = code c ∷ chars s

unfoldable pub text_eq : Text → Text → Bool
text_eq [] [] = true
text_eq [] (d ∷ ds) = false
text_eq (c ∷ cs) [] = false
text_eq (c ∷ cs) (d ∷ ds) = (c == d) && text_eq cs ds

-- The order of characters, which is that of UTF-8.
unfoldable pub text_compare : Text → Text → Ordering
text_compare [] [] = Ordering.eq
text_compare [] (d ∷ ds) = Ordering.lt
text_compare (c ∷ cs) [] = Ordering.gt
text_compare (c ∷ cs) (d ∷ ds) = elim (compare c d) [
  | Ordering.lt ↦ Ordering.lt
  | Ordering.eq ↦ text_compare cs ds
  | Ordering.gt ↦ Ordering.gt
]

abbrev pub has : Text → List Text → Bool
has t ts = any (text_eq t) ts

-- A `BTreeMap` is the list of its entries, in the order of the keys.
module _ {ℓ} {V : Type ℓ} where
  unfoldable pub insert : Text → V → List (Text × V) → List (Text × V)
  insert k v [] = (k, v) ∷ []
  insert k v ((j, w) ∷ m) = elim (text_compare k j) [
    | Ordering.lt ↦ (k, v) ∷ (j, w) ∷ m
    | Ordering.eq ↦ (k, v) ∷ m
    | Ordering.gt ↦ (j, w) ∷ insert k v m
  ]

  unfoldable pub get : Text → List (Text × V) → Option V
  get k [] = none
  get k ((j, w) ∷ m) = if text_eq j k then some w else get k m

-- `char::is_control`.
unfoldable pub is_control : ℕ → Bool
is_control c = leb c 31 || (leb 127 c && leb c 159)

-- `char::is_whitespace`.
unfoldable pub is_whitespace : ℕ → Bool
is_whitespace c =
    (leb 9 c && leb c 13)
    || c == 32
    || c == 133
    || c == 160
    || c == 5760
    || (leb 8192 c && leb c 8202)
    || c == 8232
    || c == 8233
    || c == 8239
    || c == 8287
    || c == 12288

-- `str::split` at one character.
abbrev pub on_first : Text → List Text → List Text
on_first t [] = t ∷ []
on_first t (u ∷ us) = (t ++ u) ∷ us

unfoldable pub split : ℕ → Text → List Text
split at [] = [] ∷ []
split at (c ∷ cs) = let rest = split at cs in if c == at then [] ∷ rest else on_first (c ∷ []) rest

-- `join`.
unfoldable pub join : Text → List Text → Text
join sep [] = []
join sep (t ∷ []) = t
join sep (t ∷ u ∷ ts) = t ++ sep ++ join sep (u ∷ ts)
