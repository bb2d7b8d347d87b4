-- ===== src/Session/Discovery/Names.antt =====
-- The names of files in crates/fomalhaut-session/src/discovery.rs: what it uses of `Path` and of
-- UTF-8.
use fomalhaut.Common.{
  ℕ, zero, suc, ◌+◌, ◌-◌, ◌*◌, Bool, false, Option, none, some, [], ◌∷◌, ltb, ◌==◌, if◌then◌else◌,
  is_empty,
}
use fomalhaut.Core.Types.{Text}
use fomalhaut.Pam.Bytes.{Bytes, is_utf8}
use fomalhaut.Session.Texts.{chars, text_eq}
use fomalhaut.Session.Catalog.{FilePath}

-- What stands before and after the last dot.
unfoldable pub split_last_dot : Bytes → Option (Bytes × Bytes)
split_last_dot [] = none
split_last_dot (c ∷ cs) = elim (split_last_dot cs) [
  | some (before, after) ↦ some (c ∷ before, after)
  | none ↦ if c == b'.' then some ([], cs) else none
]

-- `Path::extension`: the part behind the last dot that the name does not start with.
abbrev pub extension_of : Option (Bytes × Bytes) → Option Bytes
extension_of none = none
extension_of (some (before, after)) = if is_empty before then none else some after

unfoldable pub extension : Bytes → Option Bytes
unfolding split_last_dot text_eq
extension name = if text_eq name (chars "..") then none else extension_of (split_last_dot name)

abbrev pub stem_of : Bytes → Option (Bytes × Bytes) → Bytes
stem_of name none = name
stem_of name (some (before, after)) = if is_empty before then name else before

-- `Path::file_stem` of a path with a file name.
unfoldable pub file_stem : Bytes → Bytes
unfolding split_last_dot text_eq
file_stem name = if text_eq name (chars "..") then name else stem_of name (split_last_dot name)

abbrev pub is_value : Option Bytes → Text → Bool
is_value none t = false
is_value (some value) t = text_eq value t

unfoldable pub is_desktop : Bytes → Bool
unfolding extension text_eq
is_desktop name = is_value (extension name) (chars "desktop")

-- The bytes that a character still needs, and its bits so far.
abbrev pub next_byte : ℕ × ℕ → ℕ → ℕ × ℕ
next_byte (zero, bits) b =
    if ltb b 128
    then (0, b)
    else if ltb b 224
    then (1, b - 192)
    else if ltb b 240
    then (2, b - 224)
    else (3, b - 240)
next_byte (suc n, bits) b = (n, bits * 64 + (b - 128))

-- The characters of valid UTF-8.
unfoldable pub decode_utf8 : ℕ × ℕ → Bytes → Text
decode_utf8 s [] = []
decode_utf8 s (b ∷ bs) =
    let rest = decode_utf8 (next_byte s b) bs in
    if (next_byte s b).0 == 0 then (next_byte s b).1 ∷ rest else rest

-- `OsStr::to_str`.
unfoldable pub to_str : Bytes → Option Text
unfolding is_utf8 decode_utf8
to_str name = if is_utf8 name then some (decode_utf8 (0, 0) name) else none

unfoldable pub desktop_stem : FilePath → Option Text
unfolding file_stem to_str
desktop_stem path = to_str (file_stem path.file_name)
