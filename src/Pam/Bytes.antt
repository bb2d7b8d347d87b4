-- ===== src/Pam/Bytes.antt =====
-- What crates/fomalhaut-pam/src/ipc.rs uses of the standard library: `to_be_bytes`, `from_be_bytes`,
-- `from_utf8`, `Read` and `Write`.
pub mod Words
use fomalhaut.Common.{
  ℕ, zero, suc, ◌+◌, ◌-◌, ◌*◌, ◌/◌, ◌%◌, ◌<◌, Bool, true, false, ◌&&◌, Option, none, some, List, [],
  ◌∷◌, ◌++◌, Result, ok, err, ltb, leb, ◌==◌, if◌then◌else◌, length, take, drop, All,
}
use mathlib.Core.List.{reverse}

abbrev pub Bytes : Type 0
Bytes = List ℕ

abbrev pub IsByte : ℕ → Type 0
IsByte b = b < 256

abbrev pub AreBytes : Bytes → Type 0
AreBytes = All IsByte

-- The lowest byte first.
abbrev pub le_bytes : ℕ → ℕ → Bytes
le_bytes zero n = []
le_bytes (suc k) n = (n % 256) ∷ le_bytes k (n / 256)

abbrev pub from_le : Bytes → ℕ
from_le [] = 0
from_le (b ∷ bs) = b + 256 * from_le bs

-- `to_be_bytes` of an integer of `k` bytes.
unfoldable pub to_be_bytes : ℕ → ℕ → Bytes
to_be_bytes k n = reverse (le_bytes k n)

unfoldable pub from_be_bytes : Bytes → ℕ
from_be_bytes bs = from_le (reverse bs)

-- The bytes that a UTF-8 sequence still needs, and the range of the next one.
pub record Utf8 : Type 0 where
  pub needed : ℕ
  pub low : ℕ
  pub high : ℕ

abbrev within : ℕ → ℕ → ℕ → Bool
within low high b = leb low b && leb b high

abbrev start : Utf8
start = record { needed = 0; low = 0; high = 0 }

abbrev lead : ℕ → Option Utf8
lead b =
    if ltb b 0x80
    then some start
    else if within 0xc2 0xdf b
    then some (record { needed = 1; low = 0x80; high = 0xbf })
    else if b == 0xe0
    then some (record { needed = 2; low = 0xa0; high = 0xbf })
    else if b == 0xed
    then some (record { needed = 2; low = 0x80; high = 0x9f })
    else if within 0xe1 0xef b
    then some (record { needed = 2; low = 0x80; high = 0xbf })
    else if b == 0xf0
    then some (record { needed = 3; low = 0x90; high = 0xbf })
    else if within 0xf1 0xf3 b
    then some (record { needed = 3; low = 0x80; high = 0xbf })
    else if b == 0xf4
    then some (record { needed = 3; low = 0x80; high = 0x8f })
    else none

utf8_next : Utf8 → ℕ → ℕ → Option Utf8
utf8_next s zero b = lead b
utf8_next s (suc k) b =
    if within s.low s.high b then some (record { needed = k; low = 0x80; high = 0xbf }) else none

utf8_from : Utf8 → Bytes → Bool
unfolding utf8_next
utf8_from s [] = s.needed == 0
utf8_from s (b ∷ bs) = elim (utf8_next s s.needed b) [ none ↦ false | some t ↦ utf8_from t bs ]

-- Whether `str::from_utf8` accepts the bytes.
unfoldable pub is_utf8 : Bytes → Bool
unfolding utf8_from
is_utf8 bs = utf8_from start bs

pub data ErrorKind : Type 0 where
  unexpected_eof broken_pipe connection_reset other : ErrorKind

-- A `Read`: the bytes that will come, and the error behind them, which at the end of the input is
-- `unexpected_eof`.
pub record Reader : Type 0 where
  pub bytes : Bytes
  pub ending : ErrorKind

unfoldable pub read_exact : ℕ → Reader → Result (Bytes × Reader) ErrorKind
read_exact n r =
    if ltb (length r.bytes) n
    then err r.ending
    else ok (take n r.bytes, record r { bytes = drop n r.bytes })

-- A `Write`: what it got, how many more bytes it takes, its error behind them, and what `flush` says.
pub record Writer : Type 0 where
  pub written : Bytes
  pub room : ℕ
  pub ending : ErrorKind
  pub flushes : Result (Unit {0}) ErrorKind

unfoldable pub write_all : Bytes → Writer → Result Writer ErrorKind
write_all bs w =
    if ltb w.room (length bs)
    then err w.ending
    else ok (record w { written = w.written ++ bs; room = w.room - length bs })

abbrev pub flushed : Result (Unit {0}) ErrorKind → Writer → Result Writer ErrorKind
flushed (ok u) w = ok w
flushed (err e) w = err e

unfoldable pub flush : Writer → Result Writer ErrorKind
flush w = flushed w.flushes w
