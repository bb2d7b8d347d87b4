-- ===== src/Session/Exec/Unquoted.antt =====
-- Shell syntax outside quotes is refused (crates/fomalhaut-session/src/exec.rs).
use fomalhaut.Common.{
  ℕ, zero, suc, Bool, true, false, not, ◌&&◌, ◌||◌, List, [], ◌∷◌, ok, err, >=>-eq-ok, ◌==◌, any,
  ◌≡◌, ◌≢◌, refl, inl, inr, ◌⊎◌, arith,
}
use fomalhaut.Core.Types.{Text}
use fomalhaut.Session.Exec.{
  Scan, Round, round, scan, finish, initial, parse_exec, is_reserved, is_ascii_whitespace,
}

-- No quote and no backslash.
abbrev pub is_plain : Text → Bool
is_plain [] = true
is_plain (c ∷ cs) = not (c == b'"') && not (c == 92) && is_plain cs

-- The characters that a round has taken already are not reserved.
abbrev TakenPlain : ℕ → Text → Type 0
TakenPlain zero cs = Unit
TakenPlain (suc n) [] = Unit
TakenPlain (suc n) (c ∷ cs) = (is_reserved c ≡ false) × (n ≡ 0)

abbrev PlainRound : ℕ → Text → Round → Type 0
PlainRound c cs (ok (n, t)) = (is_reserved c ≡ false) × TakenPlain n cs × (t.in_quotes ≡ false)
PlainRound c cs (err e) = Unit

percent_plain : is_reserved b'%' ≡ false
unfolding is_reserved
percent_plain = refl

-- White space is one of five characters, and none of them is reserved.
space_cases :
    (c : ℕ) → is_ascii_whitespace c ≡ true → (c ≡ 32) ⊎ (c ≡ 9) ⊎ (c ≡ 10) ⊎ (c ≡ 12) ⊎ (c ≡ 13)
unfolding is_ascii_whitespace
space_cases c h = ground arith

space_plain : (c : ℕ) → is_ascii_whitespace c ≡ true → is_reserved c ≡ false
unfolding is_reserved
space_plain c h = elim (space_cases c h) [
  | inl e ↦ rw e
  | inr (inl e) ↦ rw e
  | inr (inr (inl e)) ↦ rw e
  | inr (inr (inr (inl e))) ↦ rw e
  | inr (inr (inr (inr e))) ↦ rw e
]

round-Plain :
    (c : ℕ) (cs : Text) (s : Scan)
    → c == b'"' ≡ false
    → c == 92 ≡ false
    → s.in_quotes ≡ false
    → PlainRound c cs (round c cs s)
unfolding round
round-Plain c [] s q b i = ground (arith, space_plain c)
round-Plain c (d ∷ ds) s q b i = ground (arith, percent_plain, space_plain c)

TakenPlain-zero : (n : ℕ) (cs : Text) → n ≡ 0 → TakenPlain n cs
TakenPlain-zero zero cs h = tt
TakenPlain-zero (suc n) cs h = absurd (omega arith)

scan-Plain :
    (skip : ℕ) (cs : Text) (s t : Scan)
    → is_plain cs ≡ true
    → TakenPlain skip cs
    → s.in_quotes ≡ false
    → scan skip cs s ≡ ok t
    → any is_reserved cs ≡ false
unfolding scan
scan-Plain skip [] s t p k i e = refl
scan-Plain (suc skip) (c ∷ cs) s t p k i e =
    ground (arith, scan-Plain skip cs s t (ground arith) (TakenPlain-zero skip cs k.1) i e)
scan-Plain zero (c ∷ cs) s t p k i e =
    next (λ n u k i q. scan-Plain n cs u t (ground arith) k i q) (round c cs s)
      (round-Plain c cs s (ground arith) (ground arith) i) e
  where
    next :
        ((n : ℕ) (u : Scan)
          → TakenPlain n cs
          → u.in_quotes ≡ false
          → scan n cs u ≡ ok t
          → any is_reserved cs ≡ false)
        → (r : Round) → PlainRound c cs r
        → elim r [ err e ↦ err e | ok (n, u) ↦ scan n cs u ] ≡ ok t
        → is_reserved c || any is_reserved cs ≡ false
    next rest (ok (n, u)) k e = ground (arith, rest n u k.1 k.2 e)
    next rest (err x) k e = cc

-- A line with no quote and no backslash is refused if it holds any reserved character of the shell.
parse_exec_refuses :
    (input : Text) {args : List Text}
    → is_plain input ≡ true
    → any is_reserved input ≡ true
    → parse_exec input ≢ ok args
unfolding parse_exec
parse_exec_refuses input p r e =
    let (s, scanned, finished) = >=>-eq-ok (scan 0 input initial) finish e in
    cc (scan-Plain 0 input initial s p tt refl scanned)
