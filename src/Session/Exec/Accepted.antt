-- ===== src/Session/Exec/Accepted.antt =====
-- What `parse_exec` never lets through (crates/fomalhaut-session/src/exec.rs).
use fomalhaut.Common.{
  All-concat, ℕ, zero, suc, false, ◌||◌, List, [], ◌∷◌, ◌++◌, Result, ok, err, >=>-eq-ok,
  ok-injective, if◌then◌else◌, is_empty, contains, All, ◌≡◌, ◌≢◌, refl, subst, Bool-cases, inl, inr,
  arith,
}
use fomalhaut.Core.Types.{Text}
use fomalhaut.Session.Exec.{
  ExecParseError, Scan, Round, escape, pushed, end_token, push_character, round, scan, finish,
  initial, parse_exec, check_executable,
}

abbrev pub NoNul : Text → Type 0
NoNul t = contains 0 t ≡ false

NoNul-concat : (t : Text) (c : ℕ) → NoNul t → c ≢ 0 → NoNul (t ++ c ∷ [])
NoNul-concat [] c h n = ground arith
NoNul-concat (d ∷ ds) c h n = ground (arith, NoNul-concat ds c)

record IsClean (s : Scan) : Type 0 where
  args_clean : All NoNul s.args
  current_clean : NoNul s.current

abbrev CleanRound : Round → Type 0
CleanRound (ok (n, s)) = IsClean s
CleanRound (err e) = Unit

abbrev CleanPush : Result (ℕ × Text) ExecParseError → Type 0
CleanPush (ok (n, t)) = NoNul t
CleanPush (err e) = Unit

push_character-Clean : (c : ℕ) (cs out : Text) → NoNul out → CleanPush (push_character c cs out)
unfolding push_character
push_character-Clean c [] out h = ground (arith, NoNul-concat out c h)
push_character-Clean c (d ∷ ds) out h =
    ground (arith, NoNul-concat out c h, NoNul-concat out b'%' h)

pushed-Clean :
    (taken : ℕ) (s : Scan) (r : Result (ℕ × Text) ExecParseError)
    → IsClean s
    → CleanPush r
    → CleanRound (pushed taken s r)
pushed-Clean taken s (ok (n, t)) h c = record { args_clean = h.args_clean; current_clean = c }
pushed-Clean taken s (err e) h c = tt

escape-IsClean : (cs : Text) (s : Scan) → IsClean s → CleanRound (escape cs s)
unfolding escape
escape-IsClean [] s h = tt
escape-IsClean (c ∷ cs) s h = ground (
  arith,
  pushed-Clean 1 s (push_character c cs s.current) h
      (push_character-Clean c cs s.current h.current_clean),
)

end_token-IsClean : (s : Scan) → IsClean s → IsClean (end_token s)
end_token-IsClean s h =
    ground (arith, All-concat NoNul s.args s.current h.args_clean h.current_clean)

round-IsClean : (c : ℕ) (cs : Text) (s : Scan) → IsClean s → CleanRound (round c cs s)
unfolding round
round-IsClean c cs s h = ground (
  arith,
  escape-IsClean cs s h,
  end_token-IsClean s h,
  pushed-Clean 0 s (push_character c cs s.current) h
      (push_character-Clean c cs s.current h.current_clean),
)

scan-IsClean :
    (skip : ℕ) (cs : Text) (s : Scan) {t : Scan} → IsClean s → scan skip cs s ≡ ok t → IsClean t
unfolding scan
scan-IsClean skip [] s h e = subst IsClean (ok-injective e) h
scan-IsClean (suc skip) (c ∷ cs) s h e = scan-IsClean skip cs s h e
scan-IsClean zero (c ∷ cs) s {t} h e =
    next (λ n u k q. scan-IsClean n cs u k q) (round c cs s) (round-IsClean c cs s h) e
  where
    next :
        ((n : ℕ) (u : Scan) → IsClean u → scan n cs u ≡ ok t → IsClean t)
        → (r : Round) → CleanRound r
        → elim r [ err e ↦ err e | ok (n, u) ↦ scan n cs u ] ≡ ok t
        → IsClean t
    next rest (ok (n, u)) k e = rest n u k e
    next rest (err x) k e = cc

-- A vector that may be passed to `execve`: a program name that is not empty and holds no `=`, and
-- no NUL character in any argument.
pub record IsExecutable (args : List Text) : Type 0 where
  pub clean : All NoNul args
  pub program : Text
  pub arguments : List Text
  pub splits : args ≡ program ∷ arguments
  pub program_not_empty : is_empty program ≡ false
  pub program_no_equals : contains b'=' program ≡ false

check_executable-IsExecutable :
    (given : List Text) {args : List Text}
    → All NoNul given
    → check_executable given ≡ ok args
    → IsExecutable args
check_executable-IsExecutable [] c e = cc
check_executable-IsExecutable (t ∷ ts) {args} c e =
    elim (Bool-cases (is_empty t || contains b'=' t || contains 0 t)) [
      | inl bad ↦ cc (rw bad at e)
      | inr good ↦ subst IsExecutable (ok-injective (rw good at e)) (record {
        clean = c;
        program = t;
        arguments = ts;
        splits = refl;
        program_not_empty = ground arith;
        program_no_equals = ground arith;
      })
    ]

finish-IsExecutable :
    (s : Scan) {args : List Text} → IsClean s → finish s ≡ ok args → IsExecutable args
unfolding finish
finish-IsExecutable s h e = elim (Bool-cases s.in_quotes) [
  | inl open_quote ↦ cc (rw open_quote at e)
  | inr outside ↦
      check_executable-IsExecutable (if s.token_started then s.args ++ s.current ∷ [] else s.args)
        (ground (arith, All-concat NoNul s.args s.current h.args_clean h.current_clean))
        (rw outside at e)
]

-- Whatever `parse_exec` accepts may be executed: there is a program, with a name that is not empty
-- and holds no `=`, and no argument holds a NUL.
pub parse_exec-IsExecutable :
    (input : Text) {args : List Text} → parse_exec input ≡ ok args → IsExecutable args
unfolding parse_exec
parse_exec-IsExecutable input e =
    let (s, scanned, finished) = >=>-eq-ok (scan 0 input initial) finish e in
    finish-IsExecutable s
      (scan-IsClean 0 input initial (record { args_clean = tt; current_clean = refl }) scanned)
      finished
