-- ===== src/Session/Exec/QuoteRoundTrip.antt =====
-- Every argument vector that may start a program is the meaning of an `Exec` line.
use fomalhaut.Common.{
  ℕ, true, false, List, [], ◌∷◌, ◌++◌, ok, ◌>=>◌, is_empty, contains, All, ◌≡◌, ◌≢◌, refl, sym, ap,
  ◌∙◌, arith,
}
use mathlib.Core.List.{append-nil, append_assoc}
use fomalhaut.Core.Types.{Text}
use fomalhaut.Session.Exec.{
  Scan, round, scan, finish, parse_exec, is_ascii_whitespace, check_executable,
}
use fomalhaut.Session.Exec.Quote.{quote_char, quote_text, quote, print_exec}

-- Inside the quotes of an argument.
abbrev quoted : List Text → Text → Scan
quoted args current = record {
  args = args;
  current = current;
  in_quotes = true;
  token_started = true;
  quote_closed = false;
}

-- Behind the quotes of an argument.
abbrev closed : List Text → Text → Scan
closed args current = record {
  args = args;
  current = current;
  in_quotes = false;
  token_started = true;
  quote_closed = true;
}

scan-quote_char :
    (c : ℕ) (args : List Text) (current rest : Text)
    → c ≢ 0
    → scan 0 (quote_char c ++ rest) (quoted args current)
      ≡ scan 0 rest (quoted args (current ++ c ∷ []))
unfolding scan round
scan-quote_char c args current rest h = ground arith

abbrev pub NoNul : Text → Type 0
NoNul = All (λ c. c ≢ 0)

scan_close :
    (args : List Text) (current rest : Text)
    → scan 0 (b'"' ∷ rest) (quoted args current) ≡ scan 0 rest (closed args current)
unfolding scan round
scan_close args current rest = refl

scan-quote_text :
    (t : Text) (args : List Text) (current rest : Text)
    → NoNul t
    → scan 0 (quote_text t ++ b'"' ∷ rest) (quoted args current)
      ≡ scan 0 rest (closed args (current ++ t))
unfolding quote_text
scan-quote_text [] args current rest h =
    scan_close args current rest ∙ ap (λ u. scan 0 rest (closed args u)) (sym (append-nil current))
scan-quote_text (c ∷ cs) args current rest h =
    rw (append_assoc (quote_char c) (quote_text cs) (b'"' ∷ rest)) (
      scan-quote_char c args current (quote_text cs ++ b'"' ∷ rest) h.0
      ∙ scan-quote_text cs args (current ++ c ∷ []) rest h.1
      ∙ ap (λ u. scan 0 rest (closed args u)) (append_assoc current (c ∷ []) cs))

-- Between two arguments.
abbrev between : List Text → Scan
between args = record {
  args = args;
  current = [];
  in_quotes = false;
  token_started = false;
  quote_closed = false;
}

scan-quote :
    (t : Text) (args : List Text) (rest : Text)
    → NoNul t
    → scan 0 (quote t ++ rest) (between args) ≡ scan 0 rest (closed args t)
unfolding quote
scan-quote t args rest h =
    scan_open t args rest
    ∙ ap (λ u. scan 0 u (quoted args [])) (append_assoc (quote_text t) (b'"' ∷ []) rest)
    ∙ scan-quote_text t args [] rest h
  where
    scan_open :
        (t : Text) (args : List Text) (rest : Text)
        → scan 0 (b'"' ∷ ((quote_text t ++ b'"' ∷ []) ++ rest)) (between args)
          ≡ scan 0 ((quote_text t ++ b'"' ∷ []) ++ rest) (quoted args [])
    scan_open t args rest = unfold scan round in refl

scan_space :
    (args : List Text) (t rest : Text)
    → scan 0 (32 ∷ rest) (closed args t) ≡ scan 0 rest (between (args ++ t ∷ []))
unfolding scan round is_ascii_whitespace
scan_space args t rest = refl

finish-closed :
    (args : List Text) (t : Text) → finish (closed args t) ≡ check_executable (args ++ t ∷ [])
unfolding finish
finish-closed args t = refl

scan_end : (s : Scan) → scan 0 [] s ≡ ok s
unfolding scan
scan_end s = refl

scan-print_exec :
    (args : List Text) (t : Text) (ts : List Text)
    → All NoNul (t ∷ ts)
    → (scan 0 (print_exec (t ∷ ts)) (between args) >=> finish) ≡ check_executable (args ++ t ∷ ts)
unfolding print_exec
scan-print_exec args t [] h =
    ap (λ u. scan 0 u (between args) >=> finish) (sym (append-nil (quote t)))
    ∙ ap (λ r. r >=> finish) (scan-quote t args [] h.0 ∙ scan_end (closed args t))
    ∙ finish-closed args t
scan-print_exec args t (u ∷ ts) h =
    ap (λ r. r >=> finish)
      (scan-quote t args (32 ∷ print_exec (u ∷ ts)) h.0 ∙ scan_space args t (print_exec (u ∷ ts)))
    ∙ scan-print_exec (args ++ t ∷ []) u ts h.1
    ∙ ap check_executable (append_assoc args (t ∷ []) (u ∷ ts))

-- What a program can be started with: a name that is not empty and holds no `=`, and no NUL at all.
abbrev pub CanStart : List Text → Type 0
CanStart [] = ⊥
CanStart (t ∷ ts) = (is_empty t ≡ false) × (contains b'=' t ≡ false) × All NoNul (t ∷ ts)

contains-NoNul : (t : Text) → NoNul t → contains 0 t ≡ false
contains-NoNul [] h = refl
contains-NoNul (c ∷ cs) h = ground (arith, contains-NoNul cs h.1)

-- Every argument vector that can start a program is parsed back from its quoted form.
pub parse_exec-print_exec :
    (args : List Text) → CanStart args → parse_exec (print_exec args) ≡ ok args
unfolding parse_exec
parse_exec-print_exec [] h = absurd h
parse_exec-print_exec (t ∷ ts) h =
    scan-print_exec [] t ts h.2 ∙ ground (arith, contains-NoNul t h.2.0)
