-- ===== src/Examples/Execs.antt =====
-- `Exec` lines.
use fomalhaut.Common.{List, [], ◌∷◌, ok, ◌≡◌, refl, arith}
use fomalhaut.Core.Types.{Text}
use fomalhaut.Session.Exec.{parse_exec}
use fomalhaut.Session.Exec.Quote.{print_exec}
use fomalhaut.Session.Exec.QuoteRoundTrip.{parse_exec-print_exec}
use fomalhaut.Session.Exec.Accepted.{IsExecutable, parse_exec-IsExecutable}

-- sh -c "a b"
abbrev line : Text
line = b's' ∷ b'h' ∷ 32 ∷ b'-' ∷ b'c' ∷ 32 ∷ b'"' ∷ b'a' ∷ 32 ∷ b'b' ∷ b'"' ∷ []

abbrev arguments : List Text
arguments = (b's' ∷ b'h' ∷ []) ∷ (b'-' ∷ b'c' ∷ []) ∷ (b'a' ∷ 32 ∷ b'b' ∷ []) ∷ []

parse_line : parse_exec line ≡ ok arguments
unfolding parse_exec
parse_line = refl

-- 100%%
parse_percent : parse_exec (b'1' ∷ b'%' ∷ b'%' ∷ []) ≡ ok ((b'1' ∷ b'%' ∷ []) ∷ [])
unfolding parse_exec
parse_percent = refl

parse_exec-print_exec_example : parse_exec (print_exec arguments) ≡ ok arguments
parse_exec-print_exec_example = parse_exec-print_exec arguments (refl, refl, (omega arith))

parse_exec-IsExecutable_example : IsExecutable arguments
parse_exec-IsExecutable_example = parse_exec-IsExecutable line parse_line
