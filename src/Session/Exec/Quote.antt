-- ===== src/Session/Exec/Quote.antt =====
-- How an argument vector can be written as an `Exec` line: each argument in double quotes.
use fomalhaut.Common.{ℕ, List, [], ◌∷◌, ◌++◌, ◌==◌, if◌then◌else◌}
use fomalhaut.Core.Types.{Text}
use fomalhaut.Session.Exec.{is_quotable}

abbrev pub quote_char : ℕ → Text
quote_char c = if is_quotable c then 92 ∷ c ∷ [] else if c == b'%' then b'%' ∷ b'%' ∷ [] else c ∷ []

unfoldable pub quote_text : Text → Text
quote_text [] = []
quote_text (c ∷ cs) = quote_char c ++ quote_text cs

unfoldable pub quote : Text → Text
unfolding quote_text
quote t = b'"' ∷ (quote_text t ++ b'"' ∷ [])

-- The arguments, a space between two.
unfoldable pub print_exec : List Text → Text
unfolding quote
print_exec [] = []
print_exec (t ∷ []) = quote t
print_exec (t ∷ u ∷ ts) = quote t ++ 32 ∷ print_exec (u ∷ ts)
