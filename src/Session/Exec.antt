-- ===== src/Session/Exec.antt =====
-- crates/fomalhaut-session/src/exec.rs: the `Exec` line of a desktop entry, as an argument vector.
pub mod Accepted
pub mod Unquoted
pub mod Quote
pub mod QuoteRoundTrip
use fomalhaut.Common.{
  ℕ, zero, suc, ◌+◌, Bool, true, false, not, ◌&&◌, ◌||◌, List, [], ◌∷◌, ◌++◌, Option, none, some,
  Result, ok, err, ◌>=>◌, ok_or, ◌==◌, if◌then◌else◌, is_empty, contains,
}
use fomalhaut.Core.Types.{Text}

pub data ExecParseError : Type 0 where
  empty unmatched_quote invalid_escape reserved_character : ExecParseError
  unsupported_field_code invalid_executable : ExecParseError

-- '\'' '>' '<' '~' '|' '&' ';' '$' '*' '?' '#' '(' ')' '`'
unfoldable pub is_reserved : ℕ → Bool
is_reserved c =
    c == 39
    || c == b'>'
    || c == b'<'
    || c == b'~'
    || c == b'|'
    || c == b'&'
    || c == b';'
    || c == b'$'
    || c == b'*'
    || c == b'?'
    || c == b'#'
    || c == b'('
    || c == b')'
    || c == b'`'

-- `char::is_ascii_whitespace`: space, tab, line feed, form feed, carriage return.
unfoldable pub is_ascii_whitespace : ℕ → Bool
is_ascii_whitespace c = c == 32 || c == 9 || c == 10 || c == 12 || c == 13

abbrev pub is_quotable : ℕ → Bool
is_quotable c = c == b'"' || c == b'`' || c == b'$' || c == 92

-- The locals of the loop.
pub record Scan : Type 0 where
  pub args : List Text
  pub current : Text
  pub in_quotes : Bool
  pub token_started : Bool
  pub quote_closed : Bool

-- Behind a `%`.
abbrev pub push_percent : Option ℕ → Text → Result (ℕ × Text) ExecParseError
push_percent none output = err unsupported_field_code
push_percent (some c) output =
    if c == b'%' then ok (1, output ++ b'%' ∷ []) else err unsupported_field_code

abbrev pub peek : Text → Option ℕ
peek [] = none
peek (c ∷ cs) = some c

-- How many characters were taken from the iterator, and the new output.
unfoldable pub push_character : ℕ → Text → Text → Result (ℕ × Text) ExecParseError
push_character character characters output =
    if character == b'%'
    then push_percent (peek characters) output
    else if character == 0
    then err invalid_executable
    else ok (0, output ++ character ∷ [])

-- What one round of the loop does: it fails, or goes on behind some more characters.
abbrev pub Round : Type 0
Round = Result (ℕ × Scan) ExecParseError

abbrev pub pushed : ℕ → Scan → Result (ℕ × Text) ExecParseError → Round
pushed taken s (ok (n, text)) = ok (taken + n, record s { current = text; token_started = true })
pushed taken s (err e) = err e

-- The arm of `'\\'`.
unfoldable pub escape : Text → Scan → Round
unfolding push_character
escape [] s = err invalid_escape
escape (escaped ∷ characters) s =
    if s.in_quotes && not (is_quotable escaped)
    then err invalid_escape
    else pushed 1 s (push_character escaped characters s.current)

-- The arm of white space outside quotes.
abbrev pub end_token : Scan → Scan
end_token s =
    if s.token_started
    then record s {
      args = s.args ++ s.current ∷ [];
      current = [];
      token_started = false;
      quote_closed = false;
    }
    else s

unfoldable pub round : ℕ → Text → Scan → Round
unfolding push_character escape
round c characters s =
    if s.quote_closed && not (is_ascii_whitespace c)
    then err reserved_character
    else if c == b'"' && not s.in_quotes
    then (if s.token_started
        then err reserved_character
        else ok (0, record s { in_quotes = true; token_started = true }))
    else if c == b'"'
    then ok (0, record s { in_quotes = false; quote_closed = true })
    else if c == 92
    then escape characters s
    else if is_ascii_whitespace c && not s.in_quotes
    then ok (0, end_token s)
    else if not s.in_quotes && is_reserved c
    then err reserved_character
    else if (c == b'`' || c == b'$') && s.in_quotes
    then err reserved_character
    else pushed 0 s (push_character c characters s.current)

-- The loop; the first argument counts the characters that its last round has taken already.
unfoldable pub scan : ℕ → Text → Scan → Result Scan ExecParseError
scan skip [] s = ok s
scan (suc skip) (c ∷ cs) s = scan skip cs s
scan zero (c ∷ cs) s = elim (round c cs s) [ err e ↦ err e | ok (n, t) ↦ scan n cs t ]

abbrev pub check_executable : List Text → Result (List Text) ExecParseError
check_executable [] = err empty
check_executable (arg ∷ args) =
    if is_empty arg || contains b'=' arg || contains 0 arg
    then err invalid_executable
    else ok (arg ∷ args)

-- Behind the loop.
unfoldable pub finish : Scan → Result (List Text) ExecParseError
finish s =
    if s.in_quotes
    then err unmatched_quote
    else check_executable (if s.token_started then s.args ++ s.current ∷ [] else s.args)

abbrev pub initial : Scan
initial = record {
  args = [];
  current = [];
  in_quotes = false;
  token_started = false;
  quote_closed = false;
}

unfoldable pub parse_exec : Text → Result (List Text) ExecParseError
unfolding scan finish round is_reserved is_ascii_whitespace
parse_exec input = scan 0 input initial >=> finish
