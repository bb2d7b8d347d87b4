-- ===== src/Pam/Identity.antt =====
-- crates/fomalhaut-pam/src/identity.rs: the account of the current process, from the text of
-- /proc/self/status and of getent.
pub mod Account
use fomalhaut.Common.{
  ℕ, ◌+◌, ◌-◌, ◌*◌, Bool, true, false, not, ◌&&◌, ◌||◌, Option, none, some, List, [], ◌∷◌, map,
  Result, ok, err, ok_or, ◌>=>◌, leb, ltb, ◌==◌, if◌then◌else◌, length, is_empty, any, contains,
  drop, String,
}
use fomalhaut.Pam.Bytes.{Bytes, is_utf8}
use fomalhaut.Pam.Ipc.{max_username_bytes}
use fomalhaut.Pam.Transport.{CurrentUserIdentity}
use fomalhaut.Session.Texts.{chars, split}

pub data IdentityDiscoveryError : Type 0 where
  process_status privileged_process account_lookup invalid_account : IdentityDiscoveryError

-- A carriage return before the line feed.
abbrev pub strip_return : Bytes → Bytes
strip_return [] = []
strip_return (c ∷ []) = if c == 13 then [] else c ∷ []
strip_return (c ∷ d ∷ cs) = c ∷ strip_return (d ∷ cs)

-- `str::lines`: an empty piece behind the last line feed is no line.
abbrev pub to_lines : List Bytes → List Bytes
to_lines [] = []
to_lines (t ∷ []) = if is_empty t then [] else t ∷ []
to_lines (t ∷ u ∷ ts) = strip_return t ∷ to_lines (u ∷ ts)

unfoldable pub lines : Bytes → List Bytes
unfolding split
lines text = to_lines (split 10 text)

abbrev pub non_empty : List Bytes → List Bytes
non_empty [] = []
non_empty (t ∷ ts) = if is_empty t then non_empty ts else t ∷ non_empty ts

-- `split_ascii_whitespace`.
abbrev pub to_space : ℕ → ℕ
to_space c = if c == 9 || c == 10 || c == 12 || c == 13 then 32 else c

unfoldable pub words : Bytes → List Bytes
unfolding split
words text = non_empty (split 32 (map to_space text))

-- `str::parse::<u32>`.
abbrev pub parse_digits : ℕ → Bytes → Option ℕ
parse_digits n [] = some n
parse_digits n (c ∷ cs) =
    let rest = parse_digits (n * 10 + (c - 48)) cs in
    if leb 48 c && leb c 57 && ltb (n * 10 + (c - 48)) 4294967296 then rest else none

unfoldable pub parse_u32 : Bytes → Option ℕ
parse_u32 [] = none
parse_u32 (c ∷ cs) =
    if c == b'+' then (if is_empty cs then none else parse_digits 0 cs) else parse_digits 0 (c ∷ cs)

-- `strip_prefix`.
abbrev pub strip_prefix : Bytes → Bytes → Option Bytes
strip_prefix [] t = some t
strip_prefix (p ∷ ps) [] = none
strip_prefix (p ∷ ps) (c ∷ cs) = if p == c then strip_prefix ps cs else none

abbrev pub first_some : Option Bytes → Option Bytes → Option Bytes
first_some (some t) rest = some t
first_some none rest = rest

abbrev pub find_uid : List Bytes → Option Bytes
find_uid [] = none
find_uid (l ∷ ls) = first_some (strip_prefix (chars "Uid:") l) (find_uid ls)

abbrev pub cons_value : Option ℕ → Option (List ℕ) → Option (List ℕ)
cons_value (some n) (some ns) = some (n ∷ ns)
cons_value (some n) none = none
cons_value none rest = none

abbrev pub parse_all : List Bytes → Option (List ℕ)
parse_all [] = some []
parse_all (w ∷ ws) = cons_value (parse_u32 w) (parse_all ws)

abbrev pub check_uids : List ℕ → Result ℕ IdentityDiscoveryError
check_uids [] = err process_status
check_uids (a ∷ []) = err process_status
check_uids (a ∷ b ∷ []) = err process_status
check_uids (a ∷ b ∷ c ∷ []) = err process_status
check_uids (real ∷ effective ∷ saved ∷ filesystem ∷ []) =
    if not (real == effective) || not (real == saved) || not (real == filesystem)
    then err privileged_process
    else if real == 0
    then err privileged_process
    else ok real
check_uids (a ∷ b ∷ c ∷ d ∷ e ∷ rest) = err process_status

unfoldable pub parse_process_uid : Bytes → Result ℕ IdentityDiscoveryError
unfolding is_utf8 lines words parse_u32
parse_process_uid status =
    if not (is_utf8 status)
    then err process_status
    else ok_or (find_uid (lines status)) process_status >=> λ line.
        ok_or (parse_all (words line)) process_status >=> λ values. check_uids values

-- `char::is_control` of a character of UTF-8: below 32, 127, or U+0080 to U+009F.
abbrev pub has_control : Bytes → Bool
has_control [] = false
has_control (c ∷ []) = leb c 31 || c == 127
has_control (c ∷ d ∷ cs) =
    leb c 31 || c == 127 || (c == 194 && leb 128 d && leb d 159) || has_control (d ∷ cs)

unfoldable pub valid_identity_text : Bytes → ℕ → Bool
valid_identity_text value maximum =
    not (is_empty value)
    && leb (length value) maximum
    && not (has_control value)
    && not (contains b':' value)

unfoldable pub from_trusted_parts :
    ℕ → Bytes → Bytes → Result CurrentUserIdentity IdentityDiscoveryError
unfolding valid_identity_text
from_trusted_parts uid username display_name =
    if not (valid_identity_text username max_username_bytes)
      || not (valid_identity_text display_name max_username_bytes)
    then err invalid_account
    else ok (record { uid = uid; username = username; display_name = display_name })

-- How many bytes of white space, as one character, a text starts with.
abbrev pub white_bytes : Bytes → ℕ
white_bytes [] = 0
white_bytes (c ∷ []) = if (leb 9 c && leb c 13) || c == 32 then 1 else 0
white_bytes (c ∷ d ∷ []) =
    if (leb 9 c && leb c 13) || c == 32
    then 1
    else if c == 194 && (d == 133 || d == 160)
    then 2
    else 0
white_bytes (c ∷ d ∷ e ∷ cs) =
    if (leb 9 c && leb c 13) || c == 32
    then 1
    else if c == 194 && (d == 133 || d == 160)
    then 2
    else if (c == 225 && d == 154 && e == 128)
        || (c == 226 && d == 128 && ((leb 128 e && leb e 138) || e == 168 || e == 169 || e == 175))
        || (c == 226 && d == 129 && e == 159)
        || (c == 227 && d == 128 && e == 128)
    then 3
    else 0

-- `trim_start`; `skip` bytes of the last white character are still to be dropped.
abbrev pub trim_start : ℕ → Bytes → Bytes
trim_start skip [] = []
trim_start skip (c ∷ cs) =
    let n = (if skip == 0 then white_bytes (c ∷ cs) else skip) in
    let rest = trim_start (n - 1) cs in if n == 0 then c ∷ cs else rest

-- `trim_end`: a text that is all white is empty.
abbrev pub trim_end : Bytes → Bytes
trim_end [] = []
trim_end (c ∷ cs) =
    let rest = trim_end cs in if is_empty (trim_start 0 (c ∷ cs)) then [] else c ∷ rest

unfoldable pub trim : Bytes → Bytes
trim text = trim_end (trim_start 0 text)

abbrev pub first_field : List Bytes → Bytes
first_field [] = []
first_field (t ∷ ts) = t

abbrev pub or_username : Bytes → Bytes → Bytes
or_username username display_name = if is_empty display_name then username else display_name

abbrev pub account_of :
    ℕ → Bytes → Bytes → Option ℕ → Result CurrentUserIdentity IdentityDiscoveryError
account_of expected_uid username display_name none = err invalid_account
account_of expected_uid username display_name (some uid) =
    if not (uid == expected_uid) || not (valid_identity_text username max_username_bytes)
    then err invalid_account
    else if not (valid_identity_text display_name max_username_bytes)
    then err invalid_account
    else from_trusted_parts uid username display_name

abbrev pub parse_fields : ℕ → List Bytes → Result CurrentUserIdentity IdentityDiscoveryError
parse_fields expected_uid (username ∷ _ ∷ uid ∷ _ ∷ gecos ∷ _ ∷ _ ∷ []) =
    account_of expected_uid username (or_username username (trim (first_field (split b',' gecos))))
      (parse_u32 uid)
parse_fields expected_uid _ = err invalid_account

abbrev pub sole : List Bytes → Result Bytes IdentityDiscoveryError
sole [] = err invalid_account
sole (t ∷ []) = ok t
sole (t ∷ u ∷ ts) = err invalid_account

unfoldable pub parse_passwd_identity : ℕ → Bytes → Result CurrentUserIdentity IdentityDiscoveryError
unfolding is_utf8 lines split parse_u32 trim valid_identity_text from_trusted_parts
parse_passwd_identity expected_uid passwd =
    if not (is_utf8 passwd)
    then err invalid_account
    else sole (non_empty (lines passwd)) >=> λ line. parse_fields expected_uid (split b':' line)
