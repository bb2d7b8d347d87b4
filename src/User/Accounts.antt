-- ===== src/User/Accounts.antt =====
-- crates/fomalhaut-user/src/lib.rs: what is made of the answers of AccountsService and of login.defs.
use fomalhaut.Common.{
  ℕ, Bool, true, false, not, ◌||◌, ◌&&◌, Option, none, some, List, [], ◌∷◌, Result, ok, err, leb,
  length, ◌==◌, is_empty, take, drop, if◌then◌else◌,
}
use fomalhaut.Core.Types.{Text}
use fomalhaut.Session.Texts.{chars, text_eq, is_whitespace}
use fomalhaut.Pam.Identity.{lines, parse_u32, strip_prefix}
use fomalhaut.User.Directory.{RawUser, AccountsDiscoveryError, UserDiscoveryError, parse_passwd}

abbrev pub default_uid_min : ℕ
default_uid_min = 1000

abbrev pub default_uid_max : ℕ
default_uid_max = 60000

-- The answers to the properties of one user, with none for those that fail.
pub record AccountProperties : Type 0 where
  pub system_account : Option Bool
  pub locked : Option Bool
  pub uid : Option ℕ
  pub username : Option Text
  pub real_name : Option Text
  pub icon_file : Option Text
  pub login_frequency : Option ℕ

abbrev pub and_then : {A B : Type 0} → Option A → (A → Option B) → Option B
and_then none f = none
and_then (some a) f = f a

abbrev pub unwrap_or : Option ℕ → ℕ → ℕ
unwrap_or none d = d
unwrap_or (some n) d = n

-- `u32::try_from`.
abbrev pub try_from : ℕ → Option ℕ
try_from n = if leb n 4294967295 then some n else none

abbrev pub non_empty_path : Option Text → Option Text
non_empty_path none = none
non_empty_path (some path) = if is_empty path then none else some path

unfoldable pub accounts_service_user : AccountProperties → Option RawUser
accounts_service_user p = and_then p.system_account λ system_account.
    if system_account
    then none
    else and_then p.locked λ locked.
      if locked
      then none
      else and_then p.uid λ number. and_then (try_from number) λ uid.
        and_then p.username λ username. and_then p.real_name λ real_name. some (record {
          uid = uid;
          username = username;
          display_name = if is_empty real_name then username else real_name;
          icon_file = non_empty_path p.icon_file;
          login_frequency = unwrap_or p.login_frequency 0;
        })

abbrev pub keep_user : Option RawUser → List RawUser → List RawUser
keep_user none users = users
keep_user (some u) users = u ∷ users

-- `filter_map`; none is a user that has no proxy.
abbrev pub listed_users : List (Option AccountProperties) → List RawUser
listed_users [] = []
listed_users (p ∷ ps) = keep_user (and_then p accounts_service_user) (listed_users ps)

-- The failures of the connection, of the proxy and of the call are those of the answer.
unfoldable pub discover_accounts_service :
    Result (List (Option AccountProperties)) AccountsDiscoveryError
    → Result (List RawUser) AccountsDiscoveryError
unfolding accounts_service_user
discover_accounts_service (err e) = err e
discover_accounts_service (ok paths) = ok (listed_users paths)

-- The address of the avatar of a user who is known already.
unfoldable pub current_avatar_from_properties :
    (Text → ℕ → ℕ → Option Text) → ℕ → Text → ℕ → Text → Text → Option Text
unfolding text_eq
current_avatar_from_properties read_avatar expected_uid expected_username uid username icon_file =
    if not (uid == expected_uid) || not (text_eq username expected_username)
    then none
    else read_avatar icon_file expected_uid 1

unfoldable pub discover_current_avatar :
    (Text → ℕ → ℕ → Option Text) → Option AccountProperties → ℕ → Text → Option Text
unfolding current_avatar_from_properties
discover_current_avatar read_avatar answers uid username = and_then answers λ p.
    and_then p.uid λ number. and_then (try_from number) λ discovered_uid.
      and_then p.username λ discovered_username. and_then (non_empty_path p.icon_file) λ icon_file.
        current_avatar_from_properties read_avatar uid username discovered_uid discovered_username
          icon_file

-- `split_whitespace`.
abbrev pub in_word : ℕ → List Text → List Text
in_word c [] = (c ∷ []) ∷ []
in_word c (w ∷ ws) = (c ∷ w) ∷ ws

-- The pieces between white space, the first of them at the front.
abbrev pub pieces : Text → List Text
pieces [] = [] ∷ []
pieces (c ∷ cs) = let rest = pieces cs in if is_whitespace c then [] ∷ rest else in_word c rest

abbrev pub words_of : List Text → List Text
words_of [] = []
words_of (w ∷ ws) = if is_empty w then words_of ws else w ∷ words_of ws

unfoldable pub split_whitespace : Text → List Text
unfolding is_whitespace
split_whitespace line = words_of (pieces line)

pub record UidRange : Type 0 where
  pub minimum : Option ℕ
  pub maximum : Option ℕ

-- One line of login.defs: a later value counts, and one that is no number clears it.
abbrev pub read_field : UidRange → List Text → UidRange
read_field r (name ∷ value ∷ []) =
    if text_eq name (chars "UID_MIN")
    then record r { minimum = parse_u32 value }
    else if text_eq name (chars "UID_MAX")
    then record r { maximum = parse_u32 value }
    else r
read_field r _ = r

abbrev pub read_fields : UidRange → List Text → UidRange
read_fields r [] = r
read_fields r (line ∷ rest) = read_fields (read_field r (split_whitespace line)) rest

abbrev pub ordered_range : Option ℕ → Option ℕ → ℕ × ℕ
ordered_range (some minimum) (some maximum) =
    if leb minimum maximum then (minimum, maximum) else (default_uid_min, default_uid_max)
ordered_range _ _ = (default_uid_min, default_uid_max)

abbrev pub range_of : UidRange → ℕ × ℕ
range_of r = ordered_range r.minimum r.maximum

-- The characters of the file, with none if the file cannot be read or is too large.
unfoldable pub read_uid_range : Option Text → ℕ × ℕ
unfolding lines text_eq split_whitespace parse_u32
read_uid_range none = (default_uid_min, default_uid_max)
read_uid_range (some input) =
    range_of (read_fields (record { minimum = none; maximum = none }) (lines input))

-- The output is what getent answers.
unfoldable pub discover_nss :
    Option Text → Result Text UserDiscoveryError → Result (List RawUser) UserDiscoveryError
unfolding read_uid_range parse_passwd
discover_nss login_defs (err e) = err e
discover_nss login_defs (ok output) =
    let (uid_min, uid_max) = read_uid_range login_defs in parse_passwd output uid_min uid_max

-- `slice::starts_with`.
abbrev pub starts_with : Text → Text → Bool
starts_with body prefix = elim (strip_prefix prefix body) [ none ↦ false | some rest ↦ true ]

pub data ContentType : Type 0 where
  png jpeg webp : ContentType

unfoldable pub avatar_content_type : Text → Option ContentType
unfolding text_eq
avatar_content_type body =
    if starts_with body (137 ∷ 80 ∷ 78 ∷ 71 ∷ 13 ∷ 10 ∷ 26 ∷ 10 ∷ [])
    then some png
    else if starts_with body (255 ∷ 216 ∷ 255 ∷ [])
    then some jpeg
    else if leb 12 (length body)
        && starts_with body (chars "RIFF")
        && text_eq (take 4 (drop 8 body)) (chars "WEBP")
    then some webp
    else none
