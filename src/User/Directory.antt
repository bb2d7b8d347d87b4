-- ===== src/User/Directory.antt =====
-- crates/fomalhaut-user/src/lib.rs: the users that a greeter offers. The answers of AccountsService and of
-- getent, and the reading of an avatar, are inputs.
pub mod Public
pub mod Entry
pub mod Passwd
use Prim.Native.Nat.{compare, Ordering}
use fomalhaut.Common.{
  ℕ, suc, ◌+◌, Bool, true, false, not, ◌||◌, ◌&&◌, Option, none, some, List, [], ◌∷◌, ◌++◌, Result,
  ok, err, map_err, ok_or, ◌>=>◌, leb, length, is_empty, if◌then◌else◌,
}
use fomalhaut.Core.Types.{Text}
use fomalhaut.Session.Texts.{chars, split, text_eq, text_compare, has}
use fomalhaut.Pam.Identity.{lines, parse_u32}
use fomalhaut.Web.Protocol.{ProtocolValueError}
use fomalhaut.Web.Messages.{UserSummary, new_user_summary, max_users}

abbrev pub max_nss_entries : ℕ
max_nss_entries = 4096

pub data UserDiscoveryError : Type 0 where
  spawn timeout provider : UserDiscoveryError

pub data AccountsDiscoveryError : Type 0 where
  unavailable access_denied : AccountsDiscoveryError

-- crates/fomalhaut-config/src/lib.rs.
pub data UserProvider : Type 0 where
  auto accounts_service nss nobody : UserProvider

pub record RawUser : Type 0 where
  pub uid : ℕ
  pub username : Text
  pub display_name : Text
  pub icon_file : Option Text
  pub login_frequency : ℕ

-- `Path::file_name`: the last component, unless that is "..".
abbrev pub last_component : Option Text → List Text → Option Text
last_component found [] = found
last_component found (t ∷ ts) =
    if is_empty t || text_eq t (chars ".")
    then last_component found ts
    else last_component (if text_eq t (chars "..") then none else some t) ts

unfoldable pub file_name : Text → Option Text
unfolding split text_eq
file_name path = last_component none (split 47 path)

abbrev pub is_disabling : Option Text → Bool
is_disabling none = false
is_disabling (some name) = text_eq name (chars "nologin") || text_eq name (chars "false")

unfoldable pub is_login_shell : Text → Bool
unfolding file_name text_eq
is_login_shell shell = not (is_disabling (file_name shell))

-- A line of seven fields: the user name, the number and the shell.
abbrev pub seven_fields : List Text → Option (Text × Text × Text)
seven_fields (a ∷ b ∷ c ∷ d ∷ e ∷ f ∷ g ∷ []) = some (a, c, g)
seven_fields _ = none

abbrev pub user_of : ℕ → Text → RawUser
user_of uid username = record {
  uid = uid;
  username = username;
  display_name = username;
  icon_file = none;
  login_frequency = 0;
}

abbrev pub is_offered : ℕ → ℕ → ℕ → Text → Bool
is_offered uid_min uid_max uid shell = leb uid_min uid && leb uid uid_max && is_login_shell shell

abbrev pub parse_line : Text → Result (Text × ℕ × Text) UserDiscoveryError
parse_line line = ok_or (seven_fields (split 58 line)) provider >=> λ f.
    ok_or (parse_u32 f.1) provider >=> λ uid. ok (f.0, uid, f.2)

abbrev pub parse_lines :
    ℕ → ℕ → ℕ → List Text → List RawUser → Result (List RawUser) UserDiscoveryError
parse_lines uid_min uid_max index [] users = ok users
parse_lines uid_min uid_max index (line ∷ rest) users =
    if leb max_nss_entries index
    then err provider
    else parse_line line >=> λ (username, uid, shell).
        parse_lines uid_min uid_max (index + 1) rest (
          if not (is_offered uid_min uid_max uid shell)
          then users
          else users ++ user_of uid username ∷ [])

unfoldable pub parse_passwd : Text → ℕ → ℕ → Result (List RawUser) UserDiscoveryError
unfolding split parse_u32 is_login_shell lines
parse_passwd output uid_min uid_max = parse_lines uid_min uid_max 0 (lines output) []

-- The order of the users: by descending frequency, then by name.
abbrev pub then_with : Ordering → Ordering → Ordering
then_with Ordering.eq second = second
then_with first second = first

unfoldable pub order : RawUser → RawUser → Ordering
unfolding text_compare
order left right =
    then_with (compare right.login_frequency left.login_frequency)
      (text_compare left.username right.username)

-- `sort_by`, which is stable.
unfoldable pub insert_user : RawUser → List RawUser → List RawUser
unfolding order
insert_user u [] = u ∷ []
insert_user u (v ∷ vs) = elim (order u v) [ Ordering.gt ↦ v ∷ insert_user u vs | _ ↦ u ∷ v ∷ vs ]

unfoldable pub sort_users : List RawUser → List RawUser
unfolding insert_user
sort_users [] = []
sort_users (u ∷ us) = insert_user u (sort_users us)

pub record DiscoveredUsers : Type 0 where
  pub seen : List Text
  pub summaries : List UserSummary
  pub avatars : List Text

abbrev pub of_option : Option Text → List Text
of_option none = []
of_option (some t) = t ∷ []

abbrev pub avatar_of : (Text → ℕ → ℕ → Option Text) → RawUser → ℕ → Option Text
avatar_of read_avatar u identifier = elim u.icon_file [
  | none ↦ none
  | some path ↦ read_avatar path u.uid identifier
]

abbrev pub added :
    DiscoveredUsers → Option Text → Result UserSummary ProtocolValueError → DiscoveredUsers
added d avatar (err e) = d
added d avatar (ok summary) = record d {
  summaries = d.summaries ++ summary ∷ [];
  avatars = d.avatars ++ of_option avatar;
}

-- One round of the loop; an avatar stands for its address.
unfoldable pub add_user : (Text → ℕ → ℕ → Option Text) → DiscoveredUsers → RawUser → DiscoveredUsers
unfolding new_user_summary text_eq
add_user read_avatar d u =
    if leb max_users (length d.summaries) || has u.username d.seen
    then d
    else let avatar = avatar_of read_avatar u (length d.avatars + 1) in
      added (record d { seen = u.username ∷ d.seen }) avatar
        (new_user_summary u.username u.display_name avatar)

abbrev pub add_users :
    (Text → ℕ → ℕ → Option Text) → DiscoveredUsers → List RawUser → DiscoveredUsers
add_users read_avatar d [] = d
add_users read_avatar d (u ∷ us) = add_users read_avatar (add_user read_avatar d u) us

unfoldable pub build_public_users : (Text → ℕ → ℕ → Option Text) → List RawUser → DiscoveredUsers
unfolding add_user sort_users
build_public_users read_avatar raw =
    add_users read_avatar (record { seen = []; summaries = []; avatars = [] }) (sort_users raw)

abbrev pub fallback :
    Result (List RawUser) UserDiscoveryError
    → Result (List RawUser) AccountsDiscoveryError
    → Result (List RawUser) UserDiscoveryError
fallback from_nss (ok users) = ok users
fallback from_nss (err unavailable) = from_nss
fallback from_nss (err access_denied) = ok []

-- The raw users of a provider, from what the two sources answer.
unfoldable pub raw_users :
    UserProvider
    → Result (List RawUser) AccountsDiscoveryError
    → Result (List RawUser) UserDiscoveryError
    → Result (List RawUser) UserDiscoveryError
raw_users auto accounts from_nss = fallback from_nss accounts
raw_users accounts_service accounts from_nss = map_err (λ _. provider) accounts
raw_users nss accounts from_nss = from_nss
raw_users nobody accounts from_nss = ok []

unfoldable pub discover_users_with :
    (Text → ℕ → ℕ → Option Text)
    → UserProvider
    → Result (List RawUser) AccountsDiscoveryError
    → Result (List RawUser) UserDiscoveryError
    → Result DiscoveredUsers UserDiscoveryError
unfolding raw_users build_public_users
discover_users_with read_avatar config accounts from_nss =
    raw_users config accounts from_nss >=> λ raw. ok (build_public_users read_avatar raw)
