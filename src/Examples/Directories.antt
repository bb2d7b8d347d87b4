-- ===== src/Examples/Directories.antt =====
-- Users of a small system, and its password database.
use fomalhaut.Common.{
  ◌↔◌, ◌≤◌, length, ℕ, ◌+◌, Option, none, some, true, false, [], ◌∷◌, ◌++◌, ok, err, ◌≡◌, refl, map,
}
use fomalhaut.Core.Types.{Text}
use fomalhaut.Session.Texts.{chars}
use fomalhaut.Web.Messages.{UserSummary}
use fomalhaut.Pam.Identity.{lines}
use fomalhaut.User.Directory.{
  RawUser, UserProvider, provider, user_of, parse_passwd, is_login_shell, build_public_users,
  discover_users_with, unavailable, access_denied,
}
use fomalhaut.User.Directory.Public.{IsPublic, build_public_users-IsPublic}
use fomalhaut.User.Directory.Passwd.{Lists, parse_passwd-Lists}
use fomalhaut.User.Accounts.{
  AccountProperties, accounts_service_user, discover_current_avatar, read_uid_range,
  avatar_content_type, ContentType,
}

abbrev database : Text
database =
    chars "root:x:0:0::/root:/bin/sh\n"
    ++ chars "alice:x:1000:1000::/home/alice:/bin/sh\n"
    ++ chars "daemon:x:1001:1001::/:/usr/bin/nologin\n"
    ++ chars "bob:x:1002:1002::/home/bob:/bin/fish\n"

abbrev alice : RawUser
alice = user_of 1000 (chars "alice")

abbrev bob : RawUser
bob = record {
  uid = 1002;
  username = chars "bob";
  display_name = chars "Bob";
  icon_file = some (chars "/icons/bob");
  login_frequency = 7;
}

abbrev icons : Text → ℕ → ℕ → Option Text
icons path uid identifier = some (chars "fomalhaut://avatar/" ++ (identifier + 48) ∷ [])

parses : parse_passwd database 1000 60000 ≡ ok (alice ∷ user_of 1002 (chars "bob") ∷ [])
unfolding parse_passwd
parses = refl

parses_malformed : parse_passwd (database ++ chars "eve:x:1003\n") 1000 60000 ≡ err provider
unfolding parse_passwd
parses_malformed = refl

disables : is_login_shell (chars "/sbin/nologin/.") ≡ false
unfolding is_login_shell
disables = refl

-- The more frequent user comes first, and the second alice is not shown.
shown :
    map UserSummary.username (build_public_users icons (alice ∷ alice ∷ bob ∷ [])).summaries
    ≡ chars "bob" ∷ chars "alice" ∷ []
unfolding build_public_users
shown = refl

falls_back :
    discover_users_with icons UserProvider.auto (err unavailable) (ok (bob ∷ []))
    ≡ ok (build_public_users icons (bob ∷ []))
unfolding discover_users_with
falls_back = refl

denied :
    discover_users_with icons UserProvider.auto (err access_denied) (ok (bob ∷ []))
    ≡ ok (build_public_users icons [])
unfolding discover_users_with
denied = refl

abbrev answers : AccountProperties
answers = record {
  system_account = some false;
  locked = some false;
  uid = some 1002;
  username = some (chars "bob");
  real_name = some (chars "Bob");
  icon_file = some (chars "/icons/bob");
  login_frequency = some 7;
}

lists_bob : accounts_service_user answers ≡ some bob
unfolding accounts_service_user
lists_bob = refl

lists_no_locked : accounts_service_user (record answers { locked = some true }) ≡ none
unfolding accounts_service_user
lists_no_locked = refl

finds_avatar :
    discover_current_avatar icons (some answers) 1002 (chars "bob")
    ≡ some (chars "fomalhaut://avatar/1")
unfolding discover_current_avatar
finds_avatar = refl

finds_no_other : discover_current_avatar icons (some answers) 1000 (chars "alice") ≡ none
unfolding discover_current_avatar
finds_no_other = refl

reads_range : read_uid_range (some (chars "UID_MIN 500\n# UID_MAX 7\nUID_MAX\t 900\n")) ≡ (500, 900)
unfolding read_uid_range
reads_range = refl

reads_default : read_uid_range (some (chars "UID_MIN 900\nUID_MAX 500\n")) ≡ (1000, 60000)
unfolding read_uid_range
reads_default = refl

knows_webp : avatar_content_type (chars "RIFF1234WEBP") ≡ some ContentType.webp
unfolding avatar_content_type
knows_webp = refl

build_public_users-IsPublic_example : IsPublic (build_public_users icons (alice ∷ alice ∷ bob ∷ []))
build_public_users-IsPublic_example = build_public_users-IsPublic icons (alice ∷ alice ∷ bob ∷ [])

parse_passwd-Lists_example :
    (parse_passwd database 1000 60000 ≡ ok (alice ∷ user_of 1002 (chars "bob") ∷ [])) ↔ (
      (length (lines database) ≤ 4096)
      × Lists 1000 60000 (lines database) (alice ∷ user_of 1002 (chars "bob") ∷ []))
parse_passwd-Lists_example =
    parse_passwd-Lists 1000 60000 database (alice ∷ user_of 1002 (chars "bob") ∷ [])
