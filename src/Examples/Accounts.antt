-- ===== src/Examples/Accounts.antt =====
-- The account of a process.
use fomalhaut.Common.{ℕ, some, [], ◌∷◌, ◌++◌, ok, err, ◌≡◌, ◌≢◌, refl}
use fomalhaut.Pam.Bytes.{Bytes}
use fomalhaut.Pam.Transport.{CurrentUserIdentity}
use fomalhaut.Session.Texts.{chars}
use fomalhaut.Pam.Identity.{
  lines, words, find_uid, parse_all, parse_process_uid, parse_passwd_identity, invalid_account,
  privileged_process,
}
use fomalhaut.Pam.Identity.Account.{
  IsAccount, parse_process_uid-same, parse_passwd_identity-IsAccount,
}

abbrev status : Bytes
status =
    chars "Name:"
    ++ 10 ∷ chars "Uid:"
    ++ 9 ∷ chars "7"
    ++ 9 ∷ chars "7"
    ++ 9 ∷ chars "7 7"
    ++ 10 ∷ []

reads_status : parse_process_uid status ≡ ok 7
unfolding parse_process_uid
reads_status = refl

parse_process_uid-same_example :
    (◌≢◌ {A = ℕ} 7 0)
    × (line : Bytes) × (find_uid (lines status) ≡ some line)
    × (parse_all (words line) ≡ some (7 ∷ 7 ∷ 7 ∷ 7 ∷ []))
parse_process_uid-same_example = parse_process_uid-same status 7 reads_status

-- A process that changed its credentials.
refuses_status : parse_process_uid (chars "Uid: 7 0 7 7") ≡ err privileged_process
unfolding parse_process_uid
refuses_status = refl

abbrev passwd : Bytes
passwd = chars "al:x:7:7: Al ,:/home/al:/bin/sh" ++ 10 ∷ []

abbrev al : CurrentUserIdentity
al = record { uid = 7; username = chars "al"; display_name = chars "Al" }

reads_passwd : parse_passwd_identity 7 passwd ≡ ok al
unfolding parse_passwd_identity
reads_passwd = refl

parse_passwd_identity-IsAccount_example : IsAccount 7 passwd al
parse_passwd_identity-IsAccount_example = parse_passwd_identity-IsAccount 7 passwd al reads_passwd

-- The record of another user.
refuses_passwd : parse_passwd_identity 8 passwd ≡ err invalid_account
unfolding parse_passwd_identity
refuses_passwd = refl
