-- ===== src/Pam/Identity/Account.antt =====
-- Which account crates/fomalhaut-pam/src/identity.rs lets through.
use fomalhaut.Common.{
  ℕ, true, not, ◌||◌, Option, none, some, List, [], ◌∷◌, Result, ok, err, ok_or, >=>-eq-ok, ◌==◌,
  ◌≡◌, ◌≢◌, refl, ap, subst, ◌∙◌, if-elim, Bool-cases, inl, inr, arith,
}
use fomalhaut.Pam.Bytes.{Bytes, is_utf8}
use fomalhaut.Pam.Ipc.{max_username_bytes}
use fomalhaut.Pam.Transport.{CurrentUserIdentity}
use fomalhaut.Session.Texts.{split}
use fomalhaut.Pam.Identity.{
  IdentityDiscoveryError, lines, words, non_empty, parse_u32, find_uid, parse_all, check_uids,
  parse_process_uid, valid_identity_text, from_trusted_parts, account_of, parse_fields, sole,
  parse_passwd_identity,
}

check_uids-same :
    (values : List ℕ) (uid : ℕ)
    → check_uids values ≡ ok uid
    → (uid ≢ 0) × (values ≡ uid ∷ uid ∷ uid ∷ uid ∷ [])
check_uids-same [] uid h = cc
check_uids-same (a ∷ []) uid h = cc
check_uids-same (a ∷ b ∷ []) uid h = cc
check_uids-same (a ∷ b ∷ c ∷ []) uid h = cc
check_uids-same (a ∷ b ∷ c ∷ d ∷ []) uid h = ground arith
check_uids-same (a ∷ b ∷ c ∷ d ∷ e ∷ rest) uid h = cc

ok_or-eq-ok : {A E : Type 0} (o : Option A) (e : E) {a : A} → ok_or o e ≡ ok a → o ≡ some a
ok_or-eq-ok none e h = cc
ok_or-eq-ok (some x) e h = cc

-- When parse_process_uid accepts a status, its user is not root, and the first line that starts with
-- Uid: holds four numbers, real, effective, saved and filesystem, which are all this user.
pub parse_process_uid-same :
    (status : Bytes) (uid : ℕ)
    → parse_process_uid status ≡ ok uid
    → (uid ≢ 0)
      × (line : Bytes) × (find_uid (lines status) ≡ some line)
      × (parse_all (words line) ≡ some (uid ∷ uid ∷ uid ∷ uid ∷ []))
unfolding parse_process_uid
parse_process_uid-same status uid h = elim (Bool-cases (is_utf8 status)) [
  | inr n ↦ cc (rw n at h)
  | inl u ↦
      let (line, l, h) =
        >=>-eq-ok (ok_or (find_uid (lines status)) IdentityDiscoveryError.process_status) _
          (rw u at h) in
      let (values, v, h) =
        >=>-eq-ok (ok_or (parse_all (words line)) IdentityDiscoveryError.process_status) _ h in
      let (n, s) = check_uids-same values uid h in
      (
        n,
        line,
        ok_or-eq-ok (find_uid (lines status)) IdentityDiscoveryError.process_status l,
        ok_or-eq-ok (parse_all (words line)) IdentityDiscoveryError.process_status v ∙ ap some s,
      )
]

-- What the record of the account says.
pub record IsAccount (uid : ℕ) (passwd : Bytes) (i : CurrentUserIdentity) : Type 0 where
  pub same_uid : i.uid ≡ uid
  pub valid_username : valid_identity_text i.username 256 ≡ true
  pub valid_display_name : valid_identity_text i.display_name 256 ≡ true
  pub line : Bytes
  pub only_line : non_empty (lines passwd) ≡ line ∷ []
  pub password : Bytes
  pub uid_text : Bytes
  pub others : List Bytes
  pub fields : split b':' line ≡ i.username ∷ password ∷ uid_text ∷ others
  pub parsed_uid : parse_u32 uid_text ≡ some uid

-- The fields, in the same terms.
record IsOwner (uid : ℕ) (fields : List Bytes) (i : CurrentUserIdentity) : Type 0 where
  own_uid : i.uid ≡ uid
  own_username : valid_identity_text i.username 256 ≡ true
  own_display_name : valid_identity_text i.display_name 256 ≡ true
  own_password : Bytes
  own_text : Bytes
  own_others : List Bytes
  own_fields : fields ≡ i.username ∷ own_password ∷ own_text ∷ own_others
  own_parsed : parse_u32 own_text ≡ some uid

abbrev Accepted :
    (CurrentUserIdentity → Type 0) → Result CurrentUserIdentity IdentityDiscoveryError → Type 0
Accepted P (ok i) = P i
Accepted P (err e) = Unit

account_of-Accepted :
    (uid : ℕ) (username display_name password text : Bytes) (others : List Bytes) (o : Option ℕ)
    → parse_u32 text ≡ o
    → Accepted
        (IsOwner uid (username ∷ password ∷ text ∷ others))
        (account_of uid username display_name o)
unfolding from_trusted_parts
account_of-Accepted uid username display_name password text others none h = tt
account_of-Accepted uid username display_name password text others (some n) h =
    let p = Accepted (IsOwner uid (username ∷ password ∷ text ∷ others)) in
    if-elim p (not (n == uid) || not (valid_identity_text username max_username_bytes)) _ _
      (λ _. tt)
      (λ x.
        if-elim p (not (valid_identity_text display_name max_username_bytes)) _ _ (λ _. tt)
          (λ y.
            if-elim p
              (not (valid_identity_text username max_username_bytes)
                || not (valid_identity_text display_name max_username_bytes))
              _ _ (λ _. tt)
              (λ _. record {
                own_uid = ground arith;
                own_username = ground arith;
                own_display_name = ground arith;
                own_password = password;
                own_text = text;
                own_others = others;
                own_fields = refl;
                own_parsed = ground (arith, h);
              })))

parse_fields-Accepted :
    (uid : ℕ) (fields : List Bytes) → Accepted (IsOwner uid fields) (parse_fields uid fields)
parse_fields-Accepted uid [] = tt
parse_fields-Accepted uid (a ∷ []) = tt
parse_fields-Accepted uid (a ∷ b ∷ []) = tt
parse_fields-Accepted uid (a ∷ b ∷ c ∷ []) = tt
parse_fields-Accepted uid (a ∷ b ∷ c ∷ d ∷ []) = tt
parse_fields-Accepted uid (a ∷ b ∷ c ∷ d ∷ e ∷ []) = tt
parse_fields-Accepted uid (a ∷ b ∷ c ∷ d ∷ e ∷ f ∷ []) = tt
parse_fields-Accepted uid (a ∷ b ∷ c ∷ d ∷ e ∷ f ∷ g ∷ []) =
    account_of-Accepted uid a _ b c (d ∷ e ∷ f ∷ g ∷ []) (parse_u32 c) refl
parse_fields-Accepted uid (a ∷ b ∷ c ∷ d ∷ e ∷ f ∷ g ∷ h ∷ rest) = tt

sole-eq-ok : (ts : List Bytes) (t : Bytes) → sole ts ≡ ok t → ts ≡ t ∷ []
sole-eq-ok [] t h = cc
sole-eq-ok (u ∷ []) t h = cc
sole-eq-ok (u ∷ v ∷ ts) t h = cc

-- When parse_passwd_identity accepts what getent printed for a user, it is one line that is not
-- empty, whose third field is just this user, and whose first field is the account name; the name
-- and the display name pass valid_identity_text with at most 256 bytes.
pub parse_passwd_identity-IsAccount :
    (uid : ℕ) (passwd : Bytes) (i : CurrentUserIdentity)
    → parse_passwd_identity uid passwd ≡ ok i
    → IsAccount uid passwd i
unfolding parse_passwd_identity
parse_passwd_identity-IsAccount uid passwd i h = elim (Bool-cases (is_utf8 passwd)) [
  | inr n ↦ cc (rw n at h)
  | inl u ↦
      let (line, l, h) = >=>-eq-ok (sole (non_empty (lines passwd))) _ (rw u at h) in
      let o =
        subst (Accepted (IsOwner uid (split b':' line))) h
          (parse_fields-Accepted uid (split b':' line)) in
      record {
        same_uid = o.own_uid;
        valid_username = o.own_username;
        valid_display_name = o.own_display_name;
        line = line;
        only_line = sole-eq-ok (non_empty (lines passwd)) line l;
        password = o.own_password;
        uid_text = o.own_text;
        others = o.own_others;
        fields = o.own_fields;
        parsed_uid = o.own_parsed;
      }
]
