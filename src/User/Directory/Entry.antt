-- ===== src/User/Directory/Entry.antt =====
-- The entries of the password database, and the users that crates/fomalhaut-user/src/lib.rs makes of them.
use mathlib.Core.Option.{some-injective}
use fomalhaut.Common.{
  ℕ, ◌≤◌, true, false, Option, none, some, List, [], ◌∷◌, ok, ok_or, >=>-eq-ok, ok-injective, ◌≡◌,
  ◌≢◌, refl, ap, subst, Bool-cases, inl, inr, arith,
}
use fomalhaut.Core.Types.{Text}
use fomalhaut.Session.Texts.{chars, split, text_eq}
use fomalhaut.Session.Texts.Maps.{text_eq_refl, text_eq_ne}
use fomalhaut.Pam.Identity.{parse_u32}
use fomalhaut.User.Directory.{
  RawUser, provider, file_name, is_login_shell, is_disabling, seven_fields, user_of, is_offered,
  parse_line,
}

-- A line of seven fields between colons, of which the third is a number.
pub record IsEntry (line name : Text) (uid : ℕ) (shell : Text) : Type 0 where
  pub password : Text
  pub number : Text
  pub group : Text
  pub comment : Text
  pub home : Text
  pub fields : split 58 line ≡ name ∷ password ∷ number ∷ group ∷ comment ∷ home ∷ shell ∷ []
  pub numbered : parse_u32 number ≡ some uid

-- A user that may log in, and has a number in the range.
pub record IsHuman (uid_min uid_max uid : ℕ) (shell : Text) : Type 0 where
  pub least : uid_min ≤ uid
  pub most : uid ≤ uid_max
  pub no_nologin : file_name shell ≢ some (chars "nologin")
  pub no_false : file_name shell ≢ some (chars "false")

-- The user of an entry.
pub record IsUser (name : Text) (uid : ℕ) (u : RawUser) : Type 0 where
  pub numbered : u.uid ≡ uid
  pub named : u.username ≡ name
  pub shown : u.display_name ≡ name
  pub plain : u.icon_file ≡ none
  pub fresh : u.login_frequency ≡ 0

seven_fields-eq-some :
    (fs : List Text) (name number shell : Text)
    → seven_fields fs ≡ some (name, number, shell)
    → (password : Text) × (group : Text) × (comment : Text) × (home : Text) × (fs
        ≡ name ∷ password ∷ number ∷ group ∷ comment ∷ home ∷ shell ∷ [])
seven_fields-eq-some (a ∷ b ∷ c ∷ d ∷ e ∷ f ∷ g ∷ []) name number shell h = (b, d, e, f, cc)
seven_fields-eq-some [] name number shell h = cc
seven_fields-eq-some (a ∷ []) name number shell h = cc
seven_fields-eq-some (a ∷ b ∷ []) name number shell h = cc
seven_fields-eq-some (a ∷ b ∷ c ∷ []) name number shell h = cc
seven_fields-eq-some (a ∷ b ∷ c ∷ d ∷ []) name number shell h = cc
seven_fields-eq-some (a ∷ b ∷ c ∷ d ∷ e ∷ []) name number shell h = cc
seven_fields-eq-some (a ∷ b ∷ c ∷ d ∷ e ∷ f ∷ []) name number shell h = cc
seven_fields-eq-some (a ∷ b ∷ c ∷ d ∷ e ∷ f ∷ g ∷ x ∷ xs) name number shell h = cc

ok_or-eq-ok : {A : Type 0} (o : Option A) (a : A) → ok_or o provider ≡ ok a → o ≡ some a
ok_or-eq-ok none a h = cc
ok_or-eq-ok (some b) a h = ap some (ok-injective h)

pub parse_line-IsEntry :
    (line name : Text) (uid : ℕ) (shell : Text)
    → parse_line line ≡ ok (name, uid, shell)
    → IsEntry line name uid shell
parse_line-IsEntry line name uid shell h =
    let (f, e, h) = >=>-eq-ok (ok_or (seven_fields (split 58 line)) provider) _ h in
    let (n, i, h) = >=>-eq-ok (ok_or (parse_u32 f.1) provider) _ h in
    let (password, group, comment, home, same) =
      seven_fields-eq-some (split 58 line) f.0 f.1 f.2 (ok_or-eq-ok _ f e) in
    subst (λ (t : Text × ℕ × Text). IsEntry line t.0 t.1 t.2) (ok-injective h)
      (record {
        password = password;
        number = f.1;
        group = group;
        comment = comment;
        home = home;
        fields = same;
        numbered = ok_or-eq-ok (parse_u32 f.1) n i;
      })

pub IsEntry-parse_line :
    (line name : Text) (uid : ℕ) (shell : Text)
    → IsEntry line name uid shell
    → parse_line line ≡ ok (name, uid, shell)
IsEntry-parse_line line name uid shell h = rw (h.fields, h.numbered) refl

is_text : (t u : Text) → text_eq t u ≡ false → t ≢ u
is_text t u h e = cc (h, e, text_eq_refl u)

is_disabling-ne :
    (o : Option Text)
    → is_disabling o ≡ false
    → (o ≢ some (chars "nologin")) × (o ≢ some (chars "false"))
is_disabling-ne none h = (λ e. cc, λ e. cc)
is_disabling-ne (some t) h = (
  λ e. is_text t (chars "nologin") (ground (arith, h)) (some-injective _ _ e),
  λ e. is_text t (chars "false") (ground (arith, h)) (some-injective _ _ e),
)

ne-is_disabling :
    (o : Option Text)
    → o ≢ some (chars "nologin")
    → o ≢ some (chars "false")
    → is_disabling o ≡ false
ne-is_disabling none h k = refl
ne-is_disabling (some t) h k =
    rw
      (
        text_eq_ne t (chars "nologin") (λ e. h (ap some e)),
        text_eq_ne t (chars "false") (λ e. k (ap some e)),
      )
      refl

pub IsHuman-is_offered :
    (lo hi uid : ℕ) (shell : Text) → IsHuman lo hi uid shell → is_offered lo hi uid shell ≡ true
unfolding is_login_shell
IsHuman-is_offered lo hi uid shell h =
    ground (arith, h.least, h.most, ne-is_disabling (file_name shell) h.no_nologin h.no_false)

pub is_offered-IsHuman :
    (lo hi uid : ℕ) (shell : Text) → is_offered lo hi uid shell ≡ true → IsHuman lo hi uid shell
unfolding is_login_shell
is_offered-IsHuman lo hi uid shell h =
    let (nologin, never) = is_disabling-ne (file_name shell) (ground (arith, h)) in
    record {
      least = ground (arith, h);
      most = ground (arith, h);
      no_nologin = nologin;
      no_false = never;
    }

pub IsUser-eq : (name : Text) (uid : ℕ) (u : RawUser) → IsUser name uid u → user_of uid name ≡ u
IsUser-eq name uid u h = cc (h.numbered, h.named, h.shown, h.plain, h.fresh)

pub user_of-IsUser : (name : Text) (uid : ℕ) → IsUser name uid (user_of uid name)
user_of-IsUser name uid = record {
  numbered = refl;
  named = refl;
  shown = refl;
  plain = refl;
  fresh = refl;
}

pub IsHuman-not :
    (lo hi uid : ℕ) (shell : Text) → ¬ IsHuman lo hi uid shell → is_offered lo hi uid shell ≡ false
IsHuman-not lo hi uid shell h = elim (Bool-cases (is_offered lo hi uid shell)) [
  | inl e ↦ absurd (h (is_offered-IsHuman lo hi uid shell e))
  | inr e ↦ e
]
