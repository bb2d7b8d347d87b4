-- ===== src/User/Directory/Passwd.antt =====
-- Which users crates/fomalhaut-user/src/lib.rs reads of the password database.
use mathlib.Core.List.{append_assoc, append-nil}
use fomalhaut.Common.{
  ℕ, suc, ◌+◌, ◌≤◌, false, not, List, [], ◌∷◌, ◌++◌, Result, ok, >=>-eq-ok, ok-injective, leb,
  length, if◌then◌else◌, if-elim, ◌≡◌, ◌⊎◌, ◌↔◌, ◌∙◌, refl, sym, ap, subst, Bool-cases, inl, inr,
  arith,
}
use fomalhaut.Core.Types.{Text}
use fomalhaut.Pam.Identity.{lines}
use fomalhaut.User.Directory.{
  RawUser, UserDiscoveryError, user_of, is_offered, parse_line, parse_lines, parse_passwd,
}
use fomalhaut.User.Directory.Entry.{
  IsEntry, IsHuman, IsUser, parse_line-IsEntry, IsEntry-parse_line, IsHuman-is_offered,
  is_offered-IsHuman, IsUser-eq, user_of-IsUser, IsHuman-not,
}

module _ (uid_min uid_max : ℕ) where
  -- Every line is an entry, and the users are those of the human entries, in the order of the lines.
  abbrev pub Lists : List Text → List RawUser → Type 0
  Lists [] users = users ≡ []
  Lists (line ∷ rest) users =
      (name : Text) × (uid : ℕ) × (shell : Text) × IsEntry line name uid shell
      × ((IsHuman uid_min uid_max uid shell
            × (u : RawUser) × (later : List RawUser) × (users ≡ u ∷ later)
            × IsUser name uid u
            × Lists rest later)
          ⊎ ((¬ IsHuman uid_min uid_max uid shell) × Lists rest users))

module _ (lo hi : ℕ) where
  -- Every line of what remains is an entry, and the users are the ones above and those of its human entries.
  record Found (index : ℕ) (database : List Text) (above users : List RawUser) : Type 0 where
    small : index + length database ≤ 4096
    found : List RawUser
    split : users ≡ above ++ found
    listed : Lists lo hi database found

  found-Found :
      (index : ℕ) (line : Text) (rest : List Text) (above users : List RawUser) (name : Text)
      (uid : ℕ) (shell : Text)
      → IsEntry line name uid shell
      → Found
          (index + 1)
          rest
          (if not (is_offered lo hi uid shell) then above else above ++ user_of uid name ∷ [])
          users
      → Found index (line ∷ rest) above users
  found-Found index line rest above users name uid shell entry f =
      elim (Bool-cases (is_offered lo hi uid shell)) [
        | inl e ↦
            let f' : Found (index + 1) rest (above ++ user_of uid name ∷ []) users = rw e at f in
            record {
              small = ground (arith, f'.small);
              found = user_of uid name ∷ f'.found;
              split = f'.split ∙ append_assoc above (user_of uid name ∷ []) f'.found;
              listed = (
                name,
                uid,
                shell,
                entry,
                inl (
                  is_offered-IsHuman lo hi uid shell e,
                  user_of uid name,
                  f'.found,
                  refl,
                  user_of-IsUser name uid,
                  f'.listed,
                ),
              );
            }
        | inr e ↦
            let f' : Found (index + 1) rest above users = rw e at f in
            record {
              small = ground (arith, f'.small);
              found = f'.found;
              split = f'.split;
              listed = (
                name,
                uid,
                shell,
                entry,
                inr (
                  λ (h : IsHuman lo hi uid shell). cc (e, IsHuman-is_offered lo hi uid shell h),
                  f'.listed,
                ),
              );
            }
      ]

  parse_lines-Found :
      (index : ℕ) (database : List Text) (above users : List RawUser)
      → index ≤ 4096
      → parse_lines lo hi index database above ≡ ok users
      → Found index database above users
  parse_lines-Found index [] above users small h = record {
    small = ground (arith, small);
    found = [];
    split = sym (ok-injective h) ∙ sym (append-nil above);
    listed = refl;
  }
  parse_lines-Found index (line ∷ rest) above users small h =
      if-elim
        (λ (x : Result (List RawUser) UserDiscoveryError).
          x ≡ ok users → Found index (line ∷ rest) above users)
        (leb 4096 index) _ _ (λ t h. cc)
        (λ f h.
          let ((name, uid, shell), e, h) = >=>-eq-ok (parse_line line) _ h in
          found-Found index line rest above users name uid shell
            (parse_line-IsEntry line name uid shell e)
            (parse_lines-Found (index + 1) rest _ users (ground (arith, f)) h))
        h

  room : (index n : ℕ) → index + suc n ≤ 4096 → leb 4096 index ≡ false
  room index n h = ground arith

  Lists-parse_lines :
      (index : ℕ) (database : List Text) (above found : List RawUser)
      → index + length database ≤ 4096
      → Lists lo hi database found
      → parse_lines lo hi index database above ≡ ok (above ++ found)
  Lists-parse_lines index [] above found small l = rw (l, append-nil above) refl
  Lists-parse_lines index (line ∷ rest) above found small
        (name, uid, shell, entry, inl (human, u, later, e, user, l)) =
      rw
        (
          IsEntry-parse_line line name uid shell entry,
          room index (length rest) small,
          IsHuman-is_offered lo hi uid shell human,
          e,
        )
        (Lists-parse_lines (index + 1) rest (above ++ user_of uid name ∷ []) later
            (ground (arith, small)) l
          ∙ ap ok (
              append_assoc above (user_of uid name ∷ []) later
              ∙ ap (λ v. above ++ v ∷ later) (IsUser-eq name uid u user)))
  Lists-parse_lines index (line ∷ rest) above found small
        (name, uid, shell, entry, inr (other, l)) =
      rw
        (
          IsEntry-parse_line line name uid shell entry,
          room index (length rest) small,
          IsHuman-not lo hi uid shell other,
        )
        (Lists-parse_lines (index + 1) rest above found (ground (arith, small)) l)

  -- Reading the password database gives some users just if it has at most 4096 lines, each line has seven
  -- fields between colons, of which the third is a number, and the users are, in the order of the lines,
  -- one for each line with a number within the range and a shell whose file name is neither nologin nor
  -- false: with that number, the first field as user name and as display name, no icon and no frequency.
  pub parse_passwd-Lists :
      (output : Text) (users : List RawUser)
      → (parse_passwd output lo hi ≡ ok users)
        ↔ ((length (lines output) ≤ 4096) × Lists lo hi (lines output) users)
  unfolding parse_passwd
  parse_passwd-Lists output users = (
    λ h.
        let f = parse_lines-Found 0 (lines output) [] users (omega arith) h in
        (omega (arith, f.small), subst (Lists lo hi (lines output)) (sym f.split) f.listed),
    λ (small, l). Lists-parse_lines 0 (lines output) [] users (omega (arith, small)) l,
  )
