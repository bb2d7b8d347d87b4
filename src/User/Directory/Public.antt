-- ===== src/User/Directory/Public.antt =====
-- What crates/fomalhaut-user/src/lib.rs shows of the users that it found.
use mathlib.Core.List.{append_assoc, append-nil}
use fomalhaut.Common.{
  ℕ, ◌+◌, ◌≤◌, true, false, ◌||◌, Option, List, [], ◌∷◌, ◌++◌, Result, ok, err, >=>-eq-ok,
  ok-injective, leb, length, length-append, All, All-concat, All-imp, ◌≡◌, ◌≢◌, refl, subst,
  if-elim, arith,
}
use fomalhaut.Core.Types.{Text}
use fomalhaut.Session.Texts.{has}
use fomalhaut.Session.Texts.Maps.{text_eq_refl}
use fomalhaut.Web.Protocol.{validate_text, validate_avatar_url, ProtocolValueError}
use fomalhaut.Web.Messages.{UserSummary, new_user_summary, max_users}
use fomalhaut.User.Directory.{
  RawUser, DiscoveredUsers, of_option, avatar_of, added, add_user, add_users, sort_users,
  build_public_users,
}

pub record IsValid (s : UserSummary) : Type 0 where
  pub name : validate_text s.username 256 false true ≡ ok tt
  pub display : validate_text s.display_name 256 false true ≡ ok tt
  pub avatar : validate_avatar_url s.avatar_url ≡ ok tt

abbrev urls : List UserSummary → List Text
urls [] = []
urls (s ∷ ss) = of_option s.avatar_url ++ urls ss

abbrev Distinct : List UserSummary → Type 0
Distinct [] = Unit
Distinct (s ∷ ss) = All (λ (t : UserSummary). s.username ≢ t.username) ss × Distinct ss

abbrev IsSeen : List Text → UserSummary → Type 0
IsSeen seen s = has s.username seen ≡ true

pub record IsPublic (d : DiscoveredUsers) : Type 0 where
  pub few : length d.summaries ≤ 128
  pub valid : All IsValid d.summaries
  pub distinct : Distinct d.summaries
  pub listed : All (IsSeen d.seen) d.summaries
  pub avatars : d.avatars ≡ urls d.summaries

Distinct-concat :
    (ss : List UserSummary) (s : UserSummary)
    → Distinct ss
    → All (λ (t : UserSummary). t.username ≢ s.username) ss
    → Distinct (ss ++ s ∷ [])
Distinct-concat [] s d h = (tt, tt)
Distinct-concat (t ∷ ss) s d h = (All-concat _ ss s d.0 h.0, Distinct-concat ss s d.1 h.1)

urls-concat :
    (ss : List UserSummary) (s : UserSummary)
    → urls (ss ++ s ∷ []) ≡ urls ss ++ of_option s.avatar_url
urls-concat [] s = append-nil (of_option s.avatar_url)
urls-concat (t ∷ ss) s =
    rw (urls-concat ss s, append_assoc (of_option t.avatar_url) (urls ss) (of_option s.avatar_url))

has_more : (t : Text) (seen : List Text) (s : UserSummary) → IsSeen seen s → IsSeen (t ∷ seen) s
has_more t seen s h = ground (arith, h)

has-ne :
    (t : Text) (seen : List Text)
    → has t seen ≡ false
    → (s : UserSummary) → IsSeen seen s
    → s.username ≢ t
has-ne t seen h s k e = cc

module _ (read_avatar : Text → ℕ → ℕ → Option Text) where
  new_user_summary-eq-ok :
      (t n : Text) (a : Option Text) (s : UserSummary)
      → new_user_summary t n a ≡ ok s
      → IsValid s × (s.username ≡ t) × (s.avatar_url ≡ a)
  unfolding new_user_summary
  new_user_summary-eq-ok t n a s h =
      let (_, v, h) = >=>-eq-ok (validate_text t 256 false true) _ h in
      let (_, w, h) = >=>-eq-ok (validate_text n 256 false true) _ h in
      let (_, x, h) = >=>-eq-ok (validate_avatar_url a) _ h in
      subst (λ (s : UserSummary). IsValid s × (s.username ≡ t) × (s.avatar_url ≡ a))
        (ok-injective h) (record { name = v; display = w; avatar = x }, refl, refl)

  added-IsPublic :
      (t n : Text) (a : Option Text) (d : DiscoveredUsers)
      → leb 128 (length d.summaries) ≡ false
      → has t d.seen ≡ false
      → IsPublic d
      → (r : Result UserSummary ProtocolValueError) → new_user_summary t n a ≡ r
      → IsPublic (added (record d { seen = t ∷ d.seen }) a r)
  added-IsPublic t n a d room new h (err e) eq = record {
    few = h.few;
    valid = h.valid;
    distinct = h.distinct;
    avatars = h.avatars;
    listed = All-imp _ _ (has_more t d.seen) d.summaries h.listed;
  }
  added-IsPublic t n a d room new h (ok s) eq =
      let (v, e, u) = new_user_summary-eq-ok t n a s eq in
      record {
        few = ground (arith, length-append d.summaries (s ∷ []));
        valid = All-concat _ d.summaries s h.valid v;
        distinct = Distinct-concat d.summaries s h.distinct (
            All-imp _ _
              (λ r k q. has-ne t d.seen new r k (subst (λ (x : Text). r.username ≡ x) e q))
              d.summaries h.listed);
        listed =
            All-concat _ d.summaries s (All-imp _ _ (has_more t d.seen) d.summaries h.listed)
              (rw (e, text_eq_refl t));
        avatars = rw (h.avatars, urls-concat d.summaries s, u);
      }

  add_user-IsPublic :
      (d : DiscoveredUsers) (u : RawUser) → IsPublic d → IsPublic (add_user read_avatar d u)
  unfolding add_user
  add_user-IsPublic d u h =
      if-elim IsPublic (leb max_users (length d.summaries) || has u.username d.seen) _ _ (λ e. h)
        λ e.
          added-IsPublic u.username u.display_name (avatar_of read_avatar u (length d.avatars + 1))
            d (ground (arith, e)) (ground (arith, e)) h _ refl

  add_users-IsPublic :
      (us : List RawUser) (d : DiscoveredUsers) → IsPublic d → IsPublic (add_users read_avatar d us)
  add_users-IsPublic [] d h = h
  add_users-IsPublic (u ∷ us) d h =
      add_users-IsPublic us (add_user read_avatar d u) (add_user-IsPublic d u h)

  -- Whatever the sources found, at most 128 users are shown, with valid names and avatars, no two of
  -- one name, and the avatars that are served are those of the shown users, in their order.
  pub build_public_users-IsPublic :
      (raw : List RawUser) → IsPublic (build_public_users read_avatar raw)
  unfolding build_public_users
  build_public_users-IsPublic raw =
      add_users-IsPublic (sort_users raw) _
        (record { few = omega arith; valid = tt; distinct = tt; listed = tt; avatars = refl })
