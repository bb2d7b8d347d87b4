-- ===== src/Web/Greeter/Shown.antt =====
-- What a theme sees of `GreeterController` (crates/fomalhaut-web/src/controller.rs), which can be shown
-- at any time.
use mathlib.Core.Option
use mathlib.Core.Option.{some-injective}
use fomalhaut.Common.{
  ℕ, zero, suc, ◌≤◌, Bool, true, false, not, Option, none, some, List, [], ◌∷◌, map, length, any,
  All, position, get_elem?, is_empty, ok, map_err, if◌then◌else◌, le→ltb, ◌≡◌, refl, sym, ap, subst,
  if-elim, arith,
}
use fomalhaut.Session.Texts.{text_eq}
use fomalhaut.Session.Texts.Maps.{text_eq_refl}
use fomalhaut.Web.Protocol.{Event, validate_text, watermark}
use fomalhaut.Web.Messages.{
  state_get, ResponseEnvelope, ResponseResult, UserSummary, UiLocale, SessionSummary, max_users,
  max_sessions, max_session_id_bytes, StateSnapshot, GreeterSnapshot, greeter_snapshot,
  check_selected,
}
use fomalhaut.Web.Public.{controller_error, AuthPublicState}
use fomalhaut.Web.Public.Shown.{
  IsShown, resets, updates, applies, change-IsShown, close-IsShown, changes-IsShown,
  numbered-IsShown,
}
use fomalhaut.Web.Client.{LoginBackend, PowerControl}
use fomalhaut.Web.Greeter.{
  GreeterController, TrustedSession, with_locale_and_power_control, snapshot, selected_id,
}
use fomalhaut.Web.Greeter.Requests.{handle, snapshot_batch}
use fomalhaut.Web.Greeter.Rules.{IsStable}
use fomalhaut.Web.Greeter.Trusted.{Call, run, run-Kept}

-- The selection stands in the catalog; there is none when the catalog is empty.
abbrev IsSelection : Option ℕ → List TrustedSession → Type 0
IsSelection none sessions = is_empty sessions ≡ true
IsSelection (some n) sessions = (s : TrustedSession) × (get_elem? sessions n ≡ some s)

map-suc : (o : Option ℕ) (n : ℕ) → Option.map suc o ≡ some n → (m : ℕ) × (o ≡ some m) × (suc m ≡ n)
map-suc none n h = cc
map-suc (some m) n h = (m, refl, some-injective _ _ h)

position-get_elem :
    (p : TrustedSession → Bool) (xs : List TrustedSession) (n : ℕ)
    → position p xs ≡ some n
    → (x : TrustedSession) × (get_elem? xs n ≡ some x)
position-get_elem p [] n h = cc
position-get_elem p (x ∷ xs) n h =
    if-elim (λ (o : Option ℕ). o ≡ some n → (y : TrustedSession) × (get_elem? (x ∷ xs) n ≡ some y))
      (p x) (some 0) (Option.map suc (position p xs))
      (λ t h. (x, subst (λ (m : ℕ). get_elem? (x ∷ xs) m ≡ some x) (some-injective _ _ h) refl))
      (λ f h.
        let (m, e, i) = map-suc (position p xs) n h in
        let (y, g) = position-get_elem p xs m e in
        (y, subst (λ (m : ℕ). get_elem? (x ∷ xs) m ≡ some y) i g))
      h

-- What the host vouches for: the sizes of its catalogs, and that the session identifiers were checked.
pub record IsCatalog (sessions : List TrustedSession) (users : List UserSummary) : Type 0 where
  pub few_sessions : length sessions ≤ max_sessions
  pub few_users : length users ≤ max_users
  pub valid :
      All
        (λ (s : TrustedSession). validate_text s.summary.id max_session_id_bytes false true ≡ ok tt)
        sessions

length-map :
    (xs : List TrustedSession) → length (map (λ (s : TrustedSession). s.summary) xs) ≡ length xs
length-map [] = refl
length-map (x ∷ xs) = ap suc (length-map xs)

All-get_elem :
    (Q : TrustedSession → Type 0) (xs : List TrustedSession) (n : ℕ) (x : TrustedSession)
    → All Q xs
    → get_elem? xs n ≡ some x
    → Q x
All-get_elem Q [] n x h e = cc
All-get_elem Q (y ∷ xs) zero x h e = subst Q (some-injective _ _ e) h.0
All-get_elem Q (y ∷ xs) (suc n) x h e = All-get_elem Q xs n x h.1 e

any-get_elem :
    (xs : List TrustedSession) (n : ℕ) (x : TrustedSession)
    → get_elem? xs n ≡ some x
    → any
        (λ (s : SessionSummary). text_eq s.id x.summary.id)
        (map (λ (s : TrustedSession). s.summary) xs)
      ≡ true
any-get_elem [] n x e = cc
any-get_elem (y ∷ xs) zero x e =
    let q =
      subst (λ (z : TrustedSession). text_eq y.summary.id z.summary.id ≡ true)
        (some-injective _ _ e) (text_eq_refl y.summary.id) in
    ground (arith, q)
any-get_elem (y ∷ xs) (suc n) x e = ground (arith, any-get_elem xs n x e)

check_selected-ok :
    (sessions : List TrustedSession) (users : List UserSummary) (o : Option ℕ)
    → IsCatalog sessions users
    → IsSelection o sessions
    → check_selected (selected_id o sessions) (map (λ (s : TrustedSession). s.summary) sessions)
      ≡ ok tt
check_selected-ok sessions users none h i = refl
check_selected-ok sessions users (some n) h (s, e) =
    let v : validate_text s.summary.id max_session_id_bytes false true ≡ ok tt =
      All-get_elem _ sessions n s h.valid e in
    let a = any-get_elem sessions n s e in rw (e, v, a)

greeter_snapshot-ok :
    (fields : GreeterSnapshot)
    → length fields.messages ≤ 16
    → length fields.users ≤ max_users
    → length fields.sessions ≤ max_sessions
    → check_selected fields.selected_session_id fields.sessions ≡ ok tt
    → greeter_snapshot fields ≡ ok (StateSnapshot.greeter fields)
unfolding greeter_snapshot
greeter_snapshot-ok fields m u s e = rw (
  le→ltb 16 (length fields.messages) m,
  le→ltb max_users (length fields.users) u,
  le→ltb max_sessions (length fields.sessions) s,
  e,
)

first :
    (sessions : List TrustedSession)
    → IsSelection (if not (is_empty sessions) then some 0 else none) sessions
first [] = refl
first (s ∷ ss) = (s, refl)

module _ (sessions : List TrustedSession) (users : List UserSummary) where
  record Ready (ss : List TrustedSession) (us : List UserSummary) (a : AuthPublicState)
      (o : Option ℕ) : Type 0 where
    same_sessions : ss ≡ sessions
    same_users : us ≡ users
    shown : IsShown a
    selection : IsSelection o sessions

  -- Another public state.
  showing :
      {ss : List TrustedSession} {us : List UserSummary} {a : AuthPublicState} {o : Option ℕ}
      (b : AuthPublicState)
      → IsShown b
      → Ready ss us a o
      → Ready ss us b o
  showing b s h = record {
    same_sessions = h.same_sessions;
    same_users = h.same_users;
    shown = s;
    selection = h.selection;
  }

  module _ {B P : Type 0} (k : LoginBackend B) (w : PowerControl P) where
    abbrev IsReady : GreeterController B P → Type 0
    IsReady c = Ready c.sessions c.users c.auth c.selected_session

    IsReady-IsStable : IsStable k w IsReady
    IsReady-IsStable = record {
      conversation = λ c. record {
        consumes = λ a b h. h;
        applies = λ a b e h. showing _ (change-IsShown a (applies e) h.shown) h;
        closes = λ a b h. showing _ (close-IsShown a Event.auth_failed h.shown) h;
        updates =
            λ a b h. showing _ (change-IsShown a (updates (k.conversation.state b)) h.shown) h;
        cancels = λ a b h. h;
      };
      resets = λ c h. showing _ (change-IsShown c.auth resets h.shown) h;
      logs = λ c l h. h;
      responds = λ c p response h i. h;
      begins = λ c name h. h;
      selects = λ c id n h i. record {
        same_sessions = h.same_sessions;
        same_users = h.same_users;
        shown = h.shown;
        selection =
            subst (λ (ss : List TrustedSession). IsSelection (some n) ss) h.same_sessions
              (position-get_elem (λ s. text_eq s.summary.id id) c.sessions n i);
      };
      starts = λ c n s h a i j. h;
      powers = λ c action h i. h;
    }

    -- The snapshot of a controller.
    abbrev pub fields : GreeterController B P → GreeterSnapshot
    unfolding watermark
    fields c = record {
      locale = c.locale;
      authentication = c.auth.authentication;
      login = c.login;
      prompt = c.auth.prompt;
      messages = c.auth.messages;
      sequence = watermark c.auth.sequences;
      users = c.users;
      sessions = map (λ (s : TrustedSession). s.summary) c.sessions;
      selected_session_id = selected_id c.selected_session c.sessions;
      capabilities = w.capabilities c.power;
    }

    IsReady-snapshot :
        (c : GreeterController B P)
        → IsCatalog sessions users
        → IsReady c
        → snapshot k w c ≡ ok (StateSnapshot.greeter (fields c))
    unfolding snapshot
    IsReady-snapshot c i h =
        ap (map_err (λ _. controller_error "the controller public state is invalid")) (
          greeter_snapshot-ok (fields c) h.shown.few_messages
            (subst (λ (us : List UserSummary). length us ≤ max_users) (sym h.same_users)
              i.few_users)
            (subst
              (λ (ss : List TrustedSession).
                length (map (λ (s : TrustedSession). s.summary) ss) ≤ max_sessions)
              (sym h.same_sessions) (omega (arith, length-map sessions, i.few_sessions)))
            (subst
              (λ (ss : List TrustedSession).
                check_selected (selected_id c.selected_session ss)
                  (map (λ (s : TrustedSession). s.summary) ss)
                ≡ ok tt)
              (sym h.same_sessions)
              (check_selected-ok sessions users c.selected_session i h.selection)))

    initial-IsReady :
        (client : B) (power : P) (locale : UiLocale)
        → IsReady (with_locale_and_power_control k client sessions users power locale)
    unfolding with_locale_and_power_control
    initial-IsReady client power locale = record {
      same_sessions = refl;
      same_users = refl;
      shown = changes-IsShown (k.conversation.state client) [];
      selection = first sessions;
    }

  -- A state.get is answered at any time: if the catalogs of the trusted host are within the limits,
  -- and its session identifiers valid, then whatever has been requested and whatever the backend did,
  -- a greeter controller succeeds with the snapshot of all its fields, and changes nothing.
  pub handle-snapshot :
      {B P : Type 0} (k : LoginBackend B) (w : PowerControl P) (client : B) (power : P)
      (locale : UiLocale) (calls : List Call) (id : ℕ)
      → IsCatalog sessions users
      → let c =
          run k w (with_locale_and_power_control k client sessions users power locale) calls in
        handle k w c (record { id = id; request = state_get }) ≡ (
          c,
          ok (record {
            response =
                ResponseEnvelope.success id
                  (ResponseResult.state (StateSnapshot.greeter (fields k w c)));
            events = [];
            session_started = k.session_started c.client;
            unlock_authorized = false;
            trusted_fallback = false;
          }),
        )
  unfolding handle
  handle-snapshot k w client power locale calls id i =
      let c₀ = with_locale_and_power_control k client sessions users power locale in
      let c = run k w c₀ calls in
      let h =
        run-Kept k w (IsReady k w) (IsReady-IsStable k w)
          (λ c s h. showing _ (numbered-IsShown c.auth s h.shown) h) c₀ calls
          (initial-IsReady k w client power locale) in
      ap (snapshot_batch k w id c) (IsReady-snapshot k w c i h)
