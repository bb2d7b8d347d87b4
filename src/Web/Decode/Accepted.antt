-- ===== src/Web/Decode/Accepted.antt =====
-- Which requests crates/fomalhaut-web/src/protocol/request.rs accepts from a theme.
use fomalhaut.Common.{
  ℕ, ◌≤◌, true, false, not, Result, ok, err, map_err, ok_or, ◌>=>◌, >=>-eq-ok, map_err-eq-ok,
  ok-injective, ltb, length, ◌==◌, ◌≡◌, refl, subst, if-elim, arith,
}
use fomalhaut.Core.Types.{Text}
use fomalhaut.Session.Texts.{text_eq, chars}
use fomalhaut.Web.Protocol.{validate_text, new_prompt_id}
use fomalhaut.Web.Messages.{
  AuthBeginParams, greeter, locker, username, is_locker, FrontendRequest, state_get, auth_begin,
  auth_respond, auth_cancel, session_select, power_request, new_request_id, RequestEnvelope,
}
use fomalhaut.Web.Decode.{
  RuntimeMode, greeter_mode, locker_mode, Json, RawEnvelope, RawRoleAuthBeginParams, raw_greeter,
  raw_locker, ProtocolDecodeError, max_message_bytes, new_secret, new_greeter_params,
  new_session_select, valid, role_params, parse_params, decode_method, decode_raw, decode_value,
  decode_request, is_allowed, for_mode, decode_request_for_mode, protocol_version,
}

-- What any accepted request meets.
abbrev IsValid : FrontendRequest → Type 0
IsValid (auth_begin (greeter name)) = validate_text name 256 false true ≡ ok tt
IsValid (auth_respond prompt_id response) =
    (prompt_id ≤ 9007199254740991) × (validate_text response 16384 true false ≡ ok tt)
IsValid (session_select id) = validate_text id 256 false true ≡ ok tt
IsValid _ = Unit

-- What belongs to the mode of the host.
abbrev IsForMode : RuntimeMode → FrontendRequest → Type 0
IsForMode greeter_mode (auth_begin locker) = ⊥
IsForMode locker_mode (auth_begin (greeter name)) = ⊥
IsForMode locker_mode (session_select id) = ⊥
IsForMode _ _ = Unit

pub record IsAccepted (mode : RuntimeMode) (input : Text) (r : RequestEnvelope) : Type 0 where
  pub small : length input ≤ 131072
  pub safe_id : r.id ≤ 9007199254740991
  pub is_valid : IsValid r.request
  pub is_for_mode : IsForMode mode r.request

new_request_id-eq-ok : (n id : ℕ) → new_request_id n ≡ ok id → (id ≡ n) × (n ≤ 9007199254740991)
unfolding new_request_id
new_request_id-eq-ok n id h = ground arith

new_prompt_id-eq-ok : (n id : ℕ) → new_prompt_id n ≡ ok id → id ≤ 9007199254740991
unfolding new_prompt_id
new_prompt_id-eq-ok n id h = ground arith

role_params-IsValid :
    (id : ℕ) (raw : RawRoleAuthBeginParams) (p : AuthBeginParams)
    → role_params id raw ≡ ok p
    → IsValid (auth_begin p)
unfolding new_greeter_params
role_params-IsValid id (raw_greeter name) p h =
    let (_, v, e) =
      >=>-eq-ok (validate_text name 256 false true) _
        (map_err-eq-ok _ (new_greeter_params name) h) in
    subst (λ (p : AuthBeginParams). IsValid (auth_begin p)) (ok-injective e) v
role_params-IsValid id raw_locker p h =
    subst (λ (p : AuthBeginParams). IsValid (auth_begin p)) (ok-injective h) tt

new_secret-eq-ok : (t s : Text) → new_secret t ≡ ok s → validate_text s 16384 true false ≡ ok tt
unfolding new_secret
new_secret-eq-ok t s h =
    let (_, v, e) = >=>-eq-ok (validate_text t 16384 true false) _ h in
    subst (λ (s : Text). validate_text s 16384 true false ≡ ok tt) (ok-injective e) v

new_session_select-eq-ok :
    (t s : Text) → new_session_select t ≡ ok s → validate_text s 256 false true ≡ ok tt
unfolding new_session_select
new_session_select-eq-ok t s h =
    let (_, v, e) = >=>-eq-ok (validate_text t 256 false true) _ h in
    subst (λ (s : Text). validate_text s 256 false true ≡ ok tt) (ok-injective e) v

module _ {V : Type 0} (j : Json V) where
  -- A result that is valid if it is one.
  abbrev Sound : Result FrontendRequest ProtocolDecodeError → Type 0
  Sound r = (q : FrontendRequest) → r ≡ ok q → IsValid q

  then_Sound :
      {A : Type 0} (r : Result A ProtocolDecodeError)
      (f : A → Result FrontendRequest ProtocolDecodeError)
      → ((a : A) → r ≡ ok a → Sound (f a))
      → Sound (r >=> f)
  then_Sound (ok a) f h = h a refl
  then_Sound (err e) f h = λ q i. cc

  ok-Sound : (q : FrontendRequest) → IsValid q → Sound (ok q)
  ok-Sound q v p e = subst IsValid (ok-injective e) v

  decode_method-Sound :
      (method : Text) (params : V) (id : ℕ) → Sound (decode_method j method params id)
  unfolding decode_method
  decode_method-Sound method params id =
      if-elim Sound (text_eq method (chars "state.get")) _ _
        (λ t.
          then_Sound (parse_params j (j.empty_params params) id) _ (λ a e. ok-Sound state_get tt))
        (λ f.
          if-elim Sound (text_eq method (chars "auth.begin")) _ _
            (λ t. then_Sound (parse_params j (j.auth_begin_params params) id) _ (λ raw e.
              then_Sound (role_params id raw) _
                (λ p h. ok-Sound (auth_begin p) (role_params-IsValid id raw p h))))
            (λ f.
              if-elim Sound (text_eq method (chars "auth.respond")) _ _
                (λ t. then_Sound (parse_params j (j.auth_respond_params params) id) _ (λ raw e.
                  then_Sound (valid id (new_prompt_id raw.0)) _ (λ p h.
                    then_Sound (valid id (new_secret raw.1)) _ (λ s g. ok-Sound (auth_respond p s) (
                      new_prompt_id-eq-ok raw.0 p (map_err-eq-ok _ (new_prompt_id raw.0) h),
                      new_secret-eq-ok raw.1 s (map_err-eq-ok _ (new_secret raw.1) g),
                    )))))
                (λ f.
                  if-elim Sound (text_eq method (chars "auth.cancel")) _ _
                    (λ t.
                      then_Sound (parse_params j (j.empty_params params) id) _
                        (λ a e. ok-Sound auth_cancel tt))
                    (λ f.
                      if-elim Sound (text_eq method (chars "session.select")) _ _
                        (λ t.
                          then_Sound (parse_params j (j.session_select_params params) id) _
                            (λ raw e. then_Sound (valid id (new_session_select raw)) _ (λ s h.
                              ok-Sound (session_select s) (
                                new_session_select-eq-ok raw s
                                  (map_err-eq-ok _ (new_session_select raw) h)))))
                        (λ f.
                          if-elim Sound (text_eq method (chars "power.request")) _ _
                            (λ t.
                              then_Sound (parse_params j (j.power_request_params params) id) _
                                (λ a e. ok-Sound (power_request a) tt))
                            (λ f q e. cc))))))

  record IsDecoded (r : RequestEnvelope) : Type 0 where
    safe_id : r.id ≤ 9007199254740991
    is_valid : IsValid r.request

  decode_raw-IsDecoded :
      (raw : RawEnvelope V) (id : ℕ) (r : RequestEnvelope)
      → id ≤ 9007199254740991
      → decode_raw j raw id ≡ ok r
      → IsDecoded r
  decode_raw-IsDecoded raw id r small =
      if-elim (λ (x : Result RequestEnvelope ProtocolDecodeError). x ≡ ok r → IsDecoded r)
        (not (raw.protocol == protocol_version)) _ _ (λ t h. cc)
        (λ f h.
          let (q, e, h) = >=>-eq-ok (decode_method j raw.method raw.params id) _ h in
          subst IsDecoded (ok-injective h) (record {
            safe_id = small;
            is_valid = decode_method-Sound raw.method raw.params id q e;
          }))

  decode_value-IsDecoded : (v : V) (r : RequestEnvelope) → decode_value j v ≡ ok r → IsDecoded r
  unfolding decode_value
  decode_value-IsDecoded v r h =
      let (raw, _, h) = >=>-eq-ok (ok_or (j.envelope v) _) _ h in
      let (id, e, h) = >=>-eq-ok (map_err _ (new_request_id raw.id)) _ h in
      let (same, small) =
        new_request_id-eq-ok raw.id id (map_err-eq-ok _ (new_request_id raw.id) e) in
      decode_raw-IsDecoded raw id r (omega (arith, same, small)) h

  decode_request-IsDecoded :
      (input : Text) (r : RequestEnvelope)
      → decode_request j input ≡ ok r
      → (length input ≤ 131072) × IsDecoded r
  unfolding decode_request
  decode_request-IsDecoded input r =
      if-elim
        (λ (x : Result RequestEnvelope ProtocolDecodeError).
          x ≡ ok r → (length input ≤ 131072) × IsDecoded r)
        (ltb max_message_bytes (length input)) _ _ (λ t h. cc)
        (λ f h.
          let (v, _, h) = >=>-eq-ok (ok_or (j.from_slice input) _) _ h in
          (ground (arith, f), decode_value-IsDecoded v r h))

allowed-IsForMode :
    (mode : RuntimeMode) (q : FrontendRequest) → is_allowed mode q ≡ true → IsForMode mode q
unfolding is_allowed username is_locker
allowed-IsForMode greeter_mode (auth_begin (greeter name)) h = tt
allowed-IsForMode greeter_mode (auth_begin locker) h = cc
allowed-IsForMode greeter_mode (auth_respond p s) h = tt
allowed-IsForMode greeter_mode auth_cancel h = tt
allowed-IsForMode greeter_mode (session_select id) h = tt
allowed-IsForMode greeter_mode (power_request a) h = tt
allowed-IsForMode greeter_mode state_get h = tt
allowed-IsForMode locker_mode (auth_begin (greeter name)) h = cc
allowed-IsForMode locker_mode (auth_begin locker) h = tt
allowed-IsForMode locker_mode (auth_respond p s) h = tt
allowed-IsForMode locker_mode auth_cancel h = tt
allowed-IsForMode locker_mode (session_select id) h = cc
allowed-IsForMode locker_mode (power_request a) h = tt
allowed-IsForMode locker_mode state_get h = tt

for_mode-eq-ok :
    (mode : RuntimeMode) (q r : RequestEnvelope)
    → for_mode mode q ≡ ok r
    → (q ≡ r) × (is_allowed mode q.request ≡ true)
for_mode-eq-ok mode q r =
    if-elim
      (λ (x : Result RequestEnvelope ProtocolDecodeError).
        x ≡ ok r → (q ≡ r) × (is_allowed mode q.request ≡ true))
      (is_allowed mode q.request) _ _ (λ t h. (ok-injective h, t)) (λ f h. cc)

-- A request that decode_request_for_mode accepts came in at most 131072 bytes, has a number of at most
-- 2 ^ 53 - 1, and checked parameters: user names and session identifiers that pass validate_text with
-- 256 bytes and no control character, a prompt number of at most 2 ^ 53 - 1, an answer of at most
-- 16384 bytes. It belongs to the mode of the host: in the greeter, auth.begin names a user; in the
-- locker it names none, and no session is selected.
pub decode_request_for_mode-IsAccepted :
    {V : Type 0} (j : Json V) (input : Text) (mode : RuntimeMode) (r : RequestEnvelope)
    → decode_request_for_mode j input mode ≡ ok r
    → IsAccepted mode input r
unfolding decode_request_for_mode
decode_request_for_mode-IsAccepted j input mode r h =
    let (q, e, h) = >=>-eq-ok (decode_request j input) _ h in
    let (same, allowed) = for_mode-eq-ok mode q r h in
    let (small, d) = decode_request-IsDecoded j input q e in
    subst (IsAccepted mode input) same (record {
      small = small;
      safe_id = d.safe_id;
      is_valid = d.is_valid;
      is_for_mode = allowed-IsForMode mode q.request allowed;
    })
