-- ===== src/Web/Decode/Answered.antt =====
-- What crates/fomalhaut-web/src/protocol/request.rs decides bears the number of the request.
use fomalhaut.Common.{
  ℕ, ◌≤◌, not, Option, none, some, Result, ok, err, map_err, ok_or, ◌>=>◌, length, ◌==◌, le→ltb,
  ◌≡◌, refl, subst, ap, ◌∙◌, if-elim, arith,
}
use fomalhaut.Core.Types.{Text}
use fomalhaut.Session.Texts.{text_eq, chars}
use fomalhaut.Web.Protocol.{ProtocolValueError, new_prompt_id}
use fomalhaut.Web.Messages.{FrontendRequest, new_request_id, RequestEnvelope}
use fomalhaut.Web.Decode.{
  RuntimeMode, Json, RawEnvelope, RawRoleAuthBeginParams, raw_greeter, raw_locker,
  ProtocolDecodeError, max_message_bytes, new_secret, new_greeter_params, new_session_select, valid,
  role_params, parse_params, decode_method, decode_raw, decode_value, decode_request, is_allowed,
  for_mode, decode_request_for_mode, protocol_version, request_id_hint, invalid_request, failure,
  hint,
}

-- The outcome bears the number.
abbrev pub Bears : ℕ → Result RequestEnvelope ProtocolDecodeError → Type 0
Bears n (ok r) = r.id ≡ n
Bears n (err e) = e.request_id ≡ some n

abbrev Fails : {A : Type 0} → ℕ → Result A ProtocolDecodeError → Type 0
Fails n (ok a) = Unit
Fails n (err e) = e.request_id ≡ some n

then_Fails :
    {A C : Type 0} (n : ℕ) (r : Result A ProtocolDecodeError) (f : A → Result C ProtocolDecodeError)
    → Fails n r
    → ((a : A) → Fails n (f a))
    → Fails n (r >=> f)
then_Fails n (ok a) f h k = k a
then_Fails n (err e) f h k = h

valid-Fails : {A : Type 0} (n : ℕ) (r : Result A ProtocolValueError) → Fails n (valid n r)
valid-Fails n (ok a) = tt
valid-Fails n (err e) = refl

role_params-Fails : (n : ℕ) (raw : RawRoleAuthBeginParams) → Fails n (role_params n raw)
role_params-Fails n (raw_greeter name) = valid-Fails n (new_greeter_params name)
role_params-Fails n raw_locker = tt

module _ {V : Type 0} (j : Json V) where
  parse_params-Fails : {A : Type 0} (o : Option A) (n : ℕ) → Fails n (parse_params j o n)
  parse_params-Fails (some a) n = tt
  parse_params-Fails none n = refl

  decode_method-Fails :
      (method : Text) (params : V) (n : ℕ) → Fails n (decode_method j method params n)
  unfolding decode_method
  decode_method-Fails method params n =
      if-elim (Fails n) (text_eq method (chars "state.get")) _ _
        (λ t.
          then_Fails n (parse_params j (j.empty_params params) n) _ (parse_params-Fails _ n)
            (λ a. tt))
        (λ f.
          if-elim (Fails n) (text_eq method (chars "auth.begin")) _ _
            (λ t.
              then_Fails n (parse_params j (j.auth_begin_params params) n) _
                (parse_params-Fails _ n)
                (λ raw. then_Fails n (role_params n raw) _ (role_params-Fails n raw) (λ p. tt)))
            (λ f.
              if-elim (Fails n) (text_eq method (chars "auth.respond")) _ _
                (λ t.
                  then_Fails n (parse_params j (j.auth_respond_params params) n) _
                    (parse_params-Fails _ n)
                    (λ raw.
                      then_Fails n (valid n (new_prompt_id raw.0)) _
                        (valid-Fails n (new_prompt_id raw.0))
                        (λ p.
                          then_Fails n (valid n (new_secret raw.1)) _
                            (valid-Fails n (new_secret raw.1)) (λ s. tt))))
                (λ f.
                  if-elim (Fails n) (text_eq method (chars "auth.cancel")) _ _
                    (λ t.
                      then_Fails n (parse_params j (j.empty_params params) n) _
                        (parse_params-Fails _ n) (λ a. tt))
                    (λ f.
                      if-elim (Fails n) (text_eq method (chars "session.select")) _ _
                        (λ t.
                          then_Fails n (parse_params j (j.session_select_params params) n) _
                            (parse_params-Fails _ n)
                            (λ raw.
                              then_Fails n (valid n (new_session_select raw)) _
                                (valid-Fails n (new_session_select raw)) (λ s. tt)))
                        (λ f.
                          if-elim (Fails n) (text_eq method (chars "power.request")) _ _
                            (λ t.
                              then_Fails n (parse_params j (j.power_request_params params) n) _
                                (parse_params-Fails _ n) (λ a. tt))
                            (λ f. refl))))))

  requested-Bears :
      (n : ℕ) (r : Result FrontendRequest ProtocolDecodeError)
      → Fails n r
      → Bears n (r >=> λ request. ok (record { id = n; request = request }))
  requested-Bears n (ok q) h = refl
  requested-Bears n (err e) h = h

  decode_raw-Bears : (raw : RawEnvelope V) (n : ℕ) → Bears n (decode_raw j raw n)
  decode_raw-Bears raw n =
      if-elim (Bears n) (not (raw.protocol == protocol_version)) _ _ (λ t. refl)
        (λ f.
          requested-Bears n (decode_method j raw.method raw.params n)
            (decode_method-Fails raw.method raw.params n))

  new_request_id-small : (n : ℕ) → n ≤ 9007199254740991 → new_request_id n ≡ ok n
  unfolding new_request_id
  new_request_id-small n h = ground arith

  request_id_hint-some :
      (v : V) (n : ℕ) → j.object_id v ≡ some n → n ≤ 9007199254740991 → request_id_hint j v ≡ some n
  unfolding request_id_hint
  request_id_hint-some v n e h =
      ap (hint j) e
      ∙ ap (λ (r : Result ℕ ProtocolValueError). elim r [ ok id ↦ some id | err e ↦ none ])
          (new_request_id-small n h)

  -- The envelope that was read, or none.
  enveloped-Bears :
      (v : V) (n : ℕ) (o : Option (RawEnvelope V))
      → ((e : RawEnvelope V) → o ≡ some e → e.id ≡ n)
      → j.object_id v ≡ some n
      → n ≤ 9007199254740991
      → Bears n (
          ok_or o (failure (request_id_hint j v) invalid_request) >=> λ raw.
          map_err (λ _. failure (request_id_hint j v) invalid_request) (new_request_id raw.id)
          >=> λ id. decode_raw j raw id)
  enveloped-Bears v n none law e h = request_id_hint-some v n e h
  enveloped-Bears v n (some raw) law e h =
      rw (law raw refl, new_request_id-small n h) (decode_raw-Bears raw n)

  decode_value-Bears :
      (v : V) (n : ℕ)
      → ((e : RawEnvelope V) → j.envelope v ≡ some e → e.id ≡ n)
      → j.object_id v ≡ some n
      → n ≤ 9007199254740991
      → Bears n (decode_value j v)
  unfolding decode_value
  decode_value-Bears v n law e h = enveloped-Bears v n (j.envelope v) law e h

  decode_request-Bears :
      (input : Text) (v : V) (n : ℕ)
      → ((e : RawEnvelope V) → j.envelope v ≡ some e → e.id ≡ n)
      → length input ≤ 131072
      → j.from_slice input ≡ some v
      → j.object_id v ≡ some n
      → n ≤ 9007199254740991
      → Bears n (decode_request j input)
  unfolding decode_request
  decode_request-Bears input v n law small i e h =
      rw (le→ltb max_message_bytes (length input) small, i) (decode_value-Bears v n law e h)

for_mode-Bears : (mode : RuntimeMode) (r : RequestEnvelope) → Bears r.id (for_mode mode r)
for_mode-Bears mode r = if-elim (Bears r.id) (is_allowed mode r.request) _ _ (λ t. refl) (λ f. refl)

moded-Bears :
    (mode : RuntimeMode) (n : ℕ) (r : Result RequestEnvelope ProtocolDecodeError)
    → Bears n r
    → Bears n (r >=> λ r. for_mode mode r)
moded-Bears mode n (ok r) h = subst (λ (m : ℕ). Bears m (for_mode mode r)) h (for_mode-Bears mode r)
moded-Bears mode n (err e) h = h

-- If the codec reads from an object with a number under "id" no envelope but one of that number (as
-- serde_json does, which reads a field of an envelope from the entry of its name), and the input is at
-- most 131072 bytes, is JSON, and is an object with a number of at most 2 ^ 53 - 1 under "id", then what
-- decode_request_for_mode decides bears that number: a request that is accepted has it, and so has the
-- error by which one is refused, whatever is wrong with it.
pub decode_request_for_mode-Bears :
    {V : Type 0} (j : Json V)
    → ((v : V) (n : ℕ) (e : RawEnvelope V)
        → j.object_id v ≡ some n
        → j.envelope v ≡ some e
        → e.id ≡ n)
    → (input : Text) (mode : RuntimeMode) (v : V) (n : ℕ) → length input ≤ 131072
    → j.from_slice input ≡ some v
    → j.object_id v ≡ some n
    → n ≤ 9007199254740991
    → Bears n (decode_request_for_mode j input mode)
unfolding decode_request_for_mode
decode_request_for_mode-Bears j law input mode v n small i e h =
    moded-Bears mode n (decode_request j input)
      (decode_request-Bears j input v n (λ raw r. law v n raw e r) small i e h)
