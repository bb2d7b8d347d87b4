-- ===== src/Examples/Requests.antt =====
-- Requests of a theme, over a codec of a few documents.
use fomalhaut.Common.{ℕ, [], Option, none, some, ok, err, ◌≡◌, refl, arith}
use fomalhaut.Core.Types.{Text}
use fomalhaut.Session.Texts.{chars}
use fomalhaut.Web.Messages.{RequestEnvelope, FrontendRequest, AuthBeginParams}
use fomalhaut.Web.Decode.{
  Json, RawEnvelope, RawRoleAuthBeginParams, greeter_mode, locker_mode, decode_request_for_mode,
  invalid_params,
}
use fomalhaut.Web.Decode.Accepted.{IsAccepted, decode_request_for_mode-IsAccepted}
use fomalhaut.Web.Decode.Answered.{Bears, decode_request_for_mode-Bears}

data Doc : Type 0 where
  nothing : Doc
  named : Text → Doc
  answer : ℕ → Text → Doc
  object array : ℕ → ℕ → Text → Doc → Doc

abbrev object_id : Doc → Option ℕ
object_id (object protocol id method params) = some id
object_id _ = none

abbrev envelope : Doc → Option (RawEnvelope Doc)
envelope (object protocol id method params) =
    some (record { protocol = protocol; id = id; method = method; params = params })
envelope (array protocol id method params) =
    some (record { protocol = protocol; id = id; method = method; params = params })
envelope _ = none

envelope-object_id :
    (v : Doc) (n : ℕ) (e : RawEnvelope Doc) → object_id v ≡ some n → envelope v ≡ some e → e.id ≡ n
envelope-object_id (object protocol id method params) n e h i = cc
envelope-object_id (array protocol id method params) n e h i = cc
envelope-object_id nothing n e h i = cc
envelope-object_id (named t) n e h i = cc
envelope-object_id (answer m t) n e h i = cc

abbrev array_of_al : Doc
array_of_al = array 1 7 (chars "auth.begin") (named (chars "al"))

abbrev login_of_al : Doc
login_of_al = object 1 7 (chars "auth.begin") (named (chars "al"))

-- An empty text reads as an array, any other as one object.
abbrev json : Json Doc
json = record {
  from_slice = λ input. elim input [ [] ↦ some array_of_al | _ ↦ some login_of_al ];
  object_id = object_id;
  envelope = envelope;
  empty_params = λ v. elim v [ nothing ↦ some tt | _ ↦ none ];
  auth_begin_params = λ v. elim v [
    | nothing ↦ some RawRoleAuthBeginParams.raw_locker
    | named t ↦ some (RawRoleAuthBeginParams.raw_greeter t)
    | _ ↦ none
  ];
  auth_respond_params = λ v. elim v [ answer n t ↦ some (n, t) | _ ↦ none ];
  session_select_params = λ v. elim v [ named t ↦ some t | _ ↦ none ];
  power_request_params = λ v. none;
}

abbrev begins : RequestEnvelope
begins = record {
  id = 7;
  request = FrontendRequest.auth_begin (AuthBeginParams.greeter (chars "al"));
}

accepts : decode_request_for_mode json (chars "{}") greeter_mode ≡ ok begins
unfolding decode_request_for_mode
accepts = refl

-- An array of the fields is read as an envelope too, with no number under "id".
accepts_array : decode_request_for_mode json [] greeter_mode ≡ ok begins
unfolding decode_request_for_mode
accepts_array = refl

decode_request_for_mode-IsAccepted_example : IsAccepted greeter_mode (chars "{}") begins
decode_request_for_mode-IsAccepted_example =
    decode_request_for_mode-IsAccepted json (chars "{}") greeter_mode begins accepts

decode_request_for_mode-Bears_example :
    Bears 7 (decode_request_for_mode json (chars "{}") locker_mode)
decode_request_for_mode-Bears_example =
    decode_request_for_mode-Bears json envelope-object_id (chars "{}") locker_mode login_of_al 7
      (omega arith) refl refl (omega arith)

refuses :
    decode_request_for_mode json (chars "{}") locker_mode
    ≡ err (record { request_id = some 7; body = invalid_params })
unfolding decode_request_for_mode
refuses = refl
