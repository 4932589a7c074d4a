-- ===== src/PkToken/Serial/Tests.antt =====
-- Runs and instances of the JSON form.
use openpubkey.Base.{msg, ok, err, panic, ◌≡◌, refl, List, [], ◌∷◌, map, Option, none, some}
use openpubkey.Base.Bytes.{str, eqb, split, join}
use openpubkey.Util.Base64.{base64_encode}
use openpubkey.Oidc.Compact.{split_compact}
use openpubkey.Oidc.Claims.{Any, text}
use openpubkey.Oidc.Jws.{Signature, Jws}
use openpubkey.Oidc.Jws
use openpubkey.PkToken.Jwx.{JwsSignature}
use openpubkey.PkToken.Token.{PkToken, empty_pk_token}
use openpubkey.PkToken.Serial.{JwsJson, marshal_json, unmarshal_json, deep_copy, hash}

abbrev with_type : Option Any → JwsSignature
with_type typ = record {
  protected = record { get = λ k. typ; as_map = ok []; algorithm = []; key_id = [] };
  public = none;
}

abbrev raw_jws : Jws
raw_jws = record {
  payload = str "cGF5";
  signatures =
      record { protected = str "hop"; public = none; signature = str "sop" }
      ∷ record { protected = str "hcic"; public = none; signature = str "scic" }
      ∷ [];
}

-- the headers of the signatures of a text
abbrev json_of : List JwsSignature → JwsJson
json_of signatures = record {
  marshal =
      λ raw. ok (join b',' (raw.payload ∷ map (λ (s : Signature). s.protected) raw.signatures));
  jws_of = λ b. ok raw_jws;
  message_of = λ b. ok (record { payload = some (str "pay"); signatures = signatures });
}

abbrev two_types : JwsJson
two_types = json_of (with_type none ∷ with_type (some (text (str "CIC"))) ∷ [])

abbrev read : PkToken
read = record empty_pk_token {
  payload = some (str "pay");
  op = some (with_type none);
  op_token = some (str "hop.cGF5.sop");
  cic = some (with_type (some (text (str "CIC"))));
  cic_token = some (str "hcic.cGF5.scic");
}

-- Two signatures of the client are refused.
twice_run :
    unmarshal_json
      (json_of (with_type (some (text (str "CIC"))) ∷ with_type (some (text (str "CIC"))) ∷ []))
      []
      empty_pk_token
    ≡ err (msg "at least one signature of type \"oidc\" or \"oidc_gq\" is required")
unfolding unmarshal_json eqb join
twice_run = refl

-- More headers than signatures stop the program.
short_run :
    unmarshal_json
      (json_of (with_type none ∷ with_type none ∷ with_type none ∷ []))
      []
      empty_pk_token
    ≡ panic
unfolding unmarshal_json eqb join
short_run = refl

hash_run : hash two_types (λ b. b) read ≡ ok (str "cGF5,hop,hcic")
unfolding hash marshal_json Jws.add_signature split_compact base64_encode split join eqb
hash_run = refl

copy_run :
    deep_copy two_types (record read { fresh_id_token = some (str "new") })
    ≡ ok (record read { fresh_id_token = some (str "new") })
unfolding deep_copy marshal_json unmarshal_json Jws.add_signature split_compact base64_encode split
    join eqb
copy_run = refl
