-- ===== src/Client/Request/Tests.antt =====
-- Runs and instances of the request of a cosigner's signature.
use openpubkey.Base.{msg, ok, err, panic, ◌≡◌, refl, [], ◌∷◌, Option, none, some, if◌then◌else◌}
use openpubkey.Base.Bytes.{Bytes, str, eqb}
use openpubkey.Base.Int.{pos}
use openpubkey.Client.Cos.{validate_cos}
use openpubkey.Client.Request.{
  CosignerProvider, World, called_back, has_suffix, create_init_auth_sig, request_token,
}
use openpubkey.Client.Request.Cosigned.{Ending, request_token-Ending}
use openpubkey.Oidc.Claims.{text, algorithm, Any}
use openpubkey.PkToken.Cic.{get_cic_values}
use openpubkey.PkToken.ClientInstance.{Crypto, encode_hex, parse_claims}
use openpubkey.PkToken.Jwx.{Headers, Jwx, JwsSignature}
use openpubkey.PkToken.SignedMessage.{new_signed_message}
use openpubkey.PkToken.Token.{PkToken, add_signature, empty_pk_token}
use openpubkey.Util.Base64.{base64_decode}
use openpubkey.Base.Assoc.{lookup}

-- The header of a token has its text for a type; the other values are fixed.
abbrev value_of : Bytes → Bytes → Option Any
value_of token k =
    if eqb k (str "typ")
    then some (text token)
    else if eqb k (str "nonce")
    then some (text [])
    else if eqb k (str "ruri")
    then some (text (str "http://localhost:80/cb"))
    else some (text k)

abbrev pub headers : Bytes → Headers
headers token = record {
  get = value_of token;
  as_map = ok (
      (str "rz", text (str "r"))
      ∷ (str "upk", text (str "key"))
      ∷ (str "alg", algorithm (str "ES256"))
      ∷ []);
  algorithm = str "ES256";
  key_id = [];
}

abbrev pub signature : Bytes → JwsSignature
signature token = record { protected = headers token; public = none }

abbrev pub jwx : Jwx (Unit {0})
jwx = record {
  parse = λ token. ok (record { payload = some (str "{}"); signatures = signature token ∷ [] });
  verify = λ token alg key. ok tt;
  key_algorithm = λ key. str "ES256";
  key_of = λ v. ok tt;
  parse_headers = λ json. panic;
}

abbrev pub crypto : Crypto (Unit {0}) (Unit {0})
crypto = record {
  rand = λ n. ok [];
  key_value = λ key. text [];
  marshal_map = λ m. ok [];
  sha3 = λ b. b;
  split_token = λ token. ok (str "h", [], []);
  set_headers = λ m. ok m;
  sign = λ payload alg signer m. ok (str "CIC");
}

-- a cosigner that answers every code with the text COS
abbrev pub world : World (Unit {0}) (Unit {0})
world = record {
  jwx = jwx;
  crypto = crypto;
  listen = ok (str "80");
  uri_of = λ issuer path params. ok path;
  http_get = λ uri. ok (ok (str "Q09T"));
  now = pos 1;
  marshal_init = λ m. ok (str "init");
  marshal_token = λ p. ok (str "json");
  hash = λ p. ok (str "hash");
  visit = λ uri. called_back (some (str "code"));
}

abbrev pub cosigner : CosignerProvider
cosigner = record { issuer = str "iss"; callback_path = str "/cb" }

abbrev pk_token : PkToken
pk_token = record empty_pk_token {
  payload = some (str "{}");
  op = some (signature (str "JWT"));
  cic = some (signature (str "CIC"));
  op_token = some (str "JWT");
  cic_token = some (str "CIC");
}

cosigned_run :
    (request_token world cosigner tt pk_token).0
    ≡ ok (record pk_token { cos = some (signature (str "COS")); cos_token = some (str "COS") })
unfolding request_token create_init_auth_sig has_suffix encode_hex new_signed_message get_cic_values
    parse_claims base64_decode validate_cos add_signature lookup eqb
cosigned_run = refl

request_token-Ending_example :
    Ending world cosigner tt pk_token (request_token world cosigner tt pk_token)
request_token-Ending_example = request_token-Ending world cosigner tt pk_token

-- A redirect URI that does not end in the path of the callback is refused.
other_path_run :
    create_init_auth_sig world cosigner (str "http://localhost:80/x")
    ≡ err (msg "redirectURI (%s) does not end in expected callbackPath (%s)")
unfolding create_init_auth_sig has_suffix eqb
other_path_run = refl
