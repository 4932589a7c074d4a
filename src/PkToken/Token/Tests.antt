-- ===== src/PkToken/Token/Tests.antt =====
-- Runs and instances of the addition of signatures.
use openpubkey.Base.{msg, ok, err, ◌≡◌, refl, [], ◌∷◌, none, some}
use openpubkey.Base.Bytes.{Bytes, str, eqb}
use openpubkey.Oidc.Claims.{text}
use openpubkey.PkToken.SignatureType
use openpubkey.PkToken.Jwx.{Headers, JwsSignature, Message, Jwx}
use openpubkey.PkToken.Token.{PkToken, empty_pk_token, add_signature}

-- a signature whose `typ` is the token's text
abbrev headers_of : Bytes → Headers
headers_of token = record {
  get = λ k. some (text token);
  as_map = ok ((str "typ", text token) ∷ []);
  algorithm = str "ES256";
  key_id = [];
}

abbrev signature_of : Bytes → JwsSignature
signature_of token = record { protected = headers_of token; public = none }

abbrev message_of : Bytes → Message
message_of token = record { payload = some (str "payload"); signatures = signature_of token ∷ [] }

-- a parser for which each token has one payload
abbrev by_text : Jwx (Unit {0})
by_text = record {
  parse = λ token. ok (message_of token);
  verify = λ token alg key. ok tt;
  key_algorithm = λ key. str "ES256";
  key_of = λ v. ok tt;
  parse_headers = λ json. ok (headers_of json);
}

abbrev with_cic : PkToken
with_cic = record empty_pk_token {
  payload = some (str "payload");
  op = some (signature_of (str "op"));
  op_token = some (str "op");
  cic = some (signature_of SignatureType.cic);
  cic_token = some SignatureType.cic;
}

-- A client's token with another `typ` is refused, and the PK Token keeps the payload.
add_wrong_typ : add_signature by_text (str "cic") SignatureType.cic empty_pk_token ≡ (
  err (msg "incorrect 'typ' claim in protected, expected (%s), got (%s)"),
  record empty_pk_token { payload = some (str "payload") },
)
unfolding add_signature eqb
add_wrong_typ = refl
