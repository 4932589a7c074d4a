-- ===== src/PkToken/SignedMessage/Tests.antt =====
-- Runs and instances of signed messages.
use openpubkey.Base.{
  msg, Result, ok, err, panic, ◌≡◌, refl, [], ◌∷◌, none, some, if◌then◌else◌, ◌↔◌,
}
use openpubkey.Base.Bytes.{Bytes, str, eqb}
use openpubkey.Base.Assoc.{lookup}
use openpubkey.Oidc.Claims.{text, algorithm}
use openpubkey.PkToken.Jwx.{Headers, JwsSignature, Jwx}
use openpubkey.PkToken.ClientInstance.{Crypto, parse_claims}
use openpubkey.PkToken.Cic.{get_cic_values}
use openpubkey.PkToken.Token.{PkToken, empty_pk_token}
use openpubkey.PkToken.SignedMessage.{new_signed_message, verify_signed_message}
use openpubkey.PkToken.SignedMessage.Verified.{IsSignedMessage, verify_signed_message_iff}

-- headers that are those of a client and those of a signed message
abbrev headers : Headers
headers = record {
  get = λ k. some (text (if eqb k (str "typ") then str "osm" else str "AA"));
  as_map = ok (
      (str "rz", text (str "r"))
      ∷ (str "upk", text (str "key"))
      ∷ (str "alg", algorithm (str "ES256"))
      ∷ []);
  algorithm = str "ES256";
  key_id = str "AA";
}

abbrev signature : JwsSignature
signature = record { protected = headers; public = none }

-- a text is its own payload
abbrev jwx : Jwx (Unit {0})
jwx = record {
  parse = λ token. ok (record { payload = some token; signatures = signature ∷ [] });
  verify = λ token alg key. ok tt;
  key_algorithm = λ key. str "ES256";
  key_of = λ v. ok tt;
  parse_headers = λ json. panic;
}

abbrev crypto : Crypto (Unit {0}) (Unit {0})
crypto = record {
  rand = λ n. ok [];
  key_value = λ key. text [];
  marshal_map = λ m. ok [];
  sha3 = λ b. b;
  split_token = λ token. panic;
  set_headers = λ m. ok m;
  sign = λ payload alg signer m. ok payload;
}

abbrev pk_token : PkToken
pk_token = record empty_pk_token { payload = some (str "pay"); cic = some signature }

abbrev hash : PkToken → Result Bytes
hash p = ok (str "AA")

verified_run : verify_signed_message jwx crypto hash pk_token (str "hi") ≡ ok (str "hi")
unfolding verify_signed_message get_cic_values parse_claims lookup eqb
verified_run = refl

other_token_run :
    verify_signed_message jwx crypto (λ p. ok (str "BB")) pk_token (str "hi")
    ≡ err (msg "incorrect \"kid\" header, expected %s but received %s")
unfolding verify_signed_message get_cic_values parse_claims lookup eqb
other_token_run = refl

signed_run : new_signed_message jwx crypto hash pk_token (str "hi") tt ≡ ok (str "hi")
unfolding new_signed_message get_cic_values parse_claims lookup eqb
signed_run = refl

verify_signed_message_iff_example :
    (verify_signed_message jwx crypto hash pk_token (str "hi") ≡ ok (str "hi"))
    ↔ IsSignedMessage jwx crypto hash pk_token (str "hi") (str "hi")
verify_signed_message_iff_example =
    verify_signed_message_iff jwx crypto hash pk_token (str "hi") (str "hi")
