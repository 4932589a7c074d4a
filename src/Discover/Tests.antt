-- ===== src/Discover/Tests.antt =====
-- Runs and instances of the search for keys.
use openpubkey.Base.{msg, ok, err, ◌≡◌, refl, [], ◌∷◌, none, some, if◌then◌else◌}
use openpubkey.Base.Bytes.{str, eqb}
use openpubkey.Util.Base64.{base64_encode}
use openpubkey.Discover.{
  rsa, Jwk, JwkSet, PublicKeyRecord, PublicKeyFinder, new_public_key_record, fetch_and_parse_jwks,
  by_key_id, by_jkt,
}

abbrev key : Jwk
key = record { algorithm = []; key_id = str "k"; raw = ok (rsa 15 3); thumbprint = ok (0 ∷ []) }

abbrev jwks : JwkSet
jwks = record { lookup_key_id = λ k. if eqb k (str "k") then some key else none; keys = key ∷ [] }

abbrev finder : PublicKeyFinder
finder = record { jwks_func = λ issuer. ok []; unmarshal = λ json. ok jwks }

abbrev found_record : PublicKeyRecord
found_record = record { public_key = rsa 15 3; alg = str "RS256"; issuer = str "iss" }

found_run : by_key_id finder (str "iss") (str "k") ≡ ok found_record
unfolding by_key_id fetch_and_parse_jwks new_public_key_record eqb
found_run = refl

-- A blank identifier is looked up like any other, and finds nothing in this set of one key.
blank_run : by_key_id finder (str "iss") [] ≡ err (msg "no matching public key found for kid %s")
unfolding by_key_id fetch_and_parse_jwks eqb
blank_run = refl

jkt_run : by_jkt finder (str "iss") (str "AA") ≡ ok found_record
unfolding by_jkt fetch_and_parse_jwks new_public_key_record base64_encode eqb
jkt_run = refl
