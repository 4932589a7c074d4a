-- ===== src/PkToken/ClientInstance/Tests.antt =====
-- Runs and instances of the claims of a client.
use openpubkey.Base.{msg, ok, err, panic, ◌≡◌, refl, List, [], ◌∷◌, some}
use openpubkey.Base.Bytes.{Bytes, str, eqb}
use openpubkey.Base.Assoc.{lookup, insert}
use openpubkey.Oidc.Claims.{Any, text, algorithm}
use openpubkey.PkToken.Jwx.{Jwx}
use openpubkey.PkToken.ClientInstance.{Crypto, encode_hex, generate_rand, new_claims}

abbrev jwx : Jwx (Unit {0})
jwx = record {
  parse = λ token. panic;
  verify = λ token alg key. ok tt;
  key_algorithm = λ key. str "ES256";
  key_of = λ v. ok tt;
  parse_headers = λ json. panic;
}

abbrev crypto : Crypto (Unit {0}) (Unit {0})
crypto = record {
  rand = λ n. ok (1 ∷ 254 ∷ []);
  key_value = λ key. text (str "key");
  marshal_map = λ m. ok [];
  sha3 = λ b. b;
  split_token = λ token. panic;
  set_headers = λ m. ok m;
  sign = λ payload alg signer m. panic;
}

abbrev made : List (Bytes × Any)
made =
    (str "typ", text (str "CIC"))
    ∷ (str "alg", text (str "ES256"))
    ∷ (str "upk", text (str "key"))
    ∷ (str "rz", text (str "01fe"))
    ∷ []

abbrev in_headers : List (Bytes × Any)
in_headers =
    (str "alg", algorithm (str "ES256"))
    ∷ (str "upk", text (str "key"))
    ∷ (str "rz", text (str "01fe"))
    ∷ []

new_run : new_claims jwx crypto tt [] ≡ ok (record { public_key = tt; protected = made })
unfolding new_claims generate_rand encode_hex lookup insert eqb
new_run = refl

reserved_run :
    new_claims jwx crypto tt ((str "typ", text (str "JWT")) ∷ [])
    ≡ err (msg "use of reserved header name, %s, in additional headers")
unfolding new_claims lookup eqb
reserved_run = refl

rz_run : lookup (str "rz") in_headers ≡ lookup (str "rz") made
unfolding lookup eqb
rz_run = refl

upk_run : lookup (str "upk") in_headers ≡ lookup (str "upk") made
unfolding lookup eqb
upk_run = refl

alg_run : lookup (str "alg") in_headers ≡ some (algorithm (str "ES256"))
unfolding lookup eqb
alg_run = refl
