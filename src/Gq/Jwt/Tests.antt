-- ===== src/Gq/Jwt/Tests.antt =====
-- Runs and instances of the GQ signatures of JWTs.
use openpubkey.Base.{ℕ, ◌+◌, msg, ok, err, panic, ◌≡◌, refl, List, [], ◌∷◌, none, some}
use openpubkey.Base.Bytes.{Bytes, str, eqb}
use openpubkey.Base.Assoc.{lookup, insert}
use openpubkey.Util.Base64.{base64_encode}
use openpubkey.Oidc.Claims.{Any}
use openpubkey.Oidc.Compact.{compact_form, split_compact}
use openpubkey.PkToken.Jwx.{Jwx, Headers}
use openpubkey.Gq.{SignerVerifier}
use openpubkey.Gq.Jwt.{JwsLib, with_extra_claim, sign_jwt, gq256_verify_jwt, gq256}
use openpubkey.Gq.Keys.{sv_of, gq256_verify_jwt_refused}
use openpubkey.Gq.Tests.{primitives, modulus, signature_bytes}

-- Headers as a map, which are written the same whatever they hold.
abbrev pub jws : JwsLib (List (Bytes × Any))
jws = record {
  new_headers = [];
  set = λ k v headers. ok (insert k v headers);
  marshal = λ headers. ok (str "{}");
  split_compact = split_compact;
  verify_rs256 = λ token key. ok tt;
}

abbrev gq_header : Headers
gq_header = record { get = λ k. none; as_map = ok []; algorithm = gq256; key_id = str "h" }

abbrev pub jwx : Jwx (Unit {0})
jwx = record {
  parse = λ token. ok (record {
    payload = some [];
    signatures = record { protected = gq_header; public = none } ∷ [];
  });
  verify = λ token alg key. ok tt;
  key_algorithm = λ key. str "ES256";
  key_of = λ v. ok tt;
  parse_headers = λ json. ok gq_header;
}

gq256_verify_jwt_refused_example :
    gq256_verify_jwt jws primitives jwx (15 + 1, 65537) (str "a.b.c") ≡ panic
gq256_verify_jwt_refused_example =
    gq256_verify_jwt_refused primitives jws jwx (15 + 1) (str "a.b.c") refl

-- A reserved name is refused.
reserved_run :
    sign_jwt jws primitives
      (record { n = 15; v = 3; n_bytes = 1; v_bytes = 1; t = 1 })
      (str "h.p.s")
      (with_extra_claim (str "kid") (str "x") ∷ [])
      []
    ≡ err (msg "use of reserved header name, %s, in additional headers")
unfolding sign_jwt with_extra_claim lookup insert eqb
reserved_run = refl

abbrev key_256 : SignerVerifier
key_256 = sv_of primitives modulus 256

abbrev pub rsa_jwt : Bytes
rsa_jwt = compact_form (str "h") (str "p") (base64_encode signature_bytes)

abbrev gq_headers_of : Bytes
gq_headers_of = base64_encode (str "{}")

abbrev pub draws : List ℕ
draws = 5 ∷ 6 ∷ 5 ∷ 6 ∷ 5 ∷ 6 ∷ 5 ∷ 6 ∷ 5 ∷ 6 ∷ 5 ∷ 6 ∷ 5 ∷ 6 ∷ 5 ∷ 6 ∷ []
