-- ===== src/Cosigner/Verifier/Tests.antt =====
-- Runs and instances of the verification of a cosigner.
use openpubkey.Base.{ℕ, ◌+◌, msg, ok, err, ◌≡◌, refl, [], ◌∷◌, none, some, true, ◌↔◌}
use openpubkey.Base.Int.{pos}
use openpubkey.Base.Bytes.{str, eqb}
use openpubkey.PkToken.Jwx.{Headers}
use openpubkey.PkToken.CosignerClaims.{CosignerClaims, parse_cosigner_claims}
use openpubkey.PkToken.Token.{PkToken, empty_pk_token}
use openpubkey.Discover.{
  rsa, Jwk, PublicKeyFinder, new_public_key_record, fetch_and_parse_jwks, by_key_id,
}
use openpubkey.Providers.Expiration.{unix_to_internal}
use openpubkey.Cosigner.Verifier.{
  DefaultCosignerVerifier, new_cosigner_verifier, Env, verify_cosigner,
}
use openpubkey.Cosigner.Verifier.Accepted.{IsSignedBy, verify_cosigner_iff}

abbrev claims : CosignerClaims
claims = record {
  issuer = str "cos";
  key_id = str "key";
  algorithm = str "ES256";
  auth_id = str "id";
  auth_time = pos 5;
  issued_at = pos 5;
  expiration = pos 9;
  redirect_uri = str "https://client";
  nonce = str "n";
  typ = str "COS";
}

abbrev headers : Headers
headers = record { get = λ k. none; as_map = ok []; algorithm = []; key_id = [] }

abbrev cosigned : PkToken
cosigned = record empty_pk_token {
  cos = some (record { protected = headers; public = none });
  cos_token = some (str "token");
}

abbrev key : Jwk
key = record {
  algorithm = str "ES256";
  key_id = str "key";
  raw = ok (rsa 15 3);
  thumbprint = ok [];
}

abbrev keys : PublicKeyFinder
keys = record {
  jwks_func = λ issuer. ok [];
  unmarshal = λ json. ok (record { lookup_key_id = λ k. some key; keys = key ∷ [] });
}

abbrev verifier : DefaultCosignerVerifier
verifier = record { issuer = str "cos"; strict = true; discover_public_key = keys }

-- A verifier is strict where nothing else is said.
new_run :
    new_cosigner_verifier keys (str "cos") (record { strict = none; discover_public_key = none })
    ≡ verifier
unfolding new_cosigner_verifier
new_run = refl

abbrev env_at : ℕ → ℕ → Env
env_at s n = record {
  cosigner_claims = λ h. ok claims;
  verify = λ token alg k. ok tt;
  now = record { sec = pos (s + unix_to_internal); nsec = n };
}

accepted_run : verify_cosigner (env_at 9 0) verifier cosigned ≡ ok tt
unfolding verify_cosigner parse_cosigner_claims by_key_id fetch_and_parse_jwks new_public_key_record
    eqb
accepted_run = refl

expired_run :
    verify_cosigner (env_at 9 1) verifier cosigned ≡ err (msg "cosigner signature expired")
unfolding verify_cosigner parse_cosigner_claims by_key_id fetch_and_parse_jwks new_public_key_record
    eqb
expired_run = refl

verify_cosigner_iff_example :
    (verify_cosigner (env_at 9 0) verifier cosigned ≡ ok tt)
    ↔ IsSignedBy (env_at 9 0) verifier cosigned
verify_cosigner_iff_example = verify_cosigner_iff (env_at 9 0) verifier cosigned
