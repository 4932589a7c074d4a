-- ===== src/Providers/Verifier/Tests.antt =====
-- Runs and instances of the verification of ID Tokens.
use openpubkey.Base.{◌+◌, msg, ok, err, panic, ◌≡◌, refl, [], ◌∷◌, none, some, false, ◌↔◌}
use openpubkey.Base.Int.{pos}
use openpubkey.Base.Bytes.{Bytes, str, eqb, split, join, is_in}
use openpubkey.Base.Assoc.{lookup}
use openpubkey.Util.Base64.{base64_encode, base64_decode}
use openpubkey.Oidc.Compact.{split_compact}
use openpubkey.Oidc.Claims.{
  text, OidcClaims, audience_of, parse_segment, parse_protected, parse_claims,
}
use openpubkey.Oidc.Jwt.{Jwt, new_jwt}
use openpubkey.PkToken.Jwx.{Headers}
use openpubkey.PkToken.ClientInstance.{Claims, claims_hash, b64_sha3_256}
use openpubkey.Discover.{
  rsa, Jwk, PublicKeyFinder, new_public_key_record, fetch_and_parse_jwks, by_key_id, key_headers,
  by_token,
}
use openpubkey.Providers.Expiration.{unix_to_internal, oidc_policy, check_expiration}
use openpubkey.Providers.Verifier.{
  nonce_claim, ProviderVerifierOpts, DefaultProviderVerifier, new_provider_verifier, Env,
  verify_commitment, verify_id_token,
}
use openpubkey.Providers.Verifier.Accepted.{IsAccepted, verify_id_token_iff}
use openpubkey.Providers.Verifier.Unsigned.{verify_id_token_unsigned}

abbrev id_claims : OidcClaims
id_claims = record {
  issuer = str "iss";
  subject = str "me";
  audience = [];
  expiration = pos 4000;
  issued_at = pos 1000;
  email = [];
  nonce = [];
  username = [];
  first_name = [];
  last_name = [];
}

abbrev pub headers : Headers
headers = record { get = λ k. none; as_map = ok []; algorithm = str "RS256"; key_id = str "k" }

abbrev some_key : Jwk
some_key = record {
  algorithm = str "RS256";
  key_id = str "k";
  raw = ok (rsa 15 3);
  thumbprint = ok [];
}

abbrev pub keys : PublicKeyFinder
keys = record {
  jwks_func = λ issuer. ok [];
  unmarshal = λ json. ok (record { lookup_key_id = λ k. some some_key; keys = some_key ∷ [] });
}

abbrev pub no_keys : PublicKeyFinder
no_keys = record { jwks_func = λ issuer. err (msg "no keys"); unmarshal = λ json. panic }

-- every token has this algorithm
abbrev pub env_of : Bytes → Env (Unit {0}) (Unit {0})
env_of alg = record {
  json = record {
    claims = λ b. ok (some (id_claims, text (str "client")));
    protected =
        λ b. ok (some (record { alg = alg; jkt = []; key_id = []; typ = str "JWT"; cic = [] }));
    typ = λ b. ok (str "JWT");
  };
  jwx = record {
    parse = λ token. ok (record {
      payload = some [];
      signatures = record { protected = headers; public = none } ∷ [];
    });
    verify = λ token alg key. ok tt;
    key_algorithm = λ key. str "ES256";
    key_of = λ v. ok tt;
    parse_headers = λ json. ok headers;
  };
  crypto = record {
    rand = λ n. ok [];
    key_value = λ key. text [];
    marshal_map = λ m. ok [];
    sha3 = λ b. 0 ∷ [];
    split_token = λ token. panic;
    set_headers = λ m. ok m;
    sign = λ payload alg signer m. panic;
  };
  claims_map = λ b. ok ((str "nonce", text (str "AA")) ∷ []);
  verify = λ token alg key. ok tt;
  gq256_verify_jwt = λ n e token. ok false;
  now = record { sec = pos (2000 + unix_to_internal); nsec = 0 };
}

abbrev options : ProviderVerifierOpts
options = record {
  client_id = str "client";
  commit_type = nonce_claim;
  skip_client_id_check = false;
  discover_public_key = none;
  expiration_policy = none;
  gq_only = false;
}

abbrev verifier : DefaultProviderVerifier
verifier = record {
  issuer = str "iss";
  commit_type = nonce_claim;
  client_id = str "client";
  skip_client_id_check = false;
  discover_public_key = keys;
  expiration_policy = oidc_policy;
  gq_only = false;
}

new_run : new_provider_verifier keys (str "iss") options ≡ verifier
unfolding new_provider_verifier
new_run = refl

abbrev cic : Claims (Unit {0})
cic = record { public_key = tt; protected = [] }

abbrev token : Bytes
token = str "ZmFr.ZmFr.ZmFr"

accepted_run : verify_id_token (env_of (str "RS256")) verifier token cic ≡ ok tt
unfolding verify_id_token verify_commitment new_jwt split_compact parse_protected parse_claims
    parse_segment base64_decode base64_encode audience_of split join eqb check_expiration is_in
    by_token key_headers by_key_id fetch_and_parse_jwks new_public_key_record claims_hash
    b64_sha3_256 lookup
accepted_run = refl

-- Under another algorithm the keys are not even fetched.
unsigned_run :
    verify_id_token
      (env_of (str "none"))
      (record verifier { discover_public_key = no_keys })
      token
      cic
    ≡ ok tt
unfolding verify_id_token verify_commitment new_jwt split_compact parse_protected parse_claims
    parse_segment base64_decode base64_encode audience_of split join eqb check_expiration is_in
    claims_hash b64_sha3_256 lookup
unsigned_run = refl

abbrev unsigned_jwt : Jwt
unsigned_jwt = record {
  payload = str "ZmFr";
  payload_claims = some (record id_claims { audience = str "client" });
  protected = str "ZmFr";
  protected_claims =
      some (record { alg = str "none"; jkt = []; key_id = []; typ = str "JWT"; cic = [] });
  signature = str "ZmFr";
  raw = token;
}

parsed_run : new_jwt (env_of (str "none")).json token ≡ ok unsigned_jwt
unfolding new_jwt split_compact parse_protected parse_claims parse_segment base64_decode audience_of
    split join eqb
parsed_run = refl

verify_id_token_iff_example :
    (verify_id_token (env_of (str "RS256")) verifier token cic ≡ ok tt)
    ↔ IsAccepted (env_of (str "RS256")) verifier token cic
verify_id_token_iff_example = verify_id_token_iff (env_of (str "RS256")) verifier token cic

verify_id_token_unsigned_example :
    verify_id_token (env_of (str "none")) verifier token cic
    ≡ verify_id_token
        (record (env_of (str "none")) {
          verify = λ t alg key. err (msg "bad signature");
          gq256_verify_jwt = λ n e t. panic;
        })
        (record verifier { discover_public_key = no_keys })
        token
        cic
verify_id_token_unsigned_example =
    verify_id_token_unsigned (env_of (str "none")) verifier token cic unsigned_jwt
      (record { alg = str "none"; jkt = []; key_id = []; typ = str "JWT"; cic = [] }) no_keys
      (λ t alg key. err (msg "bad signature")) (λ n e t. panic) refl parsed_run refl (λ h. cc h)
      (λ h. cc h)
