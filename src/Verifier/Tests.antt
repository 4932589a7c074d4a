-- ===== src/Verifier/Tests.antt =====
-- Runs and instances of the verification of PK Tokens.
use openpubkey.Base.{msg, ok, err, panic, ◌≡◌, refl, [], ◌∷◌, none, some, Bool, true, false, ◌↔◌}
use openpubkey.Base.Bytes.{str, eqb}
use openpubkey.Base.Assoc.{lookup, insert}
use openpubkey.Oidc.Claims.{text, algorithm}
use openpubkey.PkToken.Jwx.{Headers, JwsSignature}
use openpubkey.PkToken.ClientInstance.{parse_claims}
use openpubkey.PkToken.Token.{PkToken, empty_pk_token, provider_algorithm}
use openpubkey.Base.Int.{pos}
use openpubkey.PkToken.CosignerClaims.{CosignerClaims, parse_cosigner_claims}
use openpubkey.PkToken.Cic.{get_cic_values}
use openpubkey.Verifier.{
  ProviderVerifier, CosignerVerifier, Verifier, Reader, require_refreshed_id_token,
  with_cosigner_verifiers, add_provider_verifiers, new_verifier, gq_only, issuer,
  verify_cic_signature, verify_pk_token,
}
use openpubkey.Verifier.Verified.{IsVerified, verify_pk_token_iff}
use openpubkey.Verifier.Adding.{IsKeyed}
use openpubkey.Verifier.Options.{HasAll, refreshed, cosigners, new_verifier-IsKeyed}
use openpubkey.Verifier.Strict.{verify_pk_token-strict}

abbrev headers : Headers
headers = record {
  get = λ k. some (algorithm (str "GQ256"));
  as_map = ok (
      (str "rz", text (str "r"))
      ∷ (str "upk", text (str "key"))
      ∷ (str "alg", algorithm (str "ES256"))
      ∷ []);
  algorithm = str "GQ256";
  key_id = [];
}

abbrev cosigner_headers : CosignerClaims
cosigner_headers = record {
  issuer = str "cos";
  key_id = str "key";
  algorithm = str "ES256";
  auth_id = str "id";
  auth_time = pos 5;
  issued_at = pos 5;
  expiration = pos 9;
  redirect_uri = str "https://client";
  nonce = str "n";
  typ = str "COS";
}

abbrev reader : Reader (Unit {0}) (Unit {0})
reader = record {
  jwx = record {
    parse = λ token. panic;
    verify = λ token alg key. ok tt;
    key_algorithm = λ key. str "ES256";
    key_of = λ v. ok tt;
    parse_headers = λ json. panic;
  };
  crypto = record {
    rand = λ n. ok [];
    key_value = λ key. text [];
    marshal_map = λ m. ok [];
    sha3 = λ b. b;
    split_token = λ token. panic;
    set_headers = λ m. ok m;
    sign = λ payload alg signer m. panic;
  };
  issuer_of = λ payload. ok (str "iss");
  cosigner_claims = λ h. ok cosigner_headers;
}

abbrev provider : ProviderVerifier (Unit {0})
provider = record {
  issuer = str "iss";
  verify_id_token = λ token cic. ok tt;
  verify_refreshed_id_token = some (λ old fresh. ok tt);
}

abbrev cosigner : Bool → CosignerVerifier
cosigner strict = record { issuer = str "cos"; strict = strict; verify_cosigner = λ p. ok tt }

abbrev signature : JwsSignature
signature = record { protected = headers; public = none }

abbrev pk_token : PkToken
pk_token = record empty_pk_token {
  op = some signature;
  cic = some signature;
  op_token = some (str "op");
  cic_token = some (str "cic");
  fresh_id_token = some (str "new");
}

abbrev verifier : Bool → Verifier (Unit {0})
verifier strict = record {
  providers = (str "iss", provider) ∷ [];
  cosigners = (str "cos", cosigner strict) ∷ [];
  require_refreshed_id_token = true;
}

new_run :
    new_verifier provider
      (require_refreshed_id_token ∷ with_cosigner_verifiers (cosigner true ∷ []) ∷ [])
    ≡ ok (verifier true)
unfolding new_verifier require_refreshed_id_token with_cosigner_verifiers lookup insert
new_run = refl

duplicate_run :
    new_verifier provider (add_provider_verifiers (provider ∷ []) ∷ [])
    ≡ err (msg "provider verifier found with duplicate issuer: %s")
unfolding new_verifier add_provider_verifiers lookup eqb
duplicate_run = refl

verified_run : verify_pk_token reader (verifier false) pk_token ((λ v p. gq_only p) ∷ []) ≡ ok tt
unfolding verify_pk_token verify_cic_signature get_cic_values parse_claims issuer lookup eqb gq_only
    provider_algorithm
verified_run = refl

strict_run :
    verify_pk_token reader (verifier true) pk_token []
    ≡ err (msg "missing required cosigner signature by %s")
unfolding verify_pk_token verify_cic_signature get_cic_values parse_claims issuer lookup eqb
strict_run = refl

verify_pk_token_iff_example :
    (verify_pk_token reader (verifier false) pk_token [] ≡ ok tt)
    ↔ IsVerified reader (verifier false) pk_token []
verify_pk_token_iff_example = verify_pk_token_iff reader (verifier false) pk_token []

new_verifier-IsKeyed_example :
    IsKeyed (verifier true)
    × (lookup (str "iss") (verifier true).providers ≡ some provider)
    × HasAll
        (require_refreshed_id_token ∷ with_cosigner_verifiers (cosigner true ∷ []) ∷ [])
        (refreshed, (cosigners (cosigner true ∷ []), tt))
        (verifier true)
new_verifier-IsKeyed_example =
    new_verifier-IsKeyed provider
      (require_refreshed_id_token ∷ with_cosigner_verifiers (cosigner true ∷ []) ∷ [])
      (verifier true) (refreshed, (cosigners (cosigner true ∷ []), tt)) new_run

abbrev cosigned : PkToken
cosigned = record pk_token { cos = some signature }

cosigned_run : verify_pk_token reader (verifier true) cosigned [] ≡ ok tt
unfolding verify_pk_token verify_cic_signature get_cic_values parse_claims issuer lookup eqb
    parse_cosigner_claims
cosigned_run = refl

known_run : lookup (str "cos") (verifier true).cosigners ≡ some (cosigner true)
unfolding lookup eqb
known_run = refl

verify_pk_token-strict_example : (cosigner true).verify_cosigner cosigned ≡ ok tt
verify_pk_token-strict_example =
    verify_pk_token-strict reader (verifier true) cosigned [] (str "cos") (cosigner true)
      (record { providers = (refl, tt); cosigners = (refl, tt) }) known_run refl cosigned_run
