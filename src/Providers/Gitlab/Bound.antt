-- ===== src/Providers/Gitlab/Bound.antt =====
-- The tokens of a GitLab job that are accepted.
use openpubkey.Base.{true, ℕ, ok, ◌≡◌, ◌≢◌, List, [], ◌++◌, some}
use openpubkey.Base.Bytes.{Bytes, str}
use openpubkey.Base.Assoc.{lookup}
use openpubkey.Util.Base64.{base64_decode}
use openpubkey.Oidc.Claims.{Any, text, OidcClaims, ProtectedClaims}
use openpubkey.Oidc.Jwt.{Jwt, new_jwt}
use openpubkey.PkToken.ClientInstance.{Claims, claims_hash}
use openpubkey.Discover.{gq256, rsa, rs256, PublicKeyRecord, by_token}
use openpubkey.Providers.Expiration.{oidc_policy, check_expiration}
use openpubkey.PkToken.Jwx.{Headers}
use openpubkey.Providers.Verifier.{original_token_headers, Env, aud_prefix_for_gq_commitment}
use openpubkey.Providers.Gitlab.{GitlabOp}
use openpubkey.Discover.{PublicKeyFinder}

module _ {Key Signer : Type 0} (env : Env Key Signer) (finder : PublicKeyFinder)
    (g : GitlabOp) where
  -- A token of a GitLab job, bound to the claims of a client: its GQ signature is made with the key of
  -- the issuer, and covers the hash of the claims; its audience says that it is for a PK Token.
  pub record IsJobToken (token : Bytes) (cic : Claims Key) : Type 0 where
    pub idt : Jwt
    pub parsed : new_jwt env.json token ≡ ok idt
    pub claims : OidcClaims
    pub claims_given : idt.payload_claims ≡ some claims
    pub protected : ProtectedClaims
    pub protected_given : idt.protected_claims ≡ some protected
    pub fresh : check_expiration env.now oidc_policy claims ≡ ok tt
    pub alg : protected.alg ≡ gq256
    pub headers : Headers
    pub original : original_token_headers env token ≡ ok headers
    pub original_alg : headers.algorithm ≡ rs256
    pub issuer_given : claims.issuer ≢ []
    pub issuer_same : claims.issuer ≡ g.issuer
    pub key : PublicKeyRecord
    pub key_found : by_token env.jwx finder g.issuer token ≡ ok key
    pub modulus : ℕ
    pub exponent : ℕ
    pub key_rsa : key.public_key ≡ rsa modulus exponent
    pub signed : env.gq256_verify_jwt modulus exponent token ≡ ok true
    pub commitment : claims_hash env.jwx env.crypto cic ≡ ok protected.cic
    pub given : protected.cic ≢ []
    pub payload : Bytes
    pub decoded : base64_decode idt.payload ≡ ok payload
    pub payload_map : List (Bytes × Any)
    pub read : env.claims_map payload ≡ ok payload_map
    pub for_pk_token :
        (rest : Bytes) × (lookup (str "aud") payload_map
          ≡ some (text (aud_prefix_for_gq_commitment ++ rest)))
