-- ===== src/Providers/Verifier.antt =====
-- providers/providerverifier.go: when an ID Token of a provider is accepted.
pub mod Options
pub mod Signature
pub mod Commitment
pub mod Accepted
pub mod Unsigned
pub mod Tests
use openpubkey.Base.{
  required, required-eq-ok, ℕ, zero, suc, ◌+◌, ◌-◌, ◌*◌, ◌/◌, ◌%◌, ◌^◌, ◌≤◌, ◌<◌, String, Error,
  msg, wrapped, joined, permission, Result, ok, err, panic, require, wrap_err, is_permission,
  bind-eq-ok, wrap_err-eq-ok, require-eq-ok, continue, continue-keeps, continue-eq-ok, ◌>>=◌, ◌>>◌,
  ◌≡◌, ◌≢◌, refl, sym, ◌∙◌, ap, List, [], ◌∷◌, ◌++◌, map, arith, Option, none, some, Bool, true,
  false, ◌||◌, ◌&&◌, not, ltb, leb, ◌==◌, if◌then◌else◌, length, length-append, get_elem?, All,
  Bool-cases, Option-cases, inl, inr, ◌⊎◌, ◌↔◌, ==_iff, ltb→lt,
}
use openpubkey.Base.Int.{ℤ, pos, negsuc}
use openpubkey.Base.Bytes.{Bytes, str, eqb, split, has_prefix, is_in}
use openpubkey.Base.Assoc.{lookup}
use openpubkey.Util.Base64.{base64_decode}
use openpubkey.Oidc.Claims.{
  is_text, is_text_iff, Any, text, items, algorithm, other, OidcClaims, ProtectedClaims, Json,
}
use openpubkey.Oidc.Jwt.{Jwt, deref, new_jwt}
use openpubkey.PkToken.Jwx.{Headers, Jwx, Message, first_signature}
use openpubkey.PkToken.ClientInstance.{Claims, Crypto, claims_hash}
use openpubkey.Discover.{
  PublicKey, rsa, ecdsa, PublicKeyRecord, PublicKeyFinder, by_token, gq256, rs256,
}
use openpubkey.Gq.Jwt.{original_jwt_headers}
use openpubkey.Providers.Expiration.{Time, ExpirationPolicy, oidc_policy, check_expiration}

pub record CommitType : Type 0 where
  pub claim : Bytes
  pub gq_commitment : Bool

-- CommitTypesEnum.NONCE_CLAIM, .AUD_CLAIM and .GQ_BOUND
abbrev pub nonce_claim : CommitType
nonce_claim = record { claim = str "nonce"; gq_commitment = false }

abbrev pub aud_claim : CommitType
aud_claim = record { claim = str "aud"; gq_commitment = false }

abbrev pub gq_bound : CommitType
gq_bound = record { claim = []; gq_commitment = true }

-- `MaxAge`, which no code reads, is left out. A nil pointer is `none`.
pub record ProviderVerifierOpts : Type 0 where
  pub client_id : Bytes
  pub commit_type : CommitType
  pub skip_client_id_check : Bool
  pub discover_public_key : Option PublicKeyFinder
  pub expiration_policy : Option ExpirationPolicy
  pub gq_only : Bool

-- The options after their defaults have been set: none of the pointers is nil.
pub record DefaultProviderVerifier : Type 0 where
  pub issuer : Bytes
  pub commit_type : CommitType
  pub client_id : Bytes
  pub skip_client_id_check : Bool
  pub discover_public_key : PublicKeyFinder
  pub expiration_policy : ExpirationPolicy
  pub gq_only : Bool

abbrev or_default {ℓ} : {A : Type ℓ} → Option A → A → A
or_default none d = d
or_default (some a) d = a

-- NewProviderVerifier, with the finder of the package discover as a parameter
unfoldable pub new_provider_verifier :
    PublicKeyFinder → Bytes → ProviderVerifierOpts → DefaultProviderVerifier
new_provider_verifier default_pubkey_finder issuer options = record {
  issuer = issuer;
  commit_type = options.commit_type;
  client_id = options.client_id;
  skip_client_id_check = options.skip_client_id_check;
  discover_public_key = or_default options.discover_public_key default_pubkey_finder;
  expiration_policy = or_default options.expiration_policy oidc_policy;
  gq_only = options.gq_only;
}

-- What a verification reads beside its arguments. `claims_map` is `json.Unmarshal` into a map,
-- `verify` is `jws.Verify` with a public key, and `gq256_verify_jwt` is the function of the package
-- gq, at the modulus and the exponent of the key.
pub record Env (Key Signer : Type 0) : Type 0 where
  pub json : Json
  pub jwx : Jwx Key
  pub crypto : Crypto Key Signer
  pub claims_map : Bytes → Result (List (Bytes × Any))
  pub verify : Bytes → Bytes → PublicKey → Result (Unit {0})
  pub gq256_verify_jwt : ℕ → ℕ → Bytes → Result Bool
  pub now : Time

abbrev pub aud_prefix_for_gq_commitment : Bytes
aud_prefix_for_gq_commitment = str "OPENPUBKEY-PKTOKEN:"

-- `.(string)` without a test
abbrev pub as_string : Any → Result Bytes
as_string (text t) = ok t
as_string (items l) = panic
as_string (algorithm a) = panic
as_string (other json) = panic

-- `.(*rsa.PublicKey)`
abbrev pub as_rsa : String → PublicKey → Result (ℕ × ℕ)
as_rsa e (rsa n v) = ok (n, v)
as_rsa e (ecdsa x y) = err (msg e)

-- the test of the options
pub check_config : DefaultProviderVerifier → Result (Unit {0})
check_config v =
    if v.commit_type.gq_commitment
    then (require v.gq_only "GQCommitment requires that GQOnly is true, but GQOnly is (%t)"
        >> require (eqb v.commit_type.claim [])
            "GQCommitment requires that commitmentClaim is empty but commitmentClaim is (%s)"
        >> require v.skip_client_id_check
            "GQCommitment requires that audience (aud) is not set to client-id")
    else ok tt

-- verifyAudience
pub verify_audience : OidcClaims → Bytes → Result (Unit {0})
verify_audience claims client_id = do
  require (not (eqb claims.audience [])) "missing audience claim"
  require (is_in client_id (split b',' claims.audience))
      "audience does not contain clientID %s, aud = %v"

module _ {Key Signer : Type 0} (env : Env Key Signer) where
  -- originalTokenHeaders
  unfoldable pub original_token_headers : Bytes → Result Headers
  original_token_headers token = do
    orig_headers_b64 ←
        wrap_err "malformatted PK token headers: %w" (original_jwt_headers env.jwx token)
    orig_headers ←
        wrap_err "error decoding original token headers: %w" (base64_decode orig_headers_b64)
    wrap_err "error parsing segment: %w" (env.jwx.parse_headers orig_headers)

  -- (v *DefaultProviderVerifier) verifyGQSig
  unfoldable pub verify_gq_sig :
      DefaultProviderVerifier → Jwt → OidcClaims → ProtectedClaims → Result (Unit {0})
  verify_gq_sig v idt claims protected = do
    require (not (eqb protected.alg [])) "missing provider algorithm header"
    require (eqb protected.alg gq256) "signature is not of type GQ"
    orig_headers ← wrap_err "malformed ID Token headers: %w" (original_token_headers idt.raw)
    require (eqb orig_headers.algorithm rs256)
        "expected original headers to contain RS256 alg, got %s"
    require (not (eqb claims.issuer [])) "missing issuer in payload: %s"
    require (eqb claims.issuer v.issuer)
        "issuer of ID Token (%s) doesn't match expected issuer (%s)"
    public_key_record ←
        wrap_err "failed to get provider public key: %w"
          (by_token env.jwx v.discover_public_key v.issuer idt.raw)
    (n, e) ← as_rsa "jwk is not an RSA key" public_key_record.public_key
    valid ← env.gq256_verify_jwt n e idt.raw
    require valid "error verifying OP GQ signature on PK Token (ID Token invalid)"

  -- the case `RS256` of the switch on the algorithm
  verify_rsa_sig : DefaultProviderVerifier → Bytes → Result (Unit {0})
  verify_rsa_sig v id_token = do
    pub_key_record ←
        wrap_err "failed to get OP public key: %w"
          (by_token env.jwx v.discover_public_key v.issuer id_token)
    (n, e) ← as_rsa "public key is not an RSA public key" pub_key_record.public_key
    env.verify id_token rs256 pub_key_record.public_key

  -- the switch on the algorithm, which has no default
  pub verify_op_sig :
      DefaultProviderVerifier → Bytes → Jwt → OidcClaims → ProtectedClaims → Result (Unit {0})
  verify_op_sig v id_token idt claims protected =
      if eqb protected.alg gq256
      then wrap_err "error verifying OP GQ signature on PK Token: %w"
          (verify_gq_sig v idt claims protected)
      else if eqb protected.alg rs256
      then verify_rsa_sig v id_token
      else ok tt

  -- the commitment that the token carries
  commitment_of : DefaultProviderVerifier → ProtectedClaims → List (Bytes × Any) → Result Any
  commitment_of v protected claims =
      if v.commit_type.gq_commitment
      then (required "require audience claim prefix missing in PK Token's GQCommitment"
            (lookup (str "aud") claims)
          >>= λ aud. as_string aud >>= λ audience.
              require (has_prefix audience aud_prefix_for_gq_commitment)
                "audience claim in PK Token's GQCommitment must be prefixed by (%s), got (%s) instead"
              >>= λ _. require (not (eqb protected.cic [])) "missing GQ commitment" >>= λ _.
                  ok (text protected.cic))
      else (require (not (eqb v.commit_type.claim []))
            "verifier configured with empty commitment claim"
          >>= λ _. required "missing commitment claim %s" (lookup v.commit_type.claim claims))

  -- (v *DefaultProviderVerifier) verifyCommitment
  unfoldable pub verify_commitment :
      DefaultProviderVerifier → Jwt → ProtectedClaims → Claims Key → Result (Unit {0})
  unfolding commitment_of
  verify_commitment v idt protected cic = do
    payload ← base64_decode idt.payload
    claims ← env.claims_map payload
    expected_commitment ← claims_hash env.jwx env.crypto cic
    commitment ← commitment_of v protected claims
    require (is_text commitment expected_commitment)
        "commitment claim doesn't match, got %q, expected %s"

  -- (v *DefaultProviderVerifier) VerifyIDToken
  unfoldable pub verify_id_token : DefaultProviderVerifier → Bytes → Claims Key → Result (Unit {0})
  unfolding check_config verify_audience verify_rsa_sig verify_op_sig
  verify_id_token v id_token cic = do
    check_config v
    idt ← new_jwt env.json id_token
    claims ← deref idt.payload_claims
    check_expiration env.now v.expiration_policy claims
    if v.skip_client_id_check then ok tt else verify_audience claims v.client_id
    protected ← deref idt.protected_claims
    require (not (eqb protected.alg [])) "provider algorithm type missing"
    require (eqb protected.alg gq256 || not v.gq_only) "non-GQ signatures are not supported"
    verify_op_sig v id_token idt claims protected
    verify_commitment v idt protected cic
