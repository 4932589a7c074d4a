-- ===== src/Providers/GqToken.antt =====
-- providers/gq.go: a GQ signature in place of the provider's, over a commitment where one is asked for.
pub mod Signed
pub mod Tests
use openpubkey.Base.{
  required, required-eq-ok, ok_inj, ℕ, zero, suc, ◌+◌, ◌-◌, ◌*◌, ◌/◌, ◌%◌, ◌^◌, ◌≤◌, ◌<◌, String,
  Error, msg, wrapped, joined, permission, Result, ok, err, panic, require, wrap_err, is_permission,
  bind-eq-ok, bind_ok, wrap_err-eq-ok, require-eq-ok, continue, continue-keeps, continue-eq-ok,
  ◌>>=◌, ◌>>◌, ◌≡◌, ◌≢◌, refl, sym, ◌∙◌, ap, List, [], ◌∷◌, ◌++◌, map, arith, Option, none, some,
  Bool, true, false, ◌||◌, ◌&&◌, not, ltb, leb, ◌==◌, if◌then◌else◌, length, length-append,
  get_elem?, All, Bool-cases, Option-cases, inl, inr, ◌⊎◌, ◌↔◌, ==_iff, ltb→lt,
}
use openpubkey.Base.Bytes.{Bytes, str, eqb}
use openpubkey.Util.Base64.{base64_encode, base64_decode}
use openpubkey.PkToken.Jwx.{Headers, Jwx}
use openpubkey.Discover.{PublicKeyRecord, Jwk, rs256}
use openpubkey.Gq.{Primitives}
use openpubkey.Gq.Jwt.{JwsLib, ExtraClaims, with_extra_claim, gq256_sign_jwt}
use openpubkey.Providers.Verifier.{as_rsa}

-- What a GQ signature needs of other packages; `jwk_of` is `jwk.PublicKeyOf` of an RSA key.
pub record GqEnv (H Key : Type 0) : Type 0 where
  pub jws : JwsLib H
  pub jwx : Jwx Key
  pub primitives : Primitives
  pub jwk_of : ℕ × ℕ → Result Jwk

-- the options of the GQ signature
unfoldable pub claims_options : Bytes → Bytes → List (ExtraClaims → ExtraClaims)
claims_options jkt_b64 cic_hash =
    if eqb cic_hash []
    then with_extra_claim (str "jkt") jkt_b64 ∷ []
    else with_extra_claim (str "jkt") jkt_b64 ∷ with_extra_claim (str "cic") cic_hash ∷ []

module _ {H Key : Type 0} (env : GqEnv H Key) where
  -- createJkt
  unfoldable pub create_jkt : ℕ × ℕ → Result Bytes
  create_jkt public_key = do
    jwk_key ← env.jwk_of public_key
    thumbprint ← jwk_key.thumbprint
    ok (base64_encode thumbprint)

  -- the headers of the ID Token
  unfoldable pub id_token_headers : Bytes → Result Headers
  id_token_headers id_token = do
    (headers_b64, payload, signature) ←
        wrap_err "error splitting compact ID Token: %w" (env.jws.split_compact id_token)
    headers_json ← wrap_err "error base64 decoding ID Token headers: %w" (base64_decode headers_b64)
    wrap_err "error unmarshalling ID Token headers: %w" (env.jwx.parse_headers headers_json)

  -- createGQTokenAllParams. `PublicKeyByToken` is that of the provider, and the numbers are those that
  -- the random source has left.
  unfoldable pub create_gq_token_all_params :
      (Bytes → Result PublicKeyRecord) → Bytes → Bytes → Bool → List ℕ → Result (Bytes × List ℕ)
  create_gq_token_all_params public_key_by_token id_token cic_hash gq_commitment reader = do
    require (eqb cic_hash [] || gq_commitment)
        "misconfiguration, cicHash is set but gqCommitment is false, set gqCommitment to true to include cicHash in the gq signature"
    headers ← id_token_headers id_token
    require (eqb headers.algorithm rs256)
        "gq signatures require ID Token have signed with an RSA key, ID Token alg was (%s)"
    op_key ← public_key_by_token id_token
    require (eqb op_key.alg rs256)
        "gq signatures require original provider to have signed with an RSA key, jWK.alg was (%s)"
    rsa_key ←
        as_rsa "gq signatures require original provider to have signed with an RSA key"
          op_key.public_key
    jkt_b64 ← create_jkt rsa_key
    gq256_sign_jwt env.jws env.primitives rsa_key id_token (claims_options jkt_b64 cic_hash) reader

  -- CreateGQToken
  unfoldable pub create_gq_token :
      (Bytes → Result PublicKeyRecord) → Bytes → List ℕ → Result (Bytes × List ℕ)
  create_gq_token public_key_by_token id_token reader =
      create_gq_token_all_params public_key_by_token id_token [] false reader

  -- CreateGQBoundToken
  unfoldable pub create_gq_bound_token :
      (Bytes → Result PublicKeyRecord) → Bytes → Bytes → List ℕ → Result (Bytes × List ℕ)
  create_gq_bound_token public_key_by_token id_token cic_hash reader =
      create_gq_token_all_params public_key_by_token id_token cic_hash true reader
