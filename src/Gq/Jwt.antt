-- ===== src/Gq/Jwt.antt =====
-- gq/gq.go, gq/sign.go and gq/verify.go: GQ signatures in place of the RSA signatures of JWTs.
pub mod Accepted
pub mod Tests
use openpubkey.Base.{
  required, required-eq-ok, ok_inj, ℕ, zero, suc, ◌+◌, ◌-◌, ◌*◌, ◌/◌, ◌%◌, ◌^◌, ◌≤◌, ◌<◌, String,
  Error, msg, wrapped, joined, permission, Result, ok, err, panic, require, wrap_err, is_permission,
  bind-eq-ok, bind_ok, wrap_err-eq-ok, require-eq-ok, continue, continue-keeps, continue-eq-ok,
  ◌>>=◌, ◌>>◌, ◌≡◌, ◌≢◌, refl, sym, ◌∙◌, ap, List, [], ◌∷◌, ◌++◌, map, arith, Option, none, some,
  Bool, true, false, ◌||◌, ◌&&◌, not, ltb, leb, ◌==◌, if◌then◌else◌, length, length-append,
  get_elem?, All, Bool-cases, Option-cases, inl, inr, ◌⊎◌, ◌↔◌, ==_iff, ltb→lt,
}
use openpubkey.Base.Bytes.{Bytes, str, eqb, join, is_in}
use openpubkey.Base.Assoc.{lookup, insert}
use openpubkey.Util.Base64.{base64_encode, base64_decode}
use openpubkey.Oidc.Claims.{Any, text, algorithm}
use openpubkey.Oidc.Compact.{compact_form}
use openpubkey.PkToken.Jwx.{Jwx, first_signature}
use openpubkey.Gq.{Primitives, SignerVerifier, new_signer_verifier}
use openpubkey.Gq.Blinding.{inverse_of}
use openpubkey.Gq.Sign.{sign}
use openpubkey.Gq.Verify.{or_false, verify}

abbrev pub gq256 : Bytes
gq256 = str "GQ256"

-- What is used of the package jws: `NewHeaders`, `Set` and `json.Marshal` of headers, `SplitCompact`,
-- and `Verify` with RS256 and an RSA key, which is its modulus and its exponent.
pub record JwsLib (H : Type 0) : Type 0 where
  pub new_headers : H
  pub set : Bytes → Any → H → Result H
  pub marshal : H → Result Bytes
  pub split_compact : Bytes → Result (Bytes × Bytes × Bytes)
  pub verify_rs256 : Bytes → ℕ × ℕ → Result (Unit {0})

-- OptsStruct: the extra claims
abbrev pub ExtraClaims : Type 0
ExtraClaims = List (Bytes × Bytes)

-- WithExtraClaim
unfoldable pub with_extra_claim : Bytes → Bytes → ExtraClaims → ExtraClaims
with_extra_claim k v claims = insert k v claims

-- `opts`, each an option that changes the claims
abbrev pub apply_all : List (ExtraClaims → ExtraClaims) → ExtraClaims → ExtraClaims
apply_all [] claims = claims
apply_all (opt ∷ opts) claims = apply_all opts (opt claims)

abbrev pub is_set : Option Bytes → Bool
is_set none = false
is_set (some v) = true

-- the loop over the reserved names
abbrev pub check_reserved : List Bytes → ExtraClaims → Result (Unit {0})
check_reserved [] claims = ok tt
check_reserved (reserved ∷ names) claims =
    require (not (is_set (lookup reserved claims)))
      "use of reserved header name, %s, in additional headers"
    >> check_reserved names claims

abbrev pub reserved_names : List Bytes
reserved_names = str "alg" ∷ str "typ" ∷ str "kid" ∷ []

-- util.JoinJWTSegments of two segments
abbrev pub signing_payload_of : Bytes → Bytes → Bytes
signing_payload_of headers payload = join b'.' (headers ∷ payload ∷ [])

-- OriginalJWTHeaders
unfoldable pub original_jwt_headers : {Key : Type 0} → Jwx Key → Bytes → Result Bytes
original_jwt_headers jwx jwt = do
  token ← jwx.parse jwt
  headers ← first_signature token.signatures
  require (eqb headers.protected.algorithm gq256) "expected GQ256 alg, got %s"
  ok headers.protected.key_id

module _ {H : Type 0} (jws : JwsLib H) (p : Primitives) where
  abbrev set_extra : ExtraClaims → H → Result H
  set_extra [] headers = ok headers
  set_extra ((k, v) ∷ claims) headers = jws.set k (text v) headers >>= set_extra claims

  -- the headers of a GQ signed JWT, encoded
  unfoldable pub gq_headers : Bytes → ExtraClaims → Result Bytes
  gq_headers orig_headers claims = do
    with_alg ← jws.set (str "alg") (algorithm gq256) jws.new_headers
    with_typ ← jws.set (str "typ") (text (str "JWT")) with_alg
    with_kid ← jws.set (str "kid") (text orig_headers) with_typ
    headers ← set_extra claims with_kid
    headers_json ← jws.marshal headers
    ok (base64_encode headers_json)

  -- (sv *signerVerifier) SignJWT, with the numbers that the reader has left
  unfoldable pub sign_jwt :
      SignerVerifier → Bytes → List (ExtraClaims → ExtraClaims) → List ℕ → Result (Bytes × List ℕ)
  sign_jwt sv jwt opts reader = do
    let extra_claims = apply_all opts []
    check_reserved reserved_names extra_claims
    (orig_headers, payload, signature) ← jws.split_compact jwt
    let signing_payload = signing_payload_of orig_headers payload
    headers_enc ← gq_headers orig_headers extra_claims
    decoded_sig ← base64_decode signature
    (private, left) ← inverse_of p sv decoded_sig reader
    (gq_sig, rest) ← sign p sv private signing_payload left
    ok (compact_form headers_enc payload gq_sig, rest)

  -- GQ256SignJWT
  unfoldable pub gq256_sign_jwt :
      ℕ × ℕ → Bytes → List (ExtraClaims → ExtraClaims) → List ℕ → Result (Bytes × List ℕ)
  gq256_sign_jwt (modulus, exponent) jwt opts reader = do
    wrap_err "incorrect public key supplied when GQ signing jwt: %w"
        (jws.verify_rs256 jwt (modulus, exponent))
    sv ← wrap_err "error creating GQ signer: %w" (new_signer_verifier p modulus exponent 256)
    wrap_err "error creating GQ signature: %w" (sign_jwt sv jwt opts reader)

  module _ {Key : Type 0} (jwx : Jwx Key) where
    -- (sv *signerVerifier) VerifyJWT
    unfoldable pub verify_jwt : SignerVerifier → Bytes → Result Bool
    verify_jwt sv jwt = or_false (original_jwt_headers jwx jwt) (λ orig_headers.
        or_false (jws.split_compact jwt) (λ (headers, payload, signature).
          let signing_payload = signing_payload_of orig_headers payload in
          verify p sv signature signing_payload signing_payload))

    -- GQ256VerifyJWT
    unfoldable pub gq256_verify_jwt : ℕ × ℕ → Bytes → Result Bool
    gq256_verify_jwt (modulus, exponent) gq_token = do
      sv ← wrap_err "error creating GQ signer: %w" (new_signer_verifier p modulus exponent 256)
      verify_jwt sv gq_token
