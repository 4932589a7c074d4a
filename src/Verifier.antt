-- ===== src/Verifier.antt =====
-- verifier/verifier.go: the verification of a PK Token.
pub mod Adding
pub mod Options
pub mod Cosigned
pub mod Verified
pub mod Strict
mod Tests
use openpubkey.Base.{
  ℕ, zero, suc, ◌+◌, ◌-◌, ◌*◌, ◌/◌, ◌%◌, ◌^◌, ◌≤◌, ◌<◌, String, Error, msg, wrapped, joined,
  permission, Result, ok, err, panic, require, wrap_err, is_permission, bind-eq-ok, bind_ok,
  wrap_err-eq-ok, require-eq-ok, continue, continue-keeps, continue-eq-ok, ◌>>=◌, ◌>>◌, ◌≡◌, ◌≢◌,
  refl, sym, ◌∙◌, ap, List, [], ◌∷◌, ◌++◌, map, arith, Option, none, some, Bool, true, false, ◌||◌,
  ◌&&◌, not, ltb, leb, ◌==◌, if◌then◌else◌, length, length-append, get_elem?, All, Bool-cases,
  Option-cases, inl, inr, ◌⊎◌, ◌↔◌, ==_iff, ltb→lt,
}
use openpubkey.Base.Bytes.{Bytes, str, eqb, content}
use openpubkey.Base.Assoc.{lookup, insert}
use openpubkey.Oidc.Jwt.{deref}
use openpubkey.PkToken.Jwx.{Headers, JwsSignature, Jwx}
use openpubkey.PkToken.ClientInstance.{Claims, Crypto, parse_claims}
use openpubkey.PkToken.CosignerClaims.{CosignerClaims, parse_cosigner_claims}
use openpubkey.PkToken.Cic.{get_cic_values}
use openpubkey.PkToken.Token.{PkToken, provider_algorithm}
use openpubkey.Discover.{gq256}

-- `verify_refreshed_id_token` is that of a RefreshableProviderVerifier.
pub record ProviderVerifier (Key : Type 0) : Type 0 where
  pub issuer : Bytes
  pub verify_id_token : Bytes → Claims Key → Result (Unit {0})
  pub verify_refreshed_id_token : Option (Bytes → Bytes → Result (Unit {0}))

pub record CosignerVerifier : Type 0 where
  pub issuer : Bytes
  pub strict : Bool
  pub verify_cosigner : PkToken → Result (Unit {0})

pub record Verifier (Key : Type 0) : Type 0 where
  pub providers : List (Bytes × ProviderVerifier Key)
  pub cosigners : List (Bytes × CosignerVerifier)
  pub require_refreshed_id_token : Bool

-- What is read with other packages: jws and jwk, the issuer in a payload, and the headers of a
-- cosigner.
pub record Reader (Key Signer : Type 0) : Type 0 where
  pub jwx : Jwx Key
  pub crypto : Crypto Key Signer
  pub issuer_of : Bytes → Result Bytes
  pub cosigner_claims : Headers → Result CosignerClaims

abbrev pub is_none {ℓ} : {A : Type ℓ} → Option A → Bool
is_none none = true
is_none (some a) = false

-- RequireRefreshedIDToken
unfoldable pub require_refreshed_id_token : {Key : Type 0} → Verifier Key → Result (Verifier Key)
require_refreshed_id_token v = ok (record v { require_refreshed_id_token = true })

-- WithCosignerVerifiers
unfoldable pub with_cosigner_verifiers :
    {Key : Type 0} → List CosignerVerifier → Verifier Key → Result (Verifier Key)
with_cosigner_verifiers [] v = ok v
with_cosigner_verifiers (w ∷ ws) v =
    require (is_none (lookup w.issuer v.cosigners))
      "cosigner verifier found with duplicate issuer: %s"
    >>= λ _. with_cosigner_verifiers ws (record v { cosigners = insert w.issuer w v.cosigners })

-- AddProviderVerifiers
unfoldable pub add_provider_verifiers :
    {Key : Type 0} → List (ProviderVerifier Key) → Verifier Key → Result (Verifier Key)
add_provider_verifiers [] v = ok v
add_provider_verifiers (w ∷ ws) v =
    require (is_none (lookup w.issuer v.providers))
      "provider verifier found with duplicate issuer: %s"
    >>= λ _. add_provider_verifiers ws (record v { providers = insert w.issuer w v.providers })

pub apply_options :
    {Key : Type 0}
    → List (Verifier Key → Result (Verifier Key))
    → Verifier Key
    → Result (Verifier Key)
apply_options [] v = ok v
apply_options (option ∷ options) v = option v >>= apply_options options

-- New
unfoldable pub new_verifier :
    {Key : Type 0}
    → ProviderVerifier Key
    → List (Verifier Key → Result (Verifier Key))
    → Result (Verifier Key)
unfolding apply_options
new_verifier verifier options = apply_options options (record {
  providers = (verifier.issuer, verifier) ∷ [];
  cosigners = [];
  require_refreshed_id_token = false;
})

-- GQOnly
unfoldable pub gq_only : PkToken → Result (Unit {0})
gq_only p = provider_algorithm p >>= elim [
  | none ↦ err (msg "missing provider algorithm header")
  | some alg ↦ require (eqb alg gq256) "non-GQ signatures are not supported"
]

-- a loop that returns the error of a strict verifier, unless it is one of the issuer's
pub no_strict : Option Bytes → List (Bytes × CosignerVerifier) → Result (Unit {0})
no_strict present [] = ok tt
no_strict none ((i, w) ∷ ws) =
    require (not w.strict) "missing required cosigner signature by %s" >>= λ _. no_strict none ws
no_strict (some issuer) ((i, w) ∷ ws) =
    require (not w.strict || eqb w.issuer issuer) "missing required cosigner signature by %s"
    >>= λ _. no_strict (some issuer) ws

abbrev found {ℓ} : {A : Type ℓ} → String → Option A → Result A
found e none = err (msg e)
found e (some a) = ok a

module _ {Key Signer : Type 0} (r : Reader Key Signer) where
  -- (p *PKToken) Issuer
  unfoldable pub issuer : PkToken → Result Bytes
  issuer p = wrap_err "malformatted PK token claims: %w" (r.issuer_of (content p.payload))

  -- verifyCicSignature
  unfoldable pub verify_cic_signature : PkToken → Result (Unit {0})
  verify_cic_signature p = get_cic_values r.jwx r.crypto p >>= λ cic.
      r.jwx.verify (content p.cic_token) (r.jwx.key_algorithm cic.public_key) cic.public_key

  -- the verification of a refreshed ID Token, where it is required
  pub verify_refreshed : Verifier Key → ProviderVerifier Key → PkToken → Result (Unit {0})
  verify_refreshed v provider p =
      if v.require_refreshed_id_token
      then (found
            "refreshed ID Token verification required but provider verifier (issuer=%s) does not support it"
            provider.verify_refreshed_id_token
          >>= λ verify. found "no refreshed ID Token set" p.fresh_id_token >>= λ fresh.
              verify (content p.op_token) fresh)
      else ok tt

  -- the verification of a cosigner's signature that is there
  pub verify_signed_by : Verifier Key → PkToken → Result (Unit {0})
  verify_signed_by v p = do
    claims ← parse_cosigner_claims r.cosigner_claims p
    w ← found "unrecognized cosigner %s" (lookup claims.issuer v.cosigners)
    w.verify_cosigner p
    no_strict (some claims.issuer) v.cosigners

  -- the cosigners, of which there may be none
  pub verify_cosigners : Verifier Key → PkToken → Result (Unit {0})
  verify_cosigners v p =
      if ltb 0 (length v.cosigners)
      then (if is_none p.cos then no_strict none v.cosigners else verify_signed_by v p)
      else ok tt

  pub run_checks :
      List (Verifier Key → PkToken → Result (Unit {0})) → Verifier Key → PkToken → Result (Unit {0})
  run_checks [] v p = ok tt
  run_checks (check ∷ checks) v p = check v p >>= λ _. run_checks checks v p

  -- (v *Verifier) VerifyPKToken
  unfoldable pub verify_pk_token :
      Verifier Key → PkToken → List (Verifier Key → PkToken → Result (Unit {0})) → Result (Unit {0})
  unfolding verify_refreshed verify_signed_by verify_cosigners run_checks no_strict
  verify_pk_token v p extra_checks = do
    wrap_err "error verifying client signature on PK Token: %w" (verify_cic_signature p)
    iss ← issuer p
    provider ← found "unrecognized issuer: %s" (lookup iss v.providers)
    cic ← get_cic_values r.jwx r.crypto p
    provider.verify_id_token (content p.op_token) cic
    verify_refreshed v provider p
    verify_cosigners v p
    run_checks extra_checks v p
