-- ===== src/Cosigner/Verifier.antt =====
-- cosigner/cosignerverifier.go: the verification of the signature of a cosigner.
pub mod Accepted
mod Tests
use openpubkey.Base.{
  ℕ, zero, suc, ◌+◌, ◌-◌, ◌*◌, ◌/◌, ◌%◌, ◌^◌, ◌≤◌, ◌<◌, String, Error, msg, wrapped, joined,
  permission, Result, ok, err, panic, require, wrap_err, is_permission, bind-eq-ok, bind_ok,
  wrap_err-eq-ok, require-eq-ok, continue, continue-keeps, continue-eq-ok, ◌>>=◌, ◌>>◌, ◌≡◌, ◌≢◌,
  refl, sym, ◌∙◌, ap, List, [], ◌∷◌, ◌++◌, map, arith, Option, none, some, Bool, true, false, ◌||◌,
  ◌&&◌, not, ltb, leb, ◌==◌, if◌then◌else◌, length, length-append, get_elem?, All, Bool-cases,
  Option-cases, inl, inr, ◌⊎◌, ◌↔◌, ==_iff, ltb→lt,
}
use openpubkey.Base.Bytes.{Bytes, str, eqb, content}
use openpubkey.PkToken.Jwx.{Headers}
use openpubkey.PkToken.CosignerClaims.{CosignerClaims, parse_cosigner_claims}
use openpubkey.PkToken.Token.{PkToken}
use openpubkey.Discover.{PublicKey, PublicKeyRecord, PublicKeyFinder, by_key_id}
use openpubkey.Providers.Expiration.{Time, after_unix}
use openpubkey.Verifier.{CosignerVerifier, is_none}

-- A nil pointer is `none`.
pub record CosignerVerifierOpts : Type 0 where
  pub strict : Option Bool
  pub discover_public_key : Option PublicKeyFinder

-- The options after their defaults have been set.
pub record DefaultCosignerVerifier : Type 0 where
  pub issuer : Bytes
  pub strict : Bool
  pub discover_public_key : PublicKeyFinder

abbrev or_default {ℓ} : {A : Type ℓ} → Option A → A → A
or_default none d = d
or_default (some a) d = a

-- NewCosignerVerifier, with the finder of the package discover as a parameter
unfoldable pub new_cosigner_verifier :
    PublicKeyFinder → Bytes → CosignerVerifierOpts → DefaultCosignerVerifier
new_cosigner_verifier default_pubkey_finder issuer options = record {
  issuer = issuer;
  strict = or_default options.strict true;
  discover_public_key = or_default options.discover_public_key default_pubkey_finder;
}

-- What is read beside the arguments: the headers as claims, `jws.Verify`, and the clock.
pub record Env : Type 0 where
  pub cosigner_claims : Headers → Result CosignerClaims
  pub verify : Bytes → Bytes → PublicKey → Result (Unit {0})
  pub now : Time

-- (v *DefaultCosignerVerifier) VerifyCosigner
unfoldable pub verify_cosigner : Env → DefaultCosignerVerifier → PkToken → Result (Unit {0})
verify_cosigner env v p = do
  require (not (is_none p.cos)) "no cosigner signature"
  header ← parse_cosigner_claims env.cosigner_claims p
  require (eqb v.issuer header.issuer) "cosigner issuer (%s) doesn't match expected issuer (%s)"
  key_record ← by_key_id v.discover_public_key v.issuer header.key_id
  require (not (after_unix env.now header.expiration)) "cosigner signature expired"
  require (eqb header.algorithm key_record.alg)
      "key (kid=%s) has alg (%s) which doesn't match alg (%s) in protected"
  env.verify (content p.cos_token) key_record.alg key_record.public_key

-- the verifier as the package verifier sees it
abbrev pub as_cosigner_verifier : Env → DefaultCosignerVerifier → CosignerVerifier
as_cosigner_verifier env v = record {
  issuer = v.issuer;
  strict = v.strict;
  verify_cosigner = verify_cosigner env v;
}
