-- ===== src/Cosigner/Verifier/Accepted.antt =====
-- What the acceptance of a cosigner's signature says, and that nothing else is asked.
use openpubkey.Base.{
  ok, require, bind-eq-ok, bind_ok, require-eq-ok, ◌≡◌, refl, sym, arith, some, Bool, true, false,
  not, ◌↔◌,
}
use openpubkey.Base.Bytes.{eqb, eqb_iff, content}
use openpubkey.PkToken.Jwx.{JwsSignature}
use openpubkey.PkToken.Token.{PkToken}
use openpubkey.PkToken.CosignerClaims.{CosignerClaims, parse_cosigner_claims}
use openpubkey.PkToken.CosignerClaims.Complete.{IsComplete, parse_cosigner_claims_iff}
use openpubkey.Discover.{PublicKeyRecord, by_key_id}
use openpubkey.Providers.Expiration.{after_unix}
use openpubkey.Verifier.{is_none}
use openpubkey.Cosigner.Verifier.{DefaultCosignerVerifier, Env, verify_cosigner}

-- The cosigner's headers name the verifier's issuer and its key, have not expired, and are signed
-- with that key under its algorithm.
pub record IsSignedBy (env : Env) (v : DefaultCosignerVerifier) (p : PkToken) : Type 0 where
  pub signature : JwsSignature
  pub given : p.cos ≡ some signature
  pub header : CosignerClaims
  pub read : env.cosigner_claims signature.protected ≡ ok header
  pub complete : IsComplete header
  pub issuer : header.issuer ≡ v.issuer
  pub key : PublicKeyRecord
  pub found : by_key_id v.discover_public_key v.issuer header.key_id ≡ ok key
  pub fresh : after_unix env.now header.expiration ≡ false
  pub alg : header.algorithm ≡ key.alg
  pub signed : env.verify (content p.cos_token) key.alg key.public_key ≡ ok tt

not_iff : (b : Bool) → (not b ≡ true) ↔ (b ≡ false)
not_iff b = ground arith

-- A cosigner's verifier accepts a PK Token exactly if it has a cosigner's signature whose headers
-- are complete, name the issuer of the verifier and one of its keys with the algorithm of that key,
-- and have not expired, and which verifies with the key.
pub verify_cosigner_iff :
    (env : Env) (v : DefaultCosignerVerifier) (p : PkToken)
    → (verify_cosigner env v p ≡ ok tt) ↔ IsSignedBy env v p
unfolding verify_cosigner
verify_cosigner_iff env v p = (
  λ h.
      let (_, _, h1) = bind-eq-ok (require (not (is_none p.cos)) _) _ h in
      let (header, read, h2) = bind-eq-ok (parse_cosigner_claims env.cosigner_claims p) _ h1 in
      let (signature, given, claims, complete) =
        (parse_cosigner_claims_iff env.cosigner_claims p header).0 read in
      let (_, issuer, h3) = bind-eq-ok (require (eqb v.issuer header.issuer) _) _ h2 in
      let (key, found, h4) =
        bind-eq-ok (by_key_id v.discover_public_key v.issuer header.key_id) _ h3 in
      let (_, fresh, h5) =
        bind-eq-ok (require (not (after_unix env.now header.expiration)) _) _ h4 in
      let (_, alg, h6) = bind-eq-ok (require (eqb header.algorithm key.alg) _) _ h5 in
      record {
        signature = signature;
        given = given;
        header = header;
        read = claims;
        complete = complete;
        issuer = sym ((eqb_iff _ _).0 (require-eq-ok _ _ issuer));
        key = key;
        found = found;
        fresh = (not_iff _).0 (require-eq-ok _ _ fresh);
        alg = (eqb_iff _ _).0 (require-eq-ok _ _ alg);
        signed = h6;
      },
  λ s.
      let read =
        (parse_cosigner_claims_iff env.cosigner_claims p s.header).1
          (s.signature, s.given, s.read, s.complete) in
      let there : not (is_none p.cos) ≡ true = rw s.given refl in
      rw there (
        bind_ok (parse_cosigner_claims env.cosigner_claims p) _ read (
          rw ((eqb_iff v.issuer s.header.issuer).1 (sym s.issuer)) (
            bind_ok (by_key_id v.discover_public_key v.issuer s.header.key_id) _ s.found (
              rw ((not_iff _).1 s.fresh, (eqb_iff s.header.algorithm s.key.alg).1 s.alg)
                s.signed)))),
)
