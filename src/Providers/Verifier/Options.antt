-- ===== src/Providers/Verifier/Options.antt =====
-- What the tests of the options and of the audience say.
use openpubkey.Base.{
  Result, ok, require, bind-eq-ok, require-eq-ok, ◌>>◌, ◌≡◌, ◌≢◌, refl, [], arith, Bool, true,
  false, ◌||◌, not, if◌then◌else◌, Bool-cases, inl, inr, ◌↔◌,
}
use openpubkey.Base.Bytes.{Bytes, eqb, eqb_iff, nonempty_iff, split, is_in_iff, IsIn}
use openpubkey.Oidc.Claims.{OidcClaims}
use openpubkey.Oidc.Jwt.{Jwt}
use openpubkey.Discover.{gq256}
use openpubkey.Providers.Verifier.{DefaultProviderVerifier, check_config, verify_audience}

-- the audience names the client
pub record IsAudience (client_id : Bytes) (claims : OidcClaims) : Type 0 where
  pub given : claims.audience ≢ []
  pub listed : IsIn client_id (split b',' claims.audience)

pub verify_audience_iff :
    (claims : OidcClaims) (client_id : Bytes)
    → (verify_audience claims client_id ≡ ok tt) ↔ IsAudience client_id claims
unfolding verify_audience
verify_audience_iff claims client_id = (
  λ h.
      let (_, given, listed) = bind-eq-ok (require (not (eqb claims.audience [])) _) _ h in
      record {
        given = (nonempty_iff _).0 (require-eq-ok _ _ given);
        listed = (is_in_iff _ _).0 (require-eq-ok _ _ listed);
      },
  λ a. rw ((nonempty_iff _).1 a.given, (is_in_iff _ _).1 a.listed) refl,
)

-- where a commitment is in the GQ signature, the options go with it
pub record IsBound (v : DefaultProviderVerifier) : Type 0 where
  pub only_gq : v.gq_only ≡ true
  pub no_claim : v.commit_type.claim ≡ []
  pub no_client_id : v.skip_client_id_check ≡ true

pub check_config_iff :
    (v : DefaultProviderVerifier)
    → (check_config v ≡ ok tt) ↔ (v.commit_type.gq_commitment ≡ true → IsBound v)
unfolding check_config
check_config_iff v = elim (Bool-cases v.commit_type.gq_commitment) [
  | inl e ↦ (
    λ h _.
        let (_, h1, skip) =
          bind-eq-ok (require v.gq_only _ >> require (eqb v.commit_type.claim []) _) _
            (rw e at h) in
        let (_, only, claim) = bind-eq-ok (require v.gq_only _) _ h1 in
        record {
          only_gq = require-eq-ok _ _ only;
          no_claim = (eqb_iff _ _).0 (require-eq-ok _ _ claim);
          no_client_id = require-eq-ok _ _ skip;
        },
    λ f. let b = f e in rw (e, b.only_gq, (eqb_iff _ _).1 b.no_claim, b.no_client_id) refl,
  )
  | inr e ↦ (λ h t. absurd (cc (e, t)), λ f. rw e refl)
]

pub unless_iff :
    (b : Bool) (r : Result (Unit {0})) (P : Type 0)
    → (r ≡ ok tt) ↔ P
    → ((if b then ok tt else r) ≡ ok tt) ↔ (b ≡ false → P)
unless_iff true r P iff = (λ h e. absurd (cc e), λ f. refl)
unless_iff false r P iff = (λ h e. iff.0 h, λ f. iff.1 (f refl))

pub gq_or_any :
    (alg : Bytes) (only : Bool) → ((eqb alg gq256 || not only) ≡ true) ↔ (only ≡ true → alg ≡ gq256)
gq_or_any alg only = ground (arith, eqb_iff alg gq256)

pub ok_raw : {a b : Jwt} → ok a ≡ ok b → a.raw ≡ b.raw
ok_raw h = cc h
