-- ===== src/Verifier/Cosigned.antt =====
-- What the tests of the cosigner's signature say.
use openpubkey.Base.{
  ℕ, suc, String, Result, ok, require, bind-eq-ok, bind_ok, require-eq-ok, ◌≡◌, ◌≢◌, refl, ap, List,
  [], ◌∷◌, arith, Option, none, some, Bool, true, false, ◌||◌, not, ltb, if◌then◌else◌, length, All,
  ◌↔◌,
}
use openpubkey.Base.Bytes.{Bytes, eqb, eqb_iff}
use openpubkey.Base.Assoc.{lookup}
use openpubkey.PkToken.Jwx.{JwsSignature}
use openpubkey.PkToken.CosignerClaims.{CosignerClaims, parse_cosigner_claims}
use openpubkey.PkToken.Token.{PkToken}
use openpubkey.Verifier.{
  CosignerVerifier, Verifier, Reader, is_none, found, no_strict, issuer, verify_signed_by,
  verify_cosigners,
}

pub found-eq-ok {ℓ} :
    {A : Type ℓ} (e : String) (o : Option A) {a : A} → found e o ≡ ok a → o ≡ some a
found-eq-ok e none h = cc h
found-eq-ok e (some x) h = cc h

-- no verifier of the list is strict, except those of the issuer
abbrev pub IsLax : Option Bytes → Bytes × CosignerVerifier → Type 0
IsLax none (i, w) = w.strict ≡ false
IsLax (some issuer) (i, w) = w.strict ≡ true → w.issuer ≡ issuer

not_strict_iff : (strict : Bool) → (not strict ≡ true) ↔ (strict ≡ false)
not_strict_iff strict = ground arith

not_strict_or_iff :
    (strict : Bool) (i j : Bytes) → ((not strict || eqb i j) ≡ true) ↔ (strict ≡ true → i ≡ j)
not_strict_or_iff strict i j = ground (arith, eqb_iff i j)

pub no_strict_iff :
    (present : Option Bytes) (ws : List (Bytes × CosignerVerifier))
    → (no_strict present ws ≡ ok tt) ↔ All (IsLax present) ws
unfolding no_strict
no_strict_iff present [] = (λ h. tt, λ h. refl)
no_strict_iff none ((i, w) ∷ ws) = (
  λ h.
      let (_, lax, h1) = bind-eq-ok (require (not w.strict) _) _ h in
      ((not_strict_iff _).0 (require-eq-ok _ _ lax), (no_strict_iff none ws).0 h1),
  λ (lax, rest). rw ((not_strict_iff _).1 lax) ((no_strict_iff none ws).1 rest),
)
no_strict_iff (some issuer) ((i, w) ∷ ws) = (
  λ h.
      let (_, lax, h1) = bind-eq-ok (require (not w.strict || eqb w.issuer issuer) _) _ h in
      ((not_strict_or_iff _ _ _).0 (require-eq-ok _ _ lax), (no_strict_iff (some issuer) ws).0 h1),
  λ (lax, rest). rw ((not_strict_or_iff _ _ _).1 lax) ((no_strict_iff (some issuer) ws).1 rest),
)

ltb_zero : (n : ℕ) → ltb 0 (suc n) ≡ true
ltb_zero n = ground arith

cosigned_iff :
    (ws : List (Bytes × CosignerVerifier)) (cos : Option JwsSignature) (signed : Result (Unit {0}))
    (P : Type 0)
    → (signed ≡ ok tt) ↔ P
    → ((if ltb 0 (length ws) then (if is_none cos then no_strict none ws else signed) else ok tt)
        ≡ ok tt)
      ↔ ((cos ≡ none → All (IsLax none) ws) × ((s : JwsSignature) → cos ≡ some s → ws ≢ [] → P))
cosigned_iff [] cos signed P iff = (λ h. (λ _. tt, λ s _ given. absurd (given refl)), λ _. refl)
cosigned_iff (w ∷ ws) none signed P iff = (
  λ h.
      (λ _. (no_strict_iff none (w ∷ ws)).0 (rw (ltb_zero (length ws)) at h), λ s e. absurd (cc e)),
  λ (lax, _). rw (ltb_zero (length ws)) ((no_strict_iff none (w ∷ ws)).1 (lax refl)),
)
cosigned_iff (w ∷ ws) (some s) signed P iff = (
  λ h. (λ e. absurd (cc e), λ _ _ _. iff.0 (rw (ltb_zero (length ws)) at h)),
  λ (_, f). rw (ltb_zero (length ws)) (iff.1 (f s refl (λ e. cc e))),
)

module _ {Key Signer : Type 0} (r : Reader Key Signer) where
  -- The cosigner of the signature is one of the verifier's, which accepts it, and no other is strict.
  pub record IsCosigned (v : Verifier Key) (p : PkToken) : Type 0 where
    pub claims : CosignerClaims
    pub read : parse_cosigner_claims r.cosigner_claims p ≡ ok claims
    pub cosigner : CosignerVerifier
    pub known : lookup claims.issuer v.cosigners ≡ some cosigner
    pub accepted : cosigner.verify_cosigner p ≡ ok tt
    pub others : All (IsLax (some claims.issuer)) v.cosigners

  verify_signed_by_iff :
      (v : Verifier Key) (p : PkToken) → (verify_signed_by r v p ≡ ok tt) ↔ IsCosigned v p
  unfolding verify_signed_by
  verify_signed_by_iff v p = (
    λ h.
        let (claims, read, h1) = bind-eq-ok (parse_cosigner_claims r.cosigner_claims p) _ h in
        let (w, known, h2) = bind-eq-ok (found _ (lookup claims.issuer v.cosigners)) _ h1 in
        let (_, accepted, h3) = bind-eq-ok (w.verify_cosigner p) _ h2 in
        record {
          claims = claims;
          read = read;
          cosigner = w;
          known = found-eq-ok _ _ known;
          accepted = accepted;
          others = (no_strict_iff (some claims.issuer) v.cosigners).0 h3;
        },
    λ c. bind_ok (parse_cosigner_claims r.cosigner_claims p) _ c.read (
        bind_ok (found _ (lookup c.claims.issuer v.cosigners)) _ (ap (found _) c.known) (
          bind_ok (c.cosigner.verify_cosigner p) _ c.accepted
            ((no_strict_iff (some c.claims.issuer) v.cosigners).1 c.others))),
  )

  pub verify_cosigners_iff :
      (v : Verifier Key) (p : PkToken)
      → (verify_cosigners r v p ≡ ok tt) ↔ (
          (p.cos ≡ none → All (IsLax none) v.cosigners)
          × ((s : JwsSignature) → p.cos ≡ some s → v.cosigners ≢ [] → IsCosigned v p))
  unfolding verify_cosigners
  verify_cosigners_iff v p = cosigned_iff v.cosigners p.cos _ _ (verify_signed_by_iff v p)
