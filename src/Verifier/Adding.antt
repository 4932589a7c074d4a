-- ===== src/Verifier/Adding.antt =====
-- The options of verifier/verifier.go: what they leave of the maps of a verifier.
use openpubkey.Base.{
  ok_inj, Result, ok, require, bind-eq-ok, require-eq-ok, ◌≡◌, refl, ◌∙◌, ap, List, [], ◌∷◌, some,
  true, All, Bool-cases, inl, inr,
}
use mathlib.Core.Path.{subst}
use openpubkey.Base.Bytes.{Bytes, eqb, eqb_iff}
use openpubkey.Base.Assoc.{lookup, insert, lookup-insert_other, All-insert}
use openpubkey.Verifier.{
  ProviderVerifier, CosignerVerifier, Verifier, is_none, require_refreshed_id_token,
  with_cosigner_verifiers, add_provider_verifiers,
}

-- an insertion under a new key leaves the entries
lookup-insert_new {ℓ} :
    {A : Type ℓ} (i j : Bytes) (w : A) (m : List (Bytes × A)) {p : A}
    → is_none (lookup j m) ≡ true
    → lookup i m ≡ some p
    → lookup i (insert j w m) ≡ some p
lookup-insert_new i j w m {p} missing h = elim (Bool-cases (eqb i j)) [
  | inl e ↦
      let same : lookup j m ≡ some p = subst (λ k. lookup k m ≡ some p) ((eqb_iff i j).0 e) h in
      cc (ap is_none same, missing)
  | inr e ↦ lookup-insert_other i j w m e ∙ h
]

module _ {Key : Type 0} where
  -- Each verifier stands under its issuer.
  pub record IsKeyed (v : Verifier Key) : Type 0 where
    pub providers : All (λ (i, w). i ≡ w.issuer) v.providers
    pub cosigners : All (λ (i, w). i ≡ w.issuer) v.cosigners

  -- Each verifier of the first is in the second under the same issuer.
  pub record Extends (v w : Verifier Key) : Type 0 where
    pub providers :
        (i : Bytes) (p : ProviderVerifier Key)
        → lookup i v.providers ≡ some p
        → lookup i w.providers ≡ some p
    pub cosigners :
        (i : Bytes) (c : CosignerVerifier)
        → lookup i v.cosigners ≡ some c
        → lookup i w.cosigners ≡ some c
    pub refreshed : v.require_refreshed_id_token ≡ true → w.require_refreshed_id_token ≡ true

  -- An option that succeeds adds verifiers under their issuers, and replaces none.
  abbrev pub IsAdding : (Verifier Key → Result (Verifier Key)) → Type 0
  IsAdding option = (v w : Verifier Key) → option v ≡ ok w → IsKeyed v → IsKeyed w × Extends v w

  pub Extends-refl : (v : Verifier Key) → Extends v v
  Extends-refl v = record { providers = λ i p h. h; cosigners = λ i c h. h; refreshed = λ h. h }

  pub Extends-trans : (u v w : Verifier Key) → Extends u v → Extends v w → Extends u w
  Extends-trans u v w a b = record {
    providers = λ i p h. b.providers i p (a.providers i p h);
    cosigners = λ i c h. b.cosigners i c (a.cosigners i c h);
    refreshed = λ h. b.refreshed (a.refreshed h);
  }

  pub require_refreshed_id_token-IsAdding : IsAdding require_refreshed_id_token
  unfolding require_refreshed_id_token
  require_refreshed_id_token-IsAdding v w h k =
      let same : record v { require_refreshed_id_token = true } ≡ w = cc h in
      subst (λ u. IsKeyed u × Extends v u) same
        (
          record { providers = k.providers; cosigners = k.cosigners },
          record { providers = λ i p h. h; cosigners = λ i c h. h; refreshed = λ _. refl },
        )

  pub with_cosigner_verifiers-IsAdding :
      (cs : List CosignerVerifier) → IsAdding (with_cosigner_verifiers cs)
  unfolding with_cosigner_verifiers
  with_cosigner_verifiers-IsAdding [] v w h k =
      subst (λ u. IsKeyed u × Extends v u) (ok_inj h) (k, Extends-refl v)
  with_cosigner_verifiers-IsAdding (c ∷ cs) v w h k =
      let (_, missing, h1) = bind-eq-ok (require (is_none (lookup c.issuer v.cosigners)) _) _ h in
      let u : Verifier Key = record v { cosigners = insert c.issuer c v.cosigners } in
      let keyed : IsKeyed u = record {
        providers = k.providers;
        cosigners = All-insert (λ (i, w). i ≡ w.issuer) c.issuer c v.cosigners refl k.cosigners;
      } in
      let step : Extends v u = record {
        providers = λ i p h. h;
        cosigners =
            λ i d h. lookup-insert_new i c.issuer c v.cosigners (require-eq-ok _ _ missing) h;
        refreshed = λ h. h;
      } in
      let (rest, extends) = with_cosigner_verifiers-IsAdding cs u w h1 keyed in
      (rest, Extends-trans v u w step extends)

  pub add_provider_verifiers-IsAdding :
      (ps : List (ProviderVerifier Key)) → IsAdding (add_provider_verifiers ps)
  unfolding add_provider_verifiers
  add_provider_verifiers-IsAdding [] v w h k =
      subst (λ u. IsKeyed u × Extends v u) (ok_inj h) (k, Extends-refl v)
  add_provider_verifiers-IsAdding (p ∷ ps) v w h k =
      let (_, missing, h1) = bind-eq-ok (require (is_none (lookup p.issuer v.providers)) _) _ h in
      let u : Verifier Key = record v { providers = insert p.issuer p v.providers } in
      let keyed : IsKeyed u = record {
        providers = All-insert (λ (i, w). i ≡ w.issuer) p.issuer p v.providers refl k.providers;
        cosigners = k.cosigners;
      } in
      let step : Extends v u = record {
        providers =
            λ i d h. lookup-insert_new i p.issuer p v.providers (require-eq-ok _ _ missing) h;
        cosigners = λ i c h. h;
        refreshed = λ h. h;
      } in
      let (rest, extends) = add_provider_verifiers-IsAdding ps u w h1 keyed in
      (rest, Extends-trans v u w step extends)
