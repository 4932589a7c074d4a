-- ===== src/Verifier/Strict.antt =====
-- What a strict cosigner is sure of.
use openpubkey.Base.{
  Result, ok, ◌≡◌, ◌≢◌, sym, ◌∙◌, ap, List, [], ◌∷◌, none, some, true, Option-cases, inl, inr,
}
use mathlib.Core.Path.{subst}
use openpubkey.Base.Bytes.{Bytes}
use openpubkey.Base.Assoc.{lookup, All-lookup, some_inj}
use openpubkey.PkToken.Token.{PkToken}
use openpubkey.Verifier.{CosignerVerifier, Verifier, Reader, verify_pk_token}
use openpubkey.Verifier.Cosigned.{IsLax, IsCosigned}
use openpubkey.Verifier.Verified.{verify_pk_token_iff}
use openpubkey.Verifier.Adding.{IsKeyed}

lookup_nonempty {ℓ} :
    {A : Type ℓ} (k : Bytes) (m : List (Bytes × A)) {v : A} → lookup k m ≡ some v → m ≢ []
unfolding lookup
lookup_nonempty k [] h = absurd (cc h)
lookup_nonempty k (e ∷ m) h = λ c. cc c

module _ {Key Signer : Type 0} (r : Reader Key Signer) where
  strict_cosigned :
      (v : Verifier Key) (p : PkToken) (i : Bytes) (w : CosignerVerifier)
      → IsKeyed v
      → lookup i v.cosigners ≡ some w
      → w.strict ≡ true
      → IsCosigned r v p
      → w.verify_cosigner p ≡ ok tt
  strict_cosigned v p i w keyed known strict c =
      let own : w.issuer ≡ c.claims.issuer =
        All-lookup (IsLax (some c.claims.issuer)) i v.cosigners c.others known strict in
      let key : i ≡ w.issuer =
        All-lookup (λ (i, w). i ≡ w.issuer) i v.cosigners keyed.cosigners known in
      let same : w ≡ c.cosigner =
        some_inj (sym known ∙ ap (λ k. lookup k v.cosigners) (key ∙ own) ∙ c.known) in
      subst (λ (u : CosignerVerifier). u.verify_cosigner p ≡ ok tt) (sym same) c.accepted

  -- In a verifier with each cosigner under its issuer, a strict cosigner accepts every PK Token that
  -- is accepted.
  pub verify_pk_token-strict :
      (v : Verifier Key) (p : PkToken) (checks : List (Verifier Key → PkToken → Result (Unit {0})))
      (i : Bytes) (w : CosignerVerifier)
      → IsKeyed v
      → lookup i v.cosigners ≡ some w
      → w.strict ≡ true
      → verify_pk_token r v p checks ≡ ok tt
      → w.verify_cosigner p ≡ ok tt
  verify_pk_token-strict v p checks i w keyed known strict h =
      let verified = (verify_pk_token_iff r v p checks).0 h in
      elim (Option-cases p.cos) [
        | inl e ↦
            let lax = All-lookup (IsLax none) i v.cosigners (verified.not_cosigned e) known in
            absurd (cc (strict, lax))
        | inr (s, e) ↦
            strict_cosigned v p i w keyed known strict
              (verified.cosigned s e (lookup_nonempty i v.cosigners known))
      ]
