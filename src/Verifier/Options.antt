-- ===== src/Verifier/Options.antt =====
-- The maps of a verifier that is made with options.
use openpubkey.Base.{
  ok_inj, Result, ok, require, bind-eq-ok, ◌≡◌, refl, sym, ap, List, [], ◌∷◌, some, true, All,
}
use mathlib.Core.Path.{subst}
use openpubkey.Base.Assoc.{lookup, insert, lookup-insert, All-insert}
use openpubkey.Verifier.{
  ProviderVerifier, CosignerVerifier, Verifier, is_none, require_refreshed_id_token,
  with_cosigner_verifiers, add_provider_verifiers, apply_options, new_verifier,
}
use openpubkey.Verifier.Adding.{
  IsKeyed, Extends, IsAdding, Extends-refl, Extends-trans, require_refreshed_id_token-IsAdding,
  with_cosigner_verifiers-IsAdding, add_provider_verifiers-IsAdding,
}

All-mono {ℓ} :
    {A : Type ℓ} (P Q : A → Type 0) (l : List A) → ((a : A) → P a → Q a) → All P l → All Q l
All-mono P Q [] f h = tt
All-mono P Q (a ∷ l) f (h, hs) = (f a h, All-mono P Q l f hs)

module _ {Key : Type 0} where
  -- The three options of the package.
  pub data Made : (Verifier Key → Result (Verifier Key)) → Type 0 where
    refreshed : Made require_refreshed_id_token
    cosigners : (cs : List CosignerVerifier) → Made (with_cosigner_verifiers cs)
    providers : (ps : List (ProviderVerifier Key)) → Made (add_provider_verifiers ps)

  Made-IsAdding : (option : Verifier Key → Result (Verifier Key)) → Made option → IsAdding option
  Made-IsAdding _ refreshed = require_refreshed_id_token-IsAdding
  Made-IsAdding _ (cosigners cs) = with_cosigner_verifiers-IsAdding cs
  Made-IsAdding _ (providers ps) = add_provider_verifiers-IsAdding ps

  -- What the verifier has of an option: every verifier that the option gives is the one of its
  -- issuer, or a refreshed ID Token is required.
  abbrev pub Has :
      {option : Verifier Key → Result (Verifier Key)} → Verifier Key → Made option → Type 0
  Has v refreshed = v.require_refreshed_id_token ≡ true
  Has v (cosigners cs) = All (λ c. lookup c.issuer v.cosigners ≡ some c) cs
  Has v (providers ps) = All (λ p. lookup p.issuer v.providers ≡ some p) ps

  -- The same of every option.
  abbrev pub HasAll :
      (options : List (Verifier Key → Result (Verifier Key)))
      → All Made options
      → Verifier Key
      → Type 0
  HasAll [] made v = Unit {0}
  HasAll (option ∷ options) (made, rest) v = Has v made × HasAll options rest v

  with_cosigner_verifiers-Has :
      (cs : List CosignerVerifier) (v w : Verifier Key)
      → with_cosigner_verifiers cs v ≡ ok w
      → IsKeyed v
      → Has w (cosigners cs)
  unfolding with_cosigner_verifiers
  with_cosigner_verifiers-Has [] v w h k = tt
  with_cosigner_verifiers-Has (c ∷ cs) v w h k =
      let (_, missing, h1) = bind-eq-ok (require (is_none (lookup c.issuer v.cosigners)) _) _ h in
      let u : Verifier Key = record v { cosigners = insert c.issuer c v.cosigners } in
      let keyed : IsKeyed u = record {
        providers = k.providers;
        cosigners = All-insert (λ (i, w). i ≡ w.issuer) c.issuer c v.cosigners refl k.cosigners;
      } in
      let (_, extends) = with_cosigner_verifiers-IsAdding cs u w h1 keyed in
      (
        extends.cosigners c.issuer c (lookup-insert c.issuer c v.cosigners),
        with_cosigner_verifiers-Has cs u w h1 keyed,
      )

  add_provider_verifiers-Has :
      (ps : List (ProviderVerifier Key)) (v w : Verifier Key)
      → add_provider_verifiers ps v ≡ ok w
      → IsKeyed v
      → Has w (providers ps)
  unfolding add_provider_verifiers
  add_provider_verifiers-Has [] v w h k = tt
  add_provider_verifiers-Has (p ∷ ps) v w h k =
      let (_, missing, h1) = bind-eq-ok (require (is_none (lookup p.issuer v.providers)) _) _ h in
      let u : Verifier Key = record v { providers = insert p.issuer p v.providers } in
      let keyed : IsKeyed u = record {
        providers = All-insert (λ (i, w). i ≡ w.issuer) p.issuer p v.providers refl k.providers;
        cosigners = k.cosigners;
      } in
      let (_, extends) = add_provider_verifiers-IsAdding ps u w h1 keyed in
      (
        extends.providers p.issuer p (lookup-insert p.issuer p v.providers),
        add_provider_verifiers-Has ps u w h1 keyed,
      )

  Made-Has :
      (option : Verifier Key → Result (Verifier Key)) (made : Made option) (v w : Verifier Key)
      → option v ≡ ok w
      → IsKeyed v
      → Has w made
  unfolding require_refreshed_id_token
  Made-Has _ refreshed v w h k = sym (ap (λ u. u.require_refreshed_id_token) (ok_inj h))
  Made-Has _ (cosigners cs) v w h k = with_cosigner_verifiers-Has cs v w h k
  Made-Has _ (providers ps) v w h k = add_provider_verifiers-Has ps v w h k

  Has-mono :
      (option : Verifier Key → Result (Verifier Key)) (made : Made option) (v w : Verifier Key)
      → Extends v w
      → Has v made
      → Has w made
  Has-mono _ refreshed v w e h = e.refreshed h
  Has-mono _ (cosigners cs) v w e h = All-mono _ _ cs (λ c. e.cosigners c.issuer c) h
  Has-mono _ (providers ps) v w e h = All-mono _ _ ps (λ p. e.providers p.issuer p) h

  apply_options-HasAll :
      (options : List (Verifier Key → Result (Verifier Key))) (made : All Made options)
      (v w : Verifier Key)
      → apply_options options v ≡ ok w
      → IsKeyed v
      → IsKeyed w × Extends v w × HasAll options made w
  unfolding apply_options
  apply_options-HasAll [] made v w h k =
      subst (λ u. IsKeyed u × Extends v u × Unit {0}) (ok_inj h) (k, Extends-refl v, tt)
  apply_options-HasAll (option ∷ options) (made, rest) v w h k =
      let (u, first, h1) = bind-eq-ok (option v) _ h in
      let (keyed, e1) = Made-IsAdding option made v u first k in
      let (last, e2, all) = apply_options-HasAll options rest u w h1 keyed in
      (
        last,
        Extends-trans v u w e1 e2,
        (Has-mono option made u w e2 (Made-Has option made v u first k), all),
      )

  -- A verifier that is made with the options of the package has each verifier under its issuer. The
  -- one it was made for, and every verifier that an option gives, is still the one of its issuer, so
  -- that no two of them have one issuer unless they are the same; and a refreshed ID Token is required
  -- where an option says so.
  pub new_verifier-IsKeyed :
      (provider : ProviderVerifier Key) (options : List (Verifier Key → Result (Verifier Key)))
      (v : Verifier Key) (made : All Made options)
      → new_verifier provider options ≡ ok v
      → IsKeyed v × (lookup provider.issuer v.providers ≡ some provider) × HasAll options made v
  unfolding new_verifier insert
  new_verifier-IsKeyed provider options v made h =
      let (keyed, extends, all) =
        apply_options-HasAll options made _ v h
          (record { providers = (refl, tt); cosigners = tt }) in
      (
        keyed,
        extends.providers provider.issuer provider (lookup-insert provider.issuer provider []),
        all,
      )
