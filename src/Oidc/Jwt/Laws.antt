-- ===== src/Oidc/Jwt/Laws.antt =====
-- What an accepted comparison of two tokens says of their claims.
use openpubkey.Base.{ok, require, bind-eq-ok, require-eq-ok, ◌≡◌, Option, none, some, ◌↔◌}
use openpubkey.Base.Int.{ltz_false, ◌<ℤ◌}
use openpubkey.Base.Bytes.{Bytes, eqb, eqb_iff}
use openpubkey.Oidc.Claims.{OidcClaims, Json}
use openpubkey.Oidc.Jwt.{Jwt, deref, new_jwt, same_identity, require_older}

pub deref-eq-ok {ℓ} : {A : Type ℓ} (o : Option A) {a : A} → deref o ≡ ok a → o ≡ some a
deref-eq-ok none h = cc
deref-eq-ok (some x) h = cc

module _ (json : Json) where
  -- the token parses, and its payload holds these claims
  abbrev pub HasClaims : Bytes → OidcClaims → Type 0
  HasClaims token c = (t : Jwt) × (new_jwt json token ≡ ok t) × (t.payload_claims ≡ some c)

  -- Two tokens are accepted as of one identity exactly if both parse to claims with the same issuer
  -- and the same subject.
  pub same_identity_iff :
      (t1 t2 : Bytes)
      → (same_identity json t1 t2 ≡ ok tt) ↔ (
          (c1 c2 : OidcClaims) × HasClaims t1 c1
          × HasClaims t2 c2
          × (c1.issuer ≡ c2.issuer)
          × (c1.subject ≡ c2.subject))
  unfolding same_identity
  same_identity_iff t1 t2 = (
    λ h.
        let (a, ea, h1) = bind-eq-ok (new_jwt json t1) _ h in
        let (b, eb, h2) = bind-eq-ok (new_jwt json t2) _ h1 in
        let (c1, d1, h3) = bind-eq-ok (deref a.payload_claims) _ h2 in
        let (c2, d2, h4) = bind-eq-ok (deref b.payload_claims) _ h3 in
        let (u, iss, h5) = bind-eq-ok (require (eqb c1.issuer c2.issuer) _) _ h4 in
        (
          c1,
          c2,
          (a, ea, deref-eq-ok _ d1),
          (b, eb, deref-eq-ok _ d2),
          (eqb_iff _ _).0 (require-eq-ok _ _ iss),
          (eqb_iff _ _).0 (require-eq-ok _ _ h5),
        ),
    λ (c1, c2, (a, ea, d1), (b, eb, d2), iss, sub).
        rw (ea, eb, d1, d2, (eqb_iff _ _).1 iss, (eqb_iff _ _).1 sub),
  )

  -- A refreshed token is accepted as not older exactly if both tokens parse to claims, and the first
  -- was not issued after the second.
  pub require_older_iff :
      (t1 t2 : Bytes)
      → (require_older json t1 t2 ≡ ok tt) ↔ (
          (c1 c2 : OidcClaims) × HasClaims t1 c1
          × HasClaims t2 c2
          × ¬ (c2.issued_at <ℤ c1.issued_at))
  unfolding require_older
  require_older_iff t1 t2 = (
    λ h.
        let (a, ea, h1) = bind-eq-ok (new_jwt json t1) _ h in
        let (b, eb, h2) = bind-eq-ok (new_jwt json t2) _ h1 in
        let (c1, d1, h3) = bind-eq-ok (deref a.payload_claims) _ h2 in
        let (c2, d2, h4) = bind-eq-ok (deref b.payload_claims) _ h3 in
        (
          c1,
          c2,
          (a, ea, deref-eq-ok _ d1),
          (b, eb, deref-eq-ok _ d2),
          (ltz_false c2.issued_at c1.issued_at).0 (require-eq-ok _ _ h4),
        ),
    λ (c1, c2, (a, ea, d1), (b, eb, d2), old).
        rw (ea, eb, d1, d2, (ltz_false c2.issued_at c1.issued_at).1 old),
  )
