-- ===== src/Discover/Laws.antt =====
-- What is known of a public key that was found.
use openpubkey.Base.{
  ok_inj, String, ok, require, wrap_err, bind-eq-ok, wrap_err-eq-ok, require-eq-ok, ◌≡◌, refl, [],
  arith, Option, none, some, true, if◌then◌else◌, Bool-cases, inl, inr, ◌⊎◌,
}
use mathlib.Core.Path.{subst}
use openpubkey.Base.Bytes.{Bytes, eqb, eqb_iff}
use openpubkey.Discover.{
  Jwk, JwkSet, PublicKeyRecord, PublicKeyFinder, rs256, es256, supported, record_of,
  new_public_key_record, fetch_and_parse_jwks, by_key_id,
}

-- The record of a key that is listed: its issuer, its key, and its algorithm, which is RS256 where
-- none is given, and otherwise RS256 or ES256.
pub record IsRecordOf (r : PublicKeyRecord) (issuer : Bytes) (key : Jwk) : Type 0 where
  pub issued : r.issuer ≡ issuer
  pub raw : key.raw ≡ ok r.public_key
  pub alg :
      ((key.algorithm ≡ []) × (r.alg ≡ rs256))
      ⊎ ((r.alg ≡ key.algorithm) × ((r.alg ≡ rs256) ⊎ (r.alg ≡ es256)))

supported-cases :
    (alg : Bytes)
    → supported alg ≡ true
    → ((alg ≡ []) × ((if eqb alg [] then rs256 else alg) ≡ rs256))
      ⊎ (((if eqb alg [] then rs256 else alg) ≡ alg)
          × (((if eqb alg [] then rs256 else alg) ≡ rs256)
              ⊎ ((if eqb alg [] then rs256 else alg) ≡ es256)))
supported-cases alg h = elim (Bool-cases (eqb alg [])) [
  | inl e ↦ rw e (inl ((eqb_iff alg []).0 e, refl))
  | inr e ↦
      let cases : (alg ≡ rs256) ⊎ (alg ≡ es256) =
        ground (arith, eqb_iff alg rs256, eqb_iff alg es256, h, e) in
      rw e (inr (refl, cases))
]

new_public_key_record-eq-ok :
    (key : Jwk) (issuer : Bytes) (r : PublicKeyRecord)
    → new_public_key_record key issuer ≡ ok r
    → IsRecordOf r issuer key
unfolding new_public_key_record
new_public_key_record-eq-ok key issuer r h =
    let (_, known, h1) = bind-eq-ok (require (supported key.algorithm) _) _ h in
    let (public_key, raw, h2) = bind-eq-ok (wrap_err _ key.raw) _ h1 in
    subst (λ q. IsRecordOf q issuer key) (ok_inj h2)
      (record {
        issued = refl;
        raw = wrap_err-eq-ok _ _ raw;
        alg = supported-cases key.algorithm (require-eq-ok _ _ known);
      })

record_of-eq-ok :
    (issuer : Bytes) (e : String) (o : Option Jwk) (r : PublicKeyRecord)
    → record_of issuer e o ≡ ok r
    → (key : Jwk) × (o ≡ some key) × IsRecordOf r issuer key
record_of-eq-ok issuer e none r h = absurd (cc h)
record_of-eq-ok issuer e (some key) r h = (key, refl, new_public_key_record-eq-ok key issuer r h)

-- A key that is found by its identifier is the one that the issuer's set lists under it, with its
-- algorithm, which is RS256 or ES256.
pub by_key_id-IsRecordOf :
    (f : PublicKeyFinder) (issuer key_id : Bytes) (r : PublicKeyRecord)
    → by_key_id f issuer key_id ≡ ok r
    → (jwks : JwkSet) × (key : Jwk) × (fetch_and_parse_jwks f issuer ≡ ok jwks)
      × (jwks.lookup_key_id key_id ≡ some key)
      × IsRecordOf r issuer key
unfolding by_key_id
by_key_id-IsRecordOf f issuer key_id r h =
    let (jwks, fetched, h1) = bind-eq-ok (wrap_err _ (fetch_and_parse_jwks f issuer)) _ h in
    let (key, listed, i) = record_of-eq-ok issuer _ (jwks.lookup_key_id key_id) r h1 in
    (jwks, key, wrap_err-eq-ok _ _ fetched, listed, i)
