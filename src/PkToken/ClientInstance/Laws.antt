-- ===== src/PkToken/ClientInstance/Laws.antt =====
-- What the claims of a client say, and that they are read back from headers.
use openpubkey.Base.{
  required, required-eq-ok, ok_inj, ok, require, wrap_err, bind-eq-ok, bind_ok, require-eq-ok, ◌≡◌,
  refl, sym, ◌∙◌, ap, List, [], some, true, not, ◌↔◌,
}
use openpubkey.Base.Bytes.{Bytes, str, eqb, eqb_iff, eqb_refl}
use openpubkey.Base.Assoc.{lookup, lookup-insert, lookup-insert_other}
use openpubkey.Oidc.Claims.{Any, text, items, algorithm, other}
use openpubkey.PkToken.Jwx.{Jwx}
use openpubkey.PkToken.ClientInstance.{
  Claims, Crypto, no_reserved, reserved_names, is_algorithm, with_required, generate_rand,
  new_claims, parse_claims,
}

is_algorithm_iff : (alg : Bytes) (v : Any) → (is_algorithm alg v ≡ true) ↔ (v ≡ algorithm alg)
is_algorithm_iff alg (text t) = (λ h. cc h, λ h. cc h)
is_algorithm_iff alg (items l) = (λ h. cc h, λ h. cc h)
is_algorithm_iff alg (algorithm a) =
    (λ h. ap algorithm ((eqb_iff a alg).0 h), λ h. (eqb_iff a alg).1 (cc h))
is_algorithm_iff alg (other json) = (λ h. cc h, λ h. cc h)

module _ {Key Signer : Type 0} (jwx : Jwx Key) (crypto : Crypto Key Signer) where
  -- the headers hold a random value, a key, and the algorithm of that key
  pub record HasClaims (protected : List (Bytes × Any)) (key : Key) : Type 0 where
    pub rz : Any
    pub rz_given : lookup (str "rz") protected ≡ some rz
    pub upk : Any
    pub upk_given : lookup (str "upk") protected ≡ some upk
    pub upk_key : jwx.key_of upk ≡ ok key
    pub alg_given : lookup (str "alg") protected ≡ some (algorithm (jwx.key_algorithm key))

  parse_claims_iff :
      (protected : List (Bytes × Any)) (key : Key)
      → (parse_claims jwx crypto protected
          ≡ ok (record { public_key = key; protected = protected }))
        ↔ HasClaims protected key
  unfolding parse_claims
  parse_claims_iff protected key = (
    λ h.
        let (rz, rz_given, h1) = bind-eq-ok (required _ (lookup (str "rz") protected)) _ h in
        let (upk, upk_given, h2) = bind-eq-ok (required _ (lookup (str "upk") protected)) _ h1 in
        let (k, upk_key, h3) = bind-eq-ok (jwx.key_of upk) _ h2 in
        let (alg, alg_given, h4) = bind-eq-ok (required _ (lookup (str "alg") protected)) _ h3 in
        let (_, same, h5) = bind-eq-ok (require (is_algorithm (jwx.key_algorithm k) alg) _) _ h4 in
        let key_eq : k ≡ key = ap (λ (c : Claims Key). c.public_key) (ok_inj h5) in
        record {
          rz = rz;
          rz_given = required-eq-ok _ _ rz_given;
          upk = upk;
          upk_given = required-eq-ok _ _ upk_given;
          upk_key = upk_key ∙ ap ok key_eq;
          alg_given =
              required-eq-ok _ _ alg_given
              ∙ ap some (
                  (is_algorithm_iff _ _).0 (require-eq-ok _ _ same)
                  ∙ ap (λ x. algorithm (jwx.key_algorithm x)) key_eq);
        },
    λ c. bind_ok (required _ (lookup (str "rz") protected)) _ (ap (required _) c.rz_given) (
        bind_ok (required _ (lookup (str "upk") protected)) _ (ap (required _) c.upk_given) (
          bind_ok (jwx.key_of c.upk) _ c.upk_key (
            bind_ok (required _ (lookup (str "alg") protected)) _ (ap (required _) c.alg_given)
              (rw (eqb_refl (jwx.key_algorithm key)) refl)))),
  )

  -- what `NewClaims` puts under the three names that `ParseClaims` reads
  required_given :
      (key : Key) (rz : Bytes) (claims : List (Bytes × Any))
      → (lookup (str "rz") (with_required jwx crypto key rz claims) ≡ some (text rz))
        × (lookup (str "upk") (with_required jwx crypto key rz claims)
            ≡ some (crypto.key_value key))
  unfolding eqb
  required_given key rz claims = (
    lookup-insert (str "rz") (text rz) _,
    lookup-insert_other (str "upk") (str "rz") (text rz) _ refl
        ∙ lookup-insert (str "upk") (crypto.key_value key) _,
  )

  -- The claims that are made for a key are read back, with that key, from headers that hold the same
  -- random value and key, and the algorithm as the library's. The value of a key stands for it.
  pub parse_claims-new_claims :
      (key : Key) (claims headers : List (Bytes × Any)) (c : Claims Key)
      → new_claims jwx crypto key claims ≡ ok c
      → lookup (str "rz") headers ≡ lookup (str "rz") c.protected
      → lookup (str "upk") headers ≡ lookup (str "upk") c.protected
      → lookup (str "alg") headers ≡ some (algorithm (jwx.key_algorithm key))
      → jwx.key_of (crypto.key_value key) ≡ ok key
      → parse_claims jwx crypto headers ≡ ok (record { public_key = key; protected = headers })
  unfolding new_claims
  parse_claims-new_claims key claims headers c h same_rz same_upk alg stands =
      let (_, _, h1) = bind-eq-ok (require (not (eqb (jwx.key_algorithm key) [])) _) _ h in
      let (_, _, h2) = bind-eq-ok (no_reserved reserved_names claims) _ h1 in
      let (rz, _, h3) = bind-eq-ok (wrap_err _ (generate_rand jwx crypto)) _ h2 in
      let made : with_required jwx crypto key rz claims ≡ c.protected =
        ap (λ (d : Claims Key). d.protected) (ok_inj h3) in
      let (rz_given, upk_given) = required_given key rz claims in
      (parse_claims_iff headers key).1 (record {
        rz = text rz;
        rz_given = same_rz ∙ ap (lookup (str "rz")) (sym made) ∙ rz_given;
        upk = crypto.key_value key;
        upk_given = same_upk ∙ ap (lookup (str "upk")) (sym made) ∙ upk_given;
        upk_key = stands;
        alg_given = alg;
      })
