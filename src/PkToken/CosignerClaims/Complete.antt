-- ===== src/PkToken/CosignerClaims/Complete.antt =====
-- What is known of the claims of a cosigner that were accepted.
use openpubkey.Base.{
  zero, suc, Result, ok, require, bind-eq-ok, require-eq-ok, ◌≡◌, ◌≢◌, refl, ◌∙◌, ap, List, [],
  ◌++◌, arith, some, Bool, true, false, ◌==◌, length, length-append, ◌↔◌, ==_iff,
}
use mathlib.Core.Path.{subst}
use openpubkey.Base.Int.{ℤ, pos, negsuc}
use openpubkey.Base.Bytes.{Bytes, str, eqb, empty_iff}
use openpubkey.Oidc.Jwt.{deref}
use openpubkey.Oidc.Jwt.Laws.{deref-eq-ok}
use openpubkey.PkToken.Jwx.{Headers, JwsSignature}
use openpubkey.PkToken.Token.{PkToken}
use openpubkey.PkToken.CosignerClaims.{
  CosignerClaims, missing, missing_if, is_zero, parse_cosigner_claims,
}

pub record IsComplete (c : CosignerClaims) : Type 0 where
  pub issuer : c.issuer ≢ []
  pub key_id : c.key_id ≢ []
  pub algorithm : c.algorithm ≢ []
  pub auth_id : c.auth_id ≢ []
  pub auth_time : c.auth_time ≢ pos 0
  pub issued_at : c.issued_at ≢ pos 0
  pub expiration : c.expiration ≢ pos 0
  pub redirect_uri : c.redirect_uri ≢ []
  pub nonce : c.nonce ≢ []

zero_iff : (n : ℤ) → (is_zero n ≡ false) ↔ (n ≢ pos 0)
zero_iff (pos zero) = (λ h. absurd (cc h), λ h. absurd (h refl))
zero_iff (pos (suc n)) = (λ h e. cc e, λ h. refl)
zero_iff (negsuc n) = (λ h e. cc e, λ h. refl)

nothing_missing :
    (b : Bool) (name : Bytes) (rest : List Bytes)
    → length (missing_if b name ++ rest) ≡ 0
    → (b ≡ false) × (length rest ≡ 0)
nothing_missing true name rest h = cc h
nothing_missing false name rest h = (refl, h)

nothing_missing-IsComplete : (c : CosignerClaims) → length (missing c) ≡ 0 → IsComplete c
unfolding missing
nothing_missing-IsComplete c h =
    let (iss, h1) = nothing_missing _ _ _ h in
    let (kid, h2) = nothing_missing _ _ _ h1 in
    let (alg, h3) = nothing_missing _ _ _ h2 in
    let (eid, h4) = nothing_missing _ _ _ h3 in
    let (auth_time, h5) = nothing_missing _ _ _ h4 in
    let (iat, h6) = nothing_missing _ _ _ h5 in
    let (exp, h7) = nothing_missing _ _ _ h6 in
    let (ruri, h8) = nothing_missing _ _ _ h7 in
    let (nonce, _) =
      nothing_missing (eqb c.nonce []) (str "nonce") []
        (length-append (missing_if (eqb c.nonce []) (str "nonce")) [] ∙ omega (arith, h8)) in
    record {
      issuer = (empty_iff _).0 iss;
      key_id = (empty_iff _).0 kid;
      algorithm = (empty_iff _).0 alg;
      auth_id = (empty_iff _).0 eid;
      auth_time = (zero_iff _).0 auth_time;
      issued_at = (zero_iff _).0 iat;
      expiration = (zero_iff _).0 exp;
      redirect_uri = (empty_iff _).0 ruri;
      nonce = (empty_iff _).0 nonce;
    }

IsComplete-nothing_missing : (c : CosignerClaims) → IsComplete c → missing c ≡ []
unfolding missing
IsComplete-nothing_missing c i =
    rw
      (
        (empty_iff c.issuer).1 i.issuer,
        (empty_iff c.key_id).1 i.key_id,
        (empty_iff c.algorithm).1 i.algorithm,
        (empty_iff c.auth_id).1 i.auth_id,
        (zero_iff c.auth_time).1 i.auth_time,
        (zero_iff c.issued_at).1 i.issued_at,
        (zero_iff c.expiration).1 i.expiration,
        (empty_iff c.redirect_uri).1 i.redirect_uri,
        (empty_iff c.nonce).1 i.nonce,
      )
      refl

-- The claims of a cosigner are read exactly if there is a cosigner's signature, its headers read as
-- claims, and none of the nine required claims is empty or zero; `typ` is not required.
pub parse_cosigner_claims_iff :
    (read : Headers → Result CosignerClaims) (p : PkToken) (c : CosignerClaims)
    → (parse_cosigner_claims read p ≡ ok c)
      ↔ ((s : JwsSignature) × (p.cos ≡ some s) × (read s.protected ≡ ok c) × IsComplete c)
unfolding parse_cosigner_claims
parse_cosigner_claims_iff read p c = (
  λ h.
      let (s, e, h1) = bind-eq-ok (deref p.cos) _ h in
      let (d, r, h2) = bind-eq-ok (read s.protected) _ h1 in
      let (_, m, h3) = bind-eq-ok (require (length (missing d) == 0) _) _ h2 in
      let same : d ≡ c = cc h3 in
      let complete =
        nothing_missing-IsComplete d ((==_iff (length (missing d)) 0).0 (require-eq-ok _ _ m)) in
      (s, deref-eq-ok _ e, r ∙ ap ok same, subst IsComplete same complete),
  λ (s, e, r, i). rw (e, r, IsComplete-nothing_missing c i) refl,
)
