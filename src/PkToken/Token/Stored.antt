-- ===== src/PkToken/Token/Stored.antt =====
-- The tokens that are in a PK Token after an addition, and those of a new one.
use openpubkey.Base.{
  Result, ok, continue-eq-ok, ◌≡◌, refl, sym, ◌∙◌, ap, arith, Option, none, some, if◌then◌else◌,
}
use mathlib.Core.Path.{subst}
use openpubkey.Base.Bytes.{Bytes, eqb, eqb_iff}
use openpubkey.PkToken.SignatureType
use openpubkey.PkToken.Jwx.{JwsSignature, Jwx, first_signature}
use openpubkey.PkToken.Token.{
  PkToken, empty_pk_token, store_payload, check_typ, store_signature, add_message, add_signature,
  new_pk_token,
}
use openpubkey.PkToken.Token.Valid.{
  IsConsistent, IsConsistent-empty, IsParser, add_signature-IsConsistent,
}

module _ {Key : Type 0} (jwx : Jwx Key) where
  -- the tokens that a type selects
  abbrev IsStored : Bytes → Bytes → PkToken → PkToken → Type 0
  IsStored token sig_type p q =
      (q.op_token ≡ (if eqb sig_type SignatureType.oidc then some token else p.op_token))
      × (q.cic_token ≡ (if eqb sig_type SignatureType.cic then some token else p.cic_token))
      × (q.cos_token ≡ (if eqb sig_type SignatureType.cos then some token else p.cos_token))

  store_signature-IsStored :
      (sig_type token : Bytes) (s : JwsSignature) (p : PkToken)
      → (store_signature sig_type s token p).0 ≡ ok tt
      → IsStored token sig_type p (store_signature sig_type s token p).1
  unfolding store_signature
  store_signature-IsStored sig_type token s p h = ground (
    arith,
    eqb_iff sig_type SignatureType.oidc,
    eqb_iff sig_type SignatureType.cic,
    eqb_iff sig_type SignatureType.cos,
  )

  store_payload-tokens :
      (old new : Option Bytes) (p : PkToken)
      → ((store_payload old new p).1.op_token ≡ p.op_token)
        × ((store_payload old new p).1.cic_token ≡ p.cic_token)
        × ((store_payload old new p).1.cos_token ≡ p.cos_token)
  unfolding store_payload
  store_payload-tokens none new p = (refl, refl, refl)
  store_payload-tokens (some old) new p = (refl, refl, refl)

  pub add_signature-IsStored :
      (token sig_type : Bytes) (p : PkToken)
      → (add_signature jwx token sig_type p).0 ≡ ok tt
      → IsStored token sig_type p (add_signature jwx token sig_type p).1
  unfolding add_signature add_message
  add_signature-IsStored token sig_type p h =
      let stored = λ (x : Result (Unit {0}) × PkToken). IsStored token sig_type p x.1 in
      let (m, _, e0) = continue-eq-ok (jwx.parse token, p) _ h in
      let first = store_payload p.payload m.payload p in
      let p1 = first.1 in
      let (_, _, e1) = continue-eq-ok first _ (ap (λ x. x.0) (sym e0) ∙ h) in
      let (s, _, e2) =
        continue-eq-ok (first_signature m.signatures, p1) _ (ap (λ x. x.0) (sym (e0 ∙ e1)) ∙ h) in
      let (_, _, e3) =
        continue-eq-ok (check_typ sig_type s.protected, p1) _
          (ap (λ x. x.0) (sym (e0 ∙ e1 ∙ e2)) ∙ h) in
      let (t1, t2, t3) = store_payload-tokens p.payload m.payload p in
      let (o, i, c) =
        store_signature-IsStored sig_type token s p1
          (ap (λ x. x.0) (sym (e0 ∙ e1 ∙ e2 ∙ e3)) ∙ h) in
      subst stored (sym (e0 ∙ e1 ∙ e2 ∙ e3)) (
        o ∙ ap (λ t. if eqb sig_type SignatureType.oidc then some token else t) t1,
        i ∙ ap (λ t. if eqb sig_type SignatureType.cic then some token else t) t2,
        c ∙ ap (λ t. if eqb sig_type SignatureType.cos then some token else t) t3,
      )

  -- A new PK Token is consistent, and it holds the two tokens it was made from and no cosigner's.
  -- The parser is one whose messages have a payload.
  pub new_pk_token-IsConsistent :
      (id_token cic_token : Bytes) (p : PkToken)
      → IsParser jwx
      → new_pk_token jwx id_token cic_token ≡ ok p
      → IsConsistent jwx p
        × (p.op_token ≡ some id_token)
        × (p.cic_token ≡ some cic_token)
        × (p.cos_token ≡ none)
  unfolding new_pk_token eqb
  new_pk_token-IsConsistent id_token cic_token p parser h =
      let first = add_signature jwx id_token SignatureType.oidc empty_pk_token in
      let second = add_signature jwx cic_token SignatureType.cic first.1 in
      let (_, ok1, e1) = continue-eq-ok first _ h in
      let (_, ok2, e2) = continue-eq-ok second (λ _ q. (ok q, q)) (ap (λ x. x.0) (sym e1) ∙ h) in
      let eq : second.1 ≡ p = cc (ap (λ x. x.0) (e1 ∙ e2), h) in
      let c1 =
        add_signature-IsConsistent jwx id_token SignatureType.oidc empty_pk_token parser
          (IsConsistent-empty jwx) in
      let (o1, i1, s1) = add_signature-IsStored id_token SignatureType.oidc empty_pk_token ok1 in
      let (o2, i2, s2) = add_signature-IsStored cic_token SignatureType.cic first.1 ok2 in
      subst
        (λ q.
          IsConsistent jwx q
          × (q.op_token ≡ some id_token)
          × (q.cic_token ≡ some cic_token)
          × (q.cos_token ≡ none))
        eq
        (
          add_signature-IsConsistent jwx cic_token SignatureType.cic first.1 parser c1,
          o2 ∙ o1,
          i2,
          s2 ∙ s1,
        )
