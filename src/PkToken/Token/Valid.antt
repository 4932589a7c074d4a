-- ===== src/PkToken/Token/Valid.antt =====
-- What holds of a PK Token that is built by adding signatures.
use openpubkey.Base.{
  continue-keeps, ok, require-eq-ok, ◌≡◌, ◌≢◌, refl, sym, ap, List, [], ◌∷◌, arith, Option, none,
  some, Bool-cases, Option-cases, inl, inr, ◌⊎◌,
}
use mathlib.Core.Path.{subst}
use openpubkey.Base.Bytes.{content, Bytes, str, eqb, eqb_iff}
use openpubkey.Oidc.Claims.{Any, text, items, algorithm, other}
use openpubkey.PkToken.SignatureType
use openpubkey.PkToken.Jwx.{Headers, JwsSignature, Message, Jwx, first_signature}
use openpubkey.PkToken.Token.{
  PkToken, empty_pk_token, store_payload, typ_is, check_typ, store_signature, add_message,
  add_signature,
}

-- The `typ` header of the signature is this text.
abbrev pub HasTypHeader : Bytes → JwsSignature → Type 0
HasTypHeader typ s = s.protected.get (str "typ") ≡ some (text typ)

abbrev AnyHeader : JwsSignature → Type 0
AnyHeader s = Unit

typ_is-eq-ok :
    (sig_type : Bytes) (found : Option Any) {u : Unit {0}}
    → typ_is sig_type found ≡ ok u
    → found ≡ some (text sig_type)
typ_is-eq-ok sig_type none h = cc h
typ_is-eq-ok sig_type (some (text t)) h =
    ap (λ b. some (text b)) ((eqb_iff t sig_type).0 (require-eq-ok _ _ h))
typ_is-eq-ok sig_type (some (items l)) h = cc h
typ_is-eq-ok sig_type (some (algorithm a)) h = cc h
typ_is-eq-ok sig_type (some (other json)) h = cc h

first_signature-eq-ok :
    (l : List JwsSignature) (s : JwsSignature)
    → first_signature l ≡ ok s
    → (rest : List JwsSignature) × (l ≡ s ∷ rest)
first_signature-eq-ok [] s h = cc h
first_signature-eq-ok (t ∷ rest) s h = (rest, cc h)

module _ {Key : Type 0} (jwx : Jwx Key) where
  -- A slot of a PK Token is empty, or it holds a token and the first signature of that token, the
  -- token's payload is that of the PK Token, and the signature satisfies the predicate.
  abbrev pub IsSlot :
      (JwsSignature → Type 0) → Option Bytes → Option Bytes → Option JwsSignature → Type 0
  IsSlot P payload none none = Unit
  IsSlot P payload none (some s) = ⊥
  IsSlot P payload (some token) none = ⊥
  IsSlot P none (some token) (some s) = ⊥
  IsSlot P (some payload) (some token) (some s) =
      P s
      × ((m : Message) × (rest : List JwsSignature) × (jwx.parse token ≡ ok m)
          × (m.signatures ≡ s ∷ rest)
          × (content m.payload ≡ payload))

  pub record IsConsistent (p : PkToken) : Type 0 where
    pub op : IsSlot AnyHeader p.payload p.op_token p.op
    pub cic : IsSlot (HasTypHeader SignatureType.cic) p.payload p.cic_token p.cic
    pub cos : IsSlot (HasTypHeader SignatureType.cos) p.payload p.cos_token p.cos

  pub IsConsistent-empty : IsConsistent empty_pk_token
  IsConsistent-empty = record { op = tt; cic = tt; cos = tt }

  -- A slot that is filled has a payload, so it is not disturbed by a first one.
  IsSlot-first :
      (P : JwsSignature → Type 0) (new token : Option Bytes) (s : Option JwsSignature)
      → IsSlot P none token s
      → IsSlot P new token s
  IsSlot-first P new none none h = tt
  IsSlot-first P new none (some s) h = h
  IsSlot-first P new (some token) none h = absurd h
  IsSlot-first P new (some token) (some s) h = absurd h

  store_payload-IsConsistent :
      (old new : Option Bytes) (p : PkToken)
      → p.payload ≡ old
      → IsConsistent p
      → IsConsistent (store_payload old new p).1
  unfolding store_payload
  store_payload-IsConsistent none new p e i =
      let first =
        λ (P : JwsSignature → Type 0) (token : Option Bytes) (s : Option JwsSignature)
            (h : IsSlot P p.payload token s).
          IsSlot-first P new token s (subst (λ payload. IsSlot P payload token s) e h) in
      record {
        op = first AnyHeader p.op_token p.op i.op;
        cic = first (HasTypHeader SignatureType.cic) p.cic_token p.cic i.cic;
        cos = first (HasTypHeader SignatureType.cos) p.cos_token p.cos i.cos;
      }
  store_payload-IsConsistent (some old) new p e i = i

  IsSlot-typ :
      (P : JwsSignature → Type 0) (payload : Option Bytes) (token : Bytes) (s : JwsSignature)
      → P s
      → IsSlot AnyHeader payload (some token) (some s)
      → IsSlot P payload (some token) (some s)
  IsSlot-typ P none token s q h = h
  IsSlot-typ P (some payload) token s q (_, h) = (q, h)

  check_typ-eq-ok :
      (sig_type : Bytes) (protected : Headers) {u : Unit {0}}
      → check_typ sig_type protected ≡ ok u
      → (sig_type ≡ SignatureType.cic) ⊎ (sig_type ≡ SignatureType.cos)
      → protected.get (str "typ") ≡ some (text sig_type)
  unfolding check_typ
  check_typ-eq-ok sig_type protected h t = ground (
    arith,
    eqb_iff sig_type SignatureType.cic,
    eqb_iff sig_type SignatureType.cos,
    typ_is-eq-ok sig_type (protected.get (str "typ")),
  )

  store_signature-IsConsistent :
      (sig_type token : Bytes) (s : JwsSignature) (p : PkToken)
      → check_typ sig_type s.protected ≡ ok tt
      → IsSlot AnyHeader p.payload (some token) (some s)
      → IsConsistent p
      → IsConsistent (store_signature sig_type s token p).1
  unfolding store_signature
  store_signature-IsConsistent sig_type token s p c h i =
      elim (Bool-cases (eqb sig_type SignatureType.oidc)) [
        | inl oidc ↦ rw oidc (record { op = h; cic = i.cic; cos = i.cos })
        | inr not_oidc ↦ elim (Bool-cases (eqb sig_type SignatureType.cic)) [
          | inl cic ↦
              let eq = (eqb_iff sig_type SignatureType.cic).0 cic in
              let typ = check_typ-eq-ok sig_type s.protected c (inl eq) in
              rw (not_oidc, cic)
                (record {
                  op = i.op;
                  cic =
                      IsSlot-typ (HasTypHeader SignatureType.cic) p.payload token s
                        (subst (λ t. HasTypHeader t s) eq typ) h;
                  cos = i.cos;
                })
          | inr not_cic ↦ elim (Bool-cases (eqb sig_type SignatureType.cos)) [
            | inl cos ↦
                let eq = (eqb_iff sig_type SignatureType.cos).0 cos in
                let typ = check_typ-eq-ok sig_type s.protected c (inr eq) in
                rw (not_oidc, not_cic, cos)
                  (record {
                    op = i.op;
                    cic = i.cic;
                    cos =
                        IsSlot-typ (HasTypHeader SignatureType.cos) p.payload token s
                          (subst (λ t. HasTypHeader t s) eq typ) h;
                  })
            | inr not_cos ↦ rw (not_oidc, not_cic, not_cos) i
          ]
        ]
      ]

  -- what a token that has passed the test on the payload fills a slot with
  store_payload-IsSlot :
      (old : Option Bytes) (m : Message) (p : PkToken) (token : Bytes) (s : JwsSignature)
      (rest : List JwsSignature)
      → p.payload ≡ old
      → (store_payload old m.payload p).0 ≡ ok tt
      → m.payload ≢ none
      → jwx.parse token ≡ ok m
      → m.signatures ≡ s ∷ rest
      → IsSlot AnyHeader (store_payload old m.payload p).1.payload (some token) (some s)
  unfolding store_payload
  store_payload-IsSlot none m p token s rest e h filled parsed sigs =
      elim (Option-cases m.payload) [
        | inl nil ↦ absurd (filled nil)
        | inr (b, eq) ↦
            subst (λ payload. IsSlot AnyHeader payload (some token) (some s)) (sym eq)
              (tt, (m, rest, parsed, sigs, ap content eq))
      ]
  store_payload-IsSlot (some old) m p token s rest e h filled parsed sigs =
      subst (λ payload. IsSlot AnyHeader payload (some token) (some s)) (sym e)
        (
          tt,
          (m, rest, parsed, sigs, sym ((eqb_iff old (content m.payload)).0 (require-eq-ok _ _ h))),
        )

  -- A parsed message has a payload, which may be empty but is not nil.
  pub record IsParser : Type 0 where
    pub has_payload : (token : Bytes) (m : Message) → jwx.parse token ≡ ok m → m.payload ≢ none

  add_message-IsConsistent :
      (token sig_type : Bytes) (m : Message) (p : PkToken)
      → IsParser
      → jwx.parse token ≡ ok m
      → IsConsistent p
      → IsConsistent (add_message jwx token sig_type m p).1
  unfolding add_message
  add_message-IsConsistent token sig_type m p parser parsed i =
      let filled = parser.has_payload token m parsed in
      let p1 = (store_payload p.payload m.payload p).1 in
      continue-keeps IsConsistent (store_payload p.payload m.payload p) _
        (store_payload-IsConsistent p.payload m.payload p refl i)
        λ _ stored i1.
          continue-keeps IsConsistent (first_signature m.signatures, p1) _ i1
            λ s found i2.
              continue-keeps IsConsistent (check_typ sig_type s.protected, p1) _ i2
                λ _ checked i3.
                  let (rest, sigs) = first_signature-eq-ok m.signatures s found in
                  store_signature-IsConsistent sig_type token s p1 checked
                    (store_payload-IsSlot p.payload m p token s rest refl stored filled parsed sigs)
                    i3

  pub add_signature-IsConsistent :
      (token sig_type : Bytes) (p : PkToken)
      → IsParser
      → IsConsistent p
      → IsConsistent (add_signature jwx token sig_type p).1
  unfolding add_signature
  add_signature-IsConsistent token sig_type p parser i =
      continue-keeps IsConsistent (jwx.parse token, p) _ i
        λ m parsed i0. add_message-IsConsistent token sig_type m p parser parsed i0
