-- ===== src/PkToken/Serial/Taken.antt =====
-- One round of the loop of `UnmarshalJSON` of pktoken/pktoken.go.
use openpubkey.Base.{
  none, ◌⊎◌, ok_inj, ℕ, ◌+◌, ◌<◌, Result, ok, err, panic, bind-eq-ok, ◌≡◌, refl, sym, ap, List, [],
  ◌∷◌, arith, Option, some, Bool, true, false, if◌then◌else◌, get_elem?, Bool-cases, Option-cases,
  inl, inr,
}
use mathlib.Core.Path.{subst}
use openpubkey.Base.Bytes.{Bytes, str, eqb, eqb_iff}
use openpubkey.Oidc.Claims.{Any, text, items, algorithm, other}
use openpubkey.Oidc.Jws.{Signature, Jws, token_of}
use openpubkey.PkToken.Jwx.{JwsSignature}
use openpubkey.PkToken.SignatureType
use openpubkey.PkToken.Token.{PkToken}
use openpubkey.PkToken.Serial.{Counts, sig_type_of, strip_public, token_at, take_as}

-- the number of signatures of a type
abbrev pub has_type : Bytes → Result Bytes → ℕ
has_type sig_type (ok t) = if eqb t sig_type then 1 else 0
has_type sig_type (err e) = 0
has_type sig_type panic = 0

abbrev pub count : Bytes → List JwsSignature → ℕ
count sig_type [] = 0
count sig_type (s ∷ rest) =
    has_type sig_type (sig_type_of (s.protected.get (str "typ"))) + count sig_type rest

-- The type in the header of a signature: the provider's may be left out.
abbrev pub HasType : Bytes → JwsSignature → Type 0
HasType sig_type s =
    (s.protected.get (str "typ") ≡ some (text sig_type))
    ⊎ ((s.protected.get (str "typ") ≡ none) × (sig_type ≡ SignatureType.oidc))

-- The same signature, less public headers that have no entries.
abbrev pub IsStripped : JwsSignature → JwsSignature → Type 0
IsStripped s t =
    (t.protected ≡ s.protected)
    × ((t.public ≡ s.public) ⊎ ((s.public ≡ some []) × (t.public ≡ none)))

-- The slot holds the signature of this type at some index of the message, and the token is the one at
-- the same index of the JSON form, in compact form.
pub record IsFrom (raw : Jws) (ss : List JwsSignature) (sig_type : Bytes)
    (slot : Option JwsSignature) (token : Option Bytes) : Type 0 where
  pub index : ℕ
  pub signature : JwsSignature
  pub at_index : get_elem? ss index ≡ some signature
  pub typed : HasType sig_type signature
  pub stored : JwsSignature
  pub in_slot : slot ≡ some stored
  pub same : IsStripped signature stored
  pub part : Signature
  pub at_same_index : get_elem? raw.signatures index ≡ some part
  pub compact : token ≡ some (token_of raw part)

-- each kind of signature that has been counted has its slot and its token
pub record IsTaken (raw : Jws) (ss : List JwsSignature) (n : Counts) (p : PkToken) : Type 0 where
  pub op : 0 < n.op → IsFrom raw ss SignatureType.oidc p.op p.op_token
  pub cic : 0 < n.cic → IsFrom raw ss SignatureType.cic p.cic p.cic_token
  pub cos : 0 < n.cos → IsFrom raw ss SignatureType.cos p.cos p.cos_token

pub sig_type_of-eq-ok :
    (s : JwsSignature) (t : Bytes) → sig_type_of (s.protected.get (str "typ")) ≡ ok t → HasType t s
sig_type_of-eq-ok s t h = of_header (s.protected.get (str "typ")) h
  where
    of_header :
        (o : Option Any)
        → sig_type_of o ≡ ok t
        → (o ≡ some (text t)) ⊎ ((o ≡ none) × (t ≡ SignatureType.oidc))
    of_header none e = inr (refl, sym (ok_inj e))
    of_header (some (text u)) e = inl (ap (λ a. some (text a)) (ok_inj e))
    of_header (some (items l)) e = absurd (cc e)
    of_header (some (algorithm a)) e = absurd (cc e)
    of_header (some (other json)) e = absurd (cc e)

strip_public-IsStripped : (s : JwsSignature) → IsStripped s (strip_public s)
strip_public-IsStripped s = (refl, of_public s.public)
  where
    of_public :
        (o : Option (List (Bytes × Any)))
        → ((strip_public (record s { public = o })).public ≡ o)
          ⊎ ((o ≡ some []) × ((strip_public (record s { public = o })).public ≡ none))
    of_public none = inl refl
    of_public (some []) = inr (refl, refl)
    of_public (some (e ∷ m)) = inl refl

-- a signature that the loop stands at
pub record IsAt (ss : List JwsSignature) (i : ℕ) (sig_type : Bytes) (s : JwsSignature)
    : Type 0 where
  pub listed : get_elem? ss i ≡ some s
  pub typed : HasType sig_type s

IsAt-IsFrom :
    (raw : Jws) (ss : List JwsSignature) (i : ℕ) (sig_type typ : Bytes) (s : JwsSignature)
    (t : Bytes)
    → IsAt ss i sig_type s
    → eqb sig_type typ ≡ true
    → token_at raw (get_elem? raw.signatures i) ≡ ok t
    → IsFrom raw ss typ (some (strip_public s)) (some t)
IsAt-IsFrom raw ss i sig_type typ s t at same h = elim (Option-cases (get_elem? raw.signatures i)) [
  | inl e ↦ absurd (cc (rw e at h))
  | inr (v, e) ↦ record {
    index = i;
    signature = s;
    at_index = at.listed;
    typed = subst (λ x. HasType x s) ((eqb_iff sig_type typ).0 same) at.typed;
    stored = strip_public s;
    in_slot = refl;
    same = strip_public-IsStripped s;
    part = v;
    at_same_index = e;
    compact = ap some (sym (ok_inj (rw e at h)));
  }
]

-- what one round of the loop does
pub record IsStep (raw : Jws) (ss : List JwsSignature) (sig_type : Bytes) (n m : Counts)
    (p q : PkToken) : Type 0 where
  pub op : m.op ≡ n.op + has_type SignatureType.oidc (ok sig_type)
  pub cic : m.cic ≡ n.cic + has_type SignatureType.cic (ok sig_type)
  pub cos : m.cos ≡ n.cos + has_type SignatureType.cos (ok sig_type)
  pub payload : q.payload ≡ p.payload
  pub taken : IsTaken raw ss n p → IsTaken raw ss m q
  pub kept : m.cos ≡ n.cos → (q.cos ≡ p.cos) × (q.cos_token ≡ p.cos_token)

other_type : (t a b : Bytes) → eqb t a ≡ true → eqb a b ≡ false → eqb t b ≡ false
other_type t a b h k = subst (λ x. eqb x b ≡ false) (sym ((eqb_iff t a).0 h)) k

same_count : (n : ℕ) (b : Bool) → b ≡ false → n ≡ n + (if b then 1 else 0)
same_count n b h = rw h (omega arith)

next_count : (n : ℕ) (b : Bool) → b ≡ true → n + 1 ≡ n + (if b then 1 else 0)
next_count n b h = rw h refl

pub take_as-IsStep :
    (raw : Jws) (ss : List JwsSignature) (sig_type : Bytes) (s : JwsSignature) (i : ℕ)
    (n m : Counts) (p q : PkToken)
    → IsAt ss i sig_type s
    → take_as sig_type (strip_public s) (token_at raw (get_elem? raw.signatures i)) (n, p)
      ≡ ok (m, q)
    → IsStep raw ss sig_type n m p q
unfolding take_as eqb
take_as-IsStep raw ss sig_type s i n m p q at h =
    elim (Bool-cases (eqb sig_type SignatureType.oidc)) [
      | inl e ↦
          let (t, at_i, h1) =
            bind-eq-ok (token_at raw (get_elem? raw.signatures i)) _ (rw e at h) in
          subst (λ (x : Counts × PkToken). IsStep raw ss sig_type n x.0 p x.1) (ok_inj h1)
            (record {
              op = next_count n.op _ e;
              cic = same_count n.cic _ (other_type sig_type _ SignatureType.cic e refl);
              cos = same_count n.cos _ (other_type sig_type _ SignatureType.cos e refl);
              payload = refl;
              kept = λ same. (refl, refl);
              taken = λ k. record {
                op = λ _. IsAt-IsFrom raw ss i sig_type SignatureType.oidc s t at e at_i;
                cic = k.cic;
                cos = k.cos;
              };
            })
      | inr e ↦ elim (Bool-cases (eqb sig_type SignatureType.cic)) [
        | inl f ↦
            let (t, at_i, h1) =
              bind-eq-ok (token_at raw (get_elem? raw.signatures i)) _ (rw (e, f) at h) in
            subst (λ (x : Counts × PkToken). IsStep raw ss sig_type n x.0 p x.1) (ok_inj h1)
              (record {
                op = same_count n.op _ e;
                cic = next_count n.cic _ f;
                cos = same_count n.cos _ (other_type sig_type _ SignatureType.cos f refl);
                payload = refl;
                kept = λ same. (refl, refl);
                taken = λ k. record {
                  op = k.op;
                  cic = λ _. IsAt-IsFrom raw ss i sig_type SignatureType.cic s t at f at_i;
                  cos = k.cos;
                };
              })
        | inr f ↦ elim (Bool-cases (eqb sig_type SignatureType.cos)) [
          | inl g ↦
              let (t, at_i, h1) =
                bind-eq-ok (token_at raw (get_elem? raw.signatures i)) _ (rw (e, f, g) at h) in
              subst (λ (x : Counts × PkToken). IsStep raw ss sig_type n x.0 p x.1) (ok_inj h1)
                (record {
                  op = same_count n.op _ e;
                  cic = same_count n.cic _ f;
                  cos = next_count n.cos _ g;
                  payload = refl;
                  kept = λ same. absurd (omega (arith, same));
                  taken = λ k. record {
                    op = k.op;
                    cic = k.cic;
                    cos = λ _. IsAt-IsFrom raw ss i sig_type SignatureType.cos s t at g at_i;
                  };
                })
          | inr g ↦ absurd (cc (rw (e, f, g) at h))
        ]
      ]
    ]
