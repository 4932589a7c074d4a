-- ===== src/Oidc/Jws/Tokens.antt =====
-- The tokens that a JWS gives back.
use openpubkey.Base.{
  ℕ, zero, suc, ok, require, bind-eq-ok, require-eq-ok, ◌≡◌, ◌≢◌, refl, sym, ap, List, [], ◌∷◌,
  ◌++◌, Option, none, some, true, length, get_elem?, Bool-cases, Option-cases, inl, inr, ◌⊎◌,
}
use openpubkey.Base.Int.{pos}
use openpubkey.Base.Bytes.{Bytes, eqb, eqb_iff}
use openpubkey.Oidc.Compact.{split_compact, split_compact-eq}
use openpubkey.Oidc.Claims.{Any, Json, get_typ}
use openpubkey.Oidc.Jws.{
  Signature, Jws, add_signature, token_of, get_token, matching, the_only, get_token_by_typ,
}

get_elem?-last :
    (xs : List Signature) (x : Signature) → get_elem? (xs ++ x ∷ []) (length xs) ≡ some x
get_elem?-last [] x = refl
get_elem?-last (y ∷ xs) x = get_elem?-last xs x

get_elem?-append :
    (xs ys : List Signature) (i : ℕ) (x : Signature)
    → get_elem? xs i ≡ some x
    → get_elem? (xs ++ ys) i ≡ some x
get_elem?-append [] ys i x h = cc
get_elem?-append (y ∷ xs) ys zero x h = h
get_elem?-append (y ∷ xs) ys (suc i) x h = get_elem?-append xs ys i x h

-- A token that is added is read back whole at the next index, the payload stays, and so does the
-- token at every index below.
pub get_token-add_signature :
    (j j' : Jws) (token : Bytes) (public : Option (List (Bytes × Any)))
    → add_signature j token public ≡ ok j'
    → (get_token j' (pos (length j.signatures)) ≡ ok token)
      × (j'.payload ≡ j.payload)
      × ((i : ℕ) (t : Bytes) → get_token j (pos i) ≡ ok t → get_token j' (pos i) ≡ ok t)
unfolding add_signature get_token
get_token-add_signature j j' token public h =
    let ((p, q, s), e, h1) = bind-eq-ok (split_compact token) _ h in
    let (u, same, h2) = bind-eq-ok (require (eqb j.payload q) _) _ h1 in
    let eq = (eqb_iff j.payload q).0 (require-eq-ok _ _ same) in
    let new : Signature = record { protected = p; public = public; signature = s } in
    let eq_j : j' ≡ record j { signatures = j.signatures ++ new ∷ [] } = cc h2 in
    rw eq_j (
      rw (get_elem?-last j.signatures new, eq) (ap ok (sym (split_compact-eq token p q s e))),
      refl,
      λ i t k. elim (Option-cases (get_elem? j.signatures i)) [
        | inl e0 ↦ cc (rw e0 at k)
        | inr (x, e0) ↦ rw (get_elem?-append j.signatures (new ∷ []) i x e0) (rw e0 at k)
      ],
    )

module _ (json : Json) (typ : Bytes) where
  -- the signature at index i has the type
  abbrev pub HasTyp : List Signature → ℕ → Type 0
  HasTyp vs i = (v : Signature) × (get_elem? vs i ≡ some v) × (get_typ json v.protected ≡ ok typ)

  -- the two ways in which the loop takes a signature
  matching-cons :
      (v : Signature) (vs r : List Signature)
      → matching json typ (v ∷ vs) ≡ ok r
      → (rest : List Signature) × (matching json typ vs ≡ ok rest)
        × (((get_typ json v.protected ≡ ok typ) × (r ≡ v ∷ rest))
            ⊎ ((get_typ json v.protected ≢ ok typ) × (r ≡ rest)))
  unfolding matching
  matching-cons v vs r h =
      let (found, e, h1) = bind-eq-ok (get_typ json v.protected) _ h in
      let (rest, e', h2) = bind-eq-ok (matching json typ vs) _ h1 in
      (
        rest,
        e',
        elim (Bool-cases (eqb found typ)) [
          | inl same ↦ inl (rw (e, (eqb_iff found typ).0 same), cc (rw same at h2))
          | inr differ ↦ inr (
            (λ k.
                let eq : found ≡ typ = cc (k, e) in
                let yes : eqb found typ ≡ true = (eqb_iff found typ).1 eq in cc (yes, differ)),
            cc (rw differ at h2),
          )
        ],
      )

  -- no signature of a list has the type if the loop takes none
  matching-nil : (vs : List Signature) (i : ℕ) → matching json typ vs ≡ ok [] → HasTyp vs i → ⊥
  matching-nil [] i h (v, e, _) = cc e
  matching-nil (w ∷ vs) zero h (v, e, t) =
      let (rest, e', alt) = matching-cons w vs [] h in
      elim alt [ inl (_, bad) ↦ cc bad | inr (differ, _) ↦ differ (cc (e, t)) ]
  matching-nil (w ∷ vs) (suc i) h k =
      let (rest, e', alt) = matching-cons w vs [] h in
      elim alt [ inl (_, bad) ↦ cc bad | inr (_, eq) ↦ matching-nil vs i (cc (e', eq)) k ]

  only_here :
      (v : Signature) (vs : List Signature) (k : ℕ)
      → matching json typ vs ≡ ok []
      → HasTyp (v ∷ vs) k
      → k ≡ 0
  only_here v vs zero h t = refl
  only_here v vs (suc k) h t = absurd (matching-nil vs k h t)

  only_there :
      (v : Signature) (vs : List Signature) (i k : ℕ)
      → get_typ json v.protected ≢ ok typ
      → ((k : ℕ) → HasTyp vs k → k ≡ i)
      → HasTyp (v ∷ vs) k
      → k ≡ suc i
  only_there v vs i zero differ only (w, e, t) = absurd (differ (cc (e, t)))
  only_there v vs i (suc k) differ only t = ap suc (only k t)

  matching-one :
      (vs : List Signature) (w : Signature)
      → matching json typ vs ≡ ok (w ∷ [])
      → (i : ℕ) × (get_elem? vs i ≡ some w)
        × (get_typ json w.protected ≡ ok typ)
        × ((k : ℕ) → HasTyp vs k → k ≡ i)
  matching-one [] w h = absurd (unfold matching in cc h)
  matching-one (v ∷ vs) w h =
      let (rest, e, alt) = matching-cons v vs (w ∷ []) h in
      elim alt [
        | inl (t, eq) ↦ (0, cc eq, cc (t, eq), λ k. only_here v vs k (cc (e, eq)))
        | inr (differ, eq) ↦
            let (i, at_i, t, only) = matching-one vs w (cc (e, eq)) in
            (suc i, at_i, t, λ k. only_there v vs i k differ only)
      ]

  -- A token found by its type is the token at the one index whose signature has that type; no token
  -- is found only if no signature has it.
  pub get_token_by_typ_unique :
      (j : Jws) (r : Option Bytes)
      → get_token_by_typ json j typ ≡ ok r
      → ((r ≡ none) × ((i : ℕ) → ¬ HasTyp j.signatures i))
        ⊎ ((t : Bytes) × (i : ℕ) × (r ≡ some t)
            × (get_token j (pos i) ≡ ok t)
            × HasTyp j.signatures i
            × ((k : ℕ) → HasTyp j.signatures k → k ≡ i))
  unfolding get_token_by_typ get_token
  get_token_by_typ_unique j r h =
      let (taken, e, h1) = bind-eq-ok (matching json typ j.signatures) _ h in by_taken taken e h1
    where
      by_taken :
          (taken : List Signature)
          → matching json typ j.signatures ≡ ok taken
          → the_only json j taken ≡ ok r
          → ((r ≡ none) × ((i : ℕ) → ¬ HasTyp j.signatures i))
            ⊎ ((t : Bytes) × (i : ℕ) × (r ≡ some t)
                × (get_token j (pos i) ≡ ok t)
                × HasTyp j.signatures i
                × ((k : ℕ) → HasTyp j.signatures k → k ≡ i))
      by_taken [] e h1 = inl (cc h1, λ i. matching-nil j.signatures i e)
      by_taken (v ∷ []) e h1 =
          let (i, at_i, t, only) = matching-one j.signatures v e in
          inr (token_of j v, i, cc h1, rw at_i refl, (v, at_i, t), only)
      by_taken (v ∷ w ∷ vs) e h1 = cc h1
