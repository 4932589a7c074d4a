-- ===== src/Base/Assoc.antt =====
-- Go's maps with text keys, as association lists.
use mathlib.Core.Path.{◌≡◌, refl, subst, ap, ◌∙◌}
use mathlib.Core.Bool.{false}
use mathlib.Core.Option.{Option, none, some}
use mathlib.Core.List.{List, [], ◌∷◌}
use mathlib.Core.Logic.{inl, inr, ◌⊎◌}
use openpubkey.Base.Tests.{if◌then◌else◌, Bool-cases}
use openpubkey.Base.Lists.{All}
use openpubkey.Base.Bytes.{Bytes, eqb, eqb_iff, eqb_refl}

pub some_inj {ℓ} : {A : Type ℓ} {a b : A} → some a ≡ some b → a ≡ b
some_inj h = cc h

module _ {ℓ} {A : Type ℓ} where
  -- `m[k]`, with the test for presence
  unfoldable pub lookup : Bytes → List (Bytes × A) → Option A
  lookup k [] = none
  lookup k ((j, v) ∷ m) = if eqb k j then some v else lookup k m

  -- `m[k] = v`
  unfoldable pub insert : Bytes → A → List (Bytes × A) → List (Bytes × A)
  insert k v [] = (k, v) ∷ []
  insert k v ((j, w) ∷ m) = if eqb k j then (k, v) ∷ m else (j, w) ∷ insert k v m

  pub lookup-insert : (k : Bytes) (v : A) (m : List (Bytes × A)) → lookup k (insert k v m) ≡ some v
  unfolding lookup insert
  lookup-insert k v [] = rw (eqb_refl k) refl
  lookup-insert k v ((j, w) ∷ m) = elim (Bool-cases (eqb k j)) [
    | inl e ↦ rw (e, eqb_refl k) refl
    | inr e ↦ rw (e, e) (lookup-insert k v m)
  ]

  pub lookup-insert_other :
      (k j : Bytes) (v : A) (m : List (Bytes × A))
      → eqb k j ≡ false
      → lookup k (insert j v m) ≡ lookup k m
  unfolding lookup insert
  lookup-insert_other k j v [] h = rw h refl
  lookup-insert_other k j v ((i, w) ∷ m) h = elim (Bool-cases (eqb j i)) [
    | inl e ↦ let same : j ≡ i = (eqb_iff j i).0 e in rw e (rw (h) (rw⁻¹ same (rw h refl)))
    | inr e ↦ rw e (elim (Bool-cases (eqb k i)) [
      | inl f ↦ rw (f) refl
      | inr f ↦ rw (f) (lookup-insert_other k j v m h)
    ])
  ]

  -- What holds of every entry holds of the one that is found.
  pub All-lookup {κ} :
      (P : Bytes × A → Type κ) (k : Bytes) (m : List (Bytes × A)) {v : A}
      → All P m
      → lookup k m ≡ some v
      → P (k, v)
  unfolding lookup
  All-lookup P k [] h found = cc found
  All-lookup P k ((j, w) ∷ m) {v} (h, hs) found = elim (Bool-cases (eqb k j)) [
    | inl e ↦
        let here : w ≡ v = some_inj (rw e at found) in
        let entry : ◌≡◌ {A = Bytes × A} (j, w) (k, v) = cc ((eqb_iff k j).0 e, here) in
        subst P entry h
    | inr e ↦ All-lookup P k m hs (rw e at found)
  ]

  pub All-insert {κ} :
      (P : Bytes × A → Type κ) (k : Bytes) (v : A) (m : List (Bytes × A))
      → P (k, v)
      → All P m
      → All P (insert k v m)
  unfolding insert
  All-insert P k v [] p h = (p, tt)
  All-insert P k v ((j, w) ∷ m) p (h, hs) = elim (Bool-cases (eqb k j)) [
    | inl e ↦ rw e (p, hs)
    | inr e ↦ rw e (h, All-insert P k v m p hs)
  ]

  -- The entry at a key after an assignment: the value, at that key, or what it was.
  pub lookup-insert_cases :
      (k j : Bytes) (v : A) (m : List (Bytes × A))
      → ((k ≡ j) × (lookup k (insert j v m) ≡ some v)) ⊎ (lookup k (insert j v m) ≡ lookup k m)
  lookup-insert_cases k j v m = elim (Bool-cases (eqb k j)) [
    | inl e ↦
        let same : k ≡ j = (eqb_iff k j).0 e in
        inl (same, ap (λ i. lookup i (insert j v m)) same ∙ lookup-insert j v m)
    | inr e ↦ inr (lookup-insert_other k j v m e)
  ]
