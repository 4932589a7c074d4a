-- ===== src/Base/Bytes/Split.antt =====
-- `bytes.Split`, `bytes.Join` and `bytes.Cut` at a separator of one byte.
use Prim.Native.Nat.{ℕ}
use mathlib.Core.Path.{◌≡◌, refl, ap, ap₂, sym, ◌∙◌}
use mathlib.Core.Logic.{◌≢◌, inl, inr}
use mathlib.Core.Option.{Option, none, some}
use mathlib.Core.List.{List, [], ◌∷◌, ◌++◌}
use native.Mathlib.Omega.{arith}
use openpubkey.Base.Tests.{◌==◌, ==_iff, Bool-cases, if◌then◌else◌}
use openpubkey.Base.Lists.{All}

-- puts a byte in front of the first part
abbrev push : ℕ → List (List ℕ) → List (List ℕ)
push x [] = (x ∷ []) ∷ []
push x (p ∷ ps) = (x ∷ p) ∷ ps

unfoldable pub split : ℕ → List ℕ → List (List ℕ)
split sep [] = [] ∷ []
split sep (x ∷ xs) = if x == sep then [] ∷ split sep xs else push x (split sep xs)

unfoldable pub join : ℕ → List (List ℕ) → List ℕ
join sep [] = []
join sep (p ∷ []) = p
join sep (p ∷ q ∷ ps) = p ++ sep ∷ join sep (q ∷ ps)

-- What stands before the first separator, and what stands after it: nil where there is none.
unfoldable pub cut : ℕ → List ℕ → List ℕ × Option (List ℕ)
cut sep [] = ([], none)
cut sep (x ∷ xs) =
    if x == sep then ([], some xs) else (let (before, after) = cut sep xs in (x ∷ before, after))

-- `sep` does not occur in the bytes.
abbrev pub IsFree : ℕ → List ℕ → Type 0
IsFree sep xs = All (λ x. x ≢ sep) xs

pub IsFree-append :
    (sep : ℕ) (xs ys : List ℕ) → IsFree sep xs → IsFree sep ys → IsFree sep (xs ++ ys)
IsFree-append sep [] ys h k = k
IsFree-append sep (x ∷ xs) ys (p, h) k = (p, IsFree-append sep xs ys h k)

split_of_IsFree : (sep : ℕ) (p : List ℕ) → IsFree sep p → split sep p ≡ p ∷ []
unfolding split
split_of_IsFree sep [] h = refl
split_of_IsFree sep (x ∷ p) h = ground (arith, split_of_IsFree sep p h.1)

split-append :
    (sep : ℕ) (p xs : List ℕ) → IsFree sep p → split sep (p ++ sep ∷ xs) ≡ p ∷ split sep xs
unfolding split
split-append sep [] xs h = ground arith
split-append sep (x ∷ p) xs h = ground (arith, split-append sep p xs h.1)

-- Parts that do not hold the separator come back from their join.
pub split-join :
    (sep : ℕ) (p : List ℕ) (ps : List (List ℕ))
    → All (IsFree sep) (p ∷ ps)
    → split sep (join sep (p ∷ ps)) ≡ p ∷ ps
unfolding join
split-join sep p [] (h, _) = split_of_IsFree sep p h
split-join sep p (q ∷ ps) (h, k) =
    rw (split-append sep p (join sep (q ∷ ps)) h) (ap (λ t. p ∷ t) (split-join sep q ps k))

join-push : (sep x : ℕ) (ps : List (List ℕ)) → join sep (push x ps) ≡ x ∷ join sep ps
unfolding join
join-push sep x [] = refl
join-push sep x (p ∷ []) = refl
join-push sep x (p ∷ q ∷ ps) = refl

-- the head of what `push` gives
push-cons :
    (x : ℕ) (ps : List (List ℕ)) → (q : List ℕ) × (qs : List (List ℕ)) × (push x ps ≡ q ∷ qs)
push-cons x [] = (x ∷ [], [], refl)
push-cons x (p ∷ ps) = (x ∷ p, ps, refl)

-- a split gives at least one part
split-cons : (sep : ℕ) (xs : List ℕ) → (p : List ℕ) × (ps : List (List ℕ)) × (split sep xs ≡ p ∷ ps)
unfolding split
split-cons sep [] = ([], [], refl)
split-cons sep (x ∷ xs) = elim (Bool-cases (x == sep)) [
  | inl e ↦ ([], split sep xs, rw e)
  | inr e ↦ rw e (push-cons x (split sep xs))
]

join-nil_cons :
    (sep : ℕ) (ps : List (List ℕ)) (p : List ℕ) (qs : List (List ℕ))
    → ps ≡ p ∷ qs
    → join sep ([] ∷ ps) ≡ sep ∷ join sep ps
unfolding join
join-nil_cons sep ps p qs e = rw e

pub join-split : (sep : ℕ) (xs : List ℕ) → join sep (split sep xs) ≡ xs
unfolding split
join-split sep [] = unfold join in refl
join-split sep (x ∷ xs) = elim (Bool-cases (x == sep)) [
  | inl e ↦
      let (p, qs, c) = split-cons sep xs in
      rw (e, join-nil_cons sep (split sep xs) p qs c)
        (ap₂ ◌∷◌ (sym ((==_iff x sep).0 e)) (join-split sep xs))
  | inr e ↦ rw (e, join-push sep x (split sep xs)) (ap (λ t. x ∷ t) (join-split sep xs))
]

All-push : (c x : ℕ) (ps : List (List ℕ)) → x ≢ c → All (IsFree c) ps → All (IsFree c) (push x ps)
All-push c x [] h k = ((h, tt), tt)
All-push c x (p ∷ ps) h (k, l) = ((h, k), l)

pub split-IsFree : (sep : ℕ) (xs : List ℕ) → All (IsFree sep) (split sep xs)
unfolding split
split-IsFree sep [] = (tt, tt)
split-IsFree sep (x ∷ xs) = elim (Bool-cases (x == sep)) [
  | inl e ↦ rw e (tt, split-IsFree sep xs)
  | inr e ↦ rw e (All-push sep x (split sep xs) (ground arith) (split-IsFree sep xs))
]

-- A byte that is not in a text is in none of its parts.
pub split-IsFree_other : (sep c : ℕ) (xs : List ℕ) → IsFree c xs → All (IsFree c) (split sep xs)
unfolding split
split-IsFree_other sep c [] h = (tt, tt)
split-IsFree_other sep c (x ∷ xs) (h, k) = elim (Bool-cases (x == sep)) [
  | inl e ↦ rw e (tt, split-IsFree_other sep c xs k)
  | inr e ↦ rw e (All-push c x (split sep xs) h (split-IsFree_other sep c xs k))
]

pub cut_of_IsFree : (sep : ℕ) (p : List ℕ) → IsFree sep p → cut sep p ≡ (p, none)
unfolding cut
cut_of_IsFree sep [] h = refl
cut_of_IsFree sep (x ∷ p) h = ground (arith, cut_of_IsFree sep p h.1)

pub cut-append : (sep : ℕ) (p xs : List ℕ) → IsFree sep p → cut sep (p ++ sep ∷ xs) ≡ (p, some xs)
unfolding cut
cut-append sep [] xs h = ground arith
cut-append sep (x ∷ p) xs h = ground (arith, cut-append sep p xs h.1)

-- the two sides of a cut put together again
abbrev pub glue : ℕ → List ℕ × Option (List ℕ) → List ℕ
glue sep (b, none) = b
glue sep (b, some a) = b ++ sep ∷ a

glue-cons : (sep x : ℕ) (c : List ℕ × Option (List ℕ)) → glue sep (x ∷ c.0, c.1) ≡ x ∷ glue sep c
glue-cons sep x (b, none) = refl
glue-cons sep x (b, some a) = refl

pub glue-cut : (sep : ℕ) (xs : List ℕ) → glue sep (cut sep xs) ≡ xs
unfolding cut
glue-cut sep [] = refl
glue-cut sep (x ∷ xs) = elim (Bool-cases (x == sep)) [
  | inl e ↦ rw e (ap (λ t. t ∷ xs) (sym ((==_iff x sep).0 e)))
  | inr e ↦ rw e (glue-cons sep x (cut sep xs) ∙ ap (λ t. x ∷ t) (glue-cut sep xs))
]

pub cut-IsFree : (sep : ℕ) (xs : List ℕ) → IsFree sep (cut sep xs).0
unfolding cut
cut-IsFree sep [] = tt
cut-IsFree sep (x ∷ xs) = elim (Bool-cases (x == sep)) [
  | inl e ↦ rw e tt
  | inr e ↦ rw e (ground arith, cut-IsFree sep xs)
]
