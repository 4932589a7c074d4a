-- ===== src/Base/Bytes.antt =====
-- Go's `[]byte` and `string` as lists of bytes, with what `bytes` and `strings` do to them.
mod Split
pub mod BigEndian
unfoldable pub use Split.{split, join, cut}
pub use Split.*
use Prim.Native.Nat.{ℕ}
use Prim.Native.Char.{code}
use Prim.Native.String.{String}
use mathlib.Core.Path.{◌≡◌, refl, ap, sym, ◌∙◌}
use mathlib.Core.Logic.{◌↔◌, ◌⊎◌, ◌≢◌, inl, inr}
use mathlib.Core.Bool.{Bool, true, false, ◌&&◌, ◌||◌, not}
use mathlib.Core.Option.{Option, none, some}
use mathlib.Core.List.{List, [], ◌∷◌, ◌++◌}
use native.Mathlib.Omega.{arith}
use openpubkey.Base.Tests.{◌==◌, ==_iff, Bool-cases}

abbrev pub Bytes : Type 0
Bytes = List ℕ

-- A text literal. The literals of the program are ASCII, so the code points are the bytes.
abbrev pub str : String → Bytes
str String.[] = []
str (String.◌∷◌ c s) = code c ∷ str s

-- The bytes of a slice; a nil slice is an empty one to `bytes.Equal` and `bytes.Join`.
abbrev pub content : Option Bytes → Bytes
content none = []
content (some b) = b

-- `bytes.Equal`, and `==` on strings
unfoldable pub eqb : Bytes → Bytes → Bool
eqb [] [] = true
eqb [] (y ∷ ys) = false
eqb (x ∷ xs) [] = false
eqb (x ∷ xs) (y ∷ ys) = (x == y) && eqb xs ys

eqb→eq : (xs ys : Bytes) → eqb xs ys ≡ true → xs ≡ ys
unfolding eqb
eqb→eq [] [] h = refl
eqb→eq [] (y ∷ ys) h = cc
eqb→eq (x ∷ xs) [] h = cc
eqb→eq (x ∷ xs) (y ∷ ys) h = ground (arith, eqb→eq xs ys)

pub eqb_refl : (xs : Bytes) → eqb xs xs ≡ true
unfolding eqb
eqb_refl [] = refl
eqb_refl (x ∷ xs) = ground (arith, eqb_refl xs)

pub eqb_iff : (xs ys : Bytes) → (eqb xs ys ≡ true) ↔ (xs ≡ ys)
eqb_iff xs ys = (eqb→eq xs ys, λ e. rw e (eqb_refl ys))

pub empty_iff : (xs : Bytes) → (eqb xs [] ≡ false) ↔ (xs ≢ [])
empty_iff xs = (
  λ h e. cc (h, (eqb_iff xs []).1 e),
  λ h. elim (Bool-cases (eqb xs [])) [ inl e ↦ absurd (h ((eqb_iff xs []).0 e)) | inr e ↦ e ],
)

pub nonempty_iff : (xs : Bytes) → (not (eqb xs []) ≡ true) ↔ (xs ≢ [])
nonempty_iff xs = ground (arith, empty_iff xs)

-- `strings.HasPrefix`, and the test of `strings.CutPrefix`
unfoldable pub has_prefix : Bytes → Bytes → Bool
has_prefix xs [] = true
has_prefix [] (y ∷ ys) = false
has_prefix (x ∷ xs) (y ∷ ys) = (x == y) && has_prefix xs ys

pub has_prefix_iff :
    (xs ys : Bytes) → (has_prefix xs ys ≡ true) ↔ ((rest : Bytes) × (xs ≡ ys ++ rest))
unfolding has_prefix
has_prefix_iff xs [] = (λ h. (xs, refl), λ h. refl)
has_prefix_iff [] (y ∷ ys) = (λ h. absurd (cc h), λ (rest, h). absurd (cc h))
has_prefix_iff (x ∷ xs) (y ∷ ys) = (
  λ h.
      let (rest, e) = (has_prefix_iff xs ys).0 (ground (arith, h)) in
      let same : x ≡ y = ground (arith, h) in (rest, cc (same, e)),
  λ (rest, e).
      let same : x ≡ y = cc e in
      let below : has_prefix xs ys ≡ true = (has_prefix_iff xs ys).1 (rest, cc e) in
      rw (below, (==_iff x y).1 same) refl,
)

-- `slices.Contains`, as a loop
unfoldable pub is_in : Bytes → List Bytes → Bool
is_in x [] = false
is_in x (y ∷ ys) = eqb y x || is_in x ys

abbrev pub IsIn : Bytes → List Bytes → Type 0
IsIn x [] = ⊥
IsIn x (y ∷ ys) = (y ≡ x) ⊎ IsIn x ys

pub is_in_iff : (x : Bytes) (ys : List Bytes) → (is_in x ys ≡ true) ↔ IsIn x ys
unfolding is_in
is_in_iff x [] = (λ h. absurd (cc h), λ h. absurd h)
is_in_iff x (y ∷ ys) = ground (arith, eqb_iff y x, is_in_iff x ys)
