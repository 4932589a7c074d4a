-- ===== src/Gq/Modular.antt =====
-- Products and powers modulo a number.
use Prim.Native.Nat.{ℕ, zero, suc, ◌+◌, ◌-◌, ◌*◌, ◌/◌, ◌%◌, ◌^◌, ◌<◌}
use mathlib.Core.Path.{◌≡◌, refl, sym, ap, ap₂, ◌∙◌}
use native.Mathlib.Nat
use native.Mathlib.Omega.{arith}

-- The numbers leave the same remainder by `n`.
abbrev pub SameMod : ℕ → ℕ → ℕ → Type 0
SameMod n a b = a % n ≡ b % n

mod-mul_left : (n a b : ℕ) → (a % n * b) % n ≡ (a * b) % n
mod-mul_left n a b =
    sym (Nat.mul-add-mod_self_left n (a / n * b) (a % n * b)) ∙ ap (λ x. x % n) split
  where
    split : n * (a / n * b) + a % n * b ≡ a * b
    split = rw (← Nat.mul_assoc, ← Nat.add-mul, Nat.div-add-mod) refl

mod-mul_right : (n a b : ℕ) → (a * (b % n)) % n ≡ (a * b) % n
mod-mul_right n a b = rw (Nat.mul_comm a (b % n), mod-mul_left n b a, Nat.mul_comm a b) refl

pub SameMod-mod : (n a : ℕ) → SameMod n (a % n) a
SameMod-mod n a = Nat.mod-mod a n

pub SameMod-mul : (n a b c d : ℕ) → SameMod n a b → SameMod n c d → SameMod n (a * c) (b * d)
SameMod-mul n a b c d h k =
    sym (mod-mul_left n a c)
    ∙ ap (λ x. (x * c) % n) h
    ∙ sym (mod-mul_right n (b % n) c)
    ∙ ap (λ x. (b % n * x) % n) k
    ∙ mod-mul_right n (b % n) d
    ∙ mod-mul_left n b d

pub SameMod-pow : (n a b k : ℕ) → SameMod n a b → SameMod n (a ^ k) (b ^ k)
SameMod-pow n a b zero h = rw (Nat.pow-zero a, Nat.pow-zero b) refl
SameMod-pow n a b (suc k) h =
    rw (Nat.pow-suc a k, Nat.pow-suc b k)
      (SameMod-mul n (a ^ k) (b ^ k) a b (SameMod-pow n a b k h) h)

pub pow_of_mul : (a b k : ℕ) → (a * b) ^ k ≡ a ^ k * b ^ k
pow_of_mul a b zero = rw (Nat.pow-zero (a * b), Nat.pow-zero a, Nat.pow-zero b) refl
pow_of_mul a b (suc k) =
    rw (Nat.pow-suc (a * b) k, Nat.pow-suc a k, Nat.pow-suc b k, pow_of_mul a b k)
      (Nat.mul-mul-mul_comm (a ^ k) (b ^ k) a b)

pub one_pow : (k : ℕ) → 1 ^ k ≡ 1
one_pow zero = refl
one_pow (suc k) = rw (Nat.pow-suc 1 k, one_pow k) refl

pub pow_comm : (a j k : ℕ) → (a ^ j) ^ k ≡ (a ^ k) ^ j
pow_comm a j zero = rw (Nat.pow-zero (a ^ j), Nat.pow-zero a, one_pow j) refl
pow_comm a j (suc k) =
    rw (Nat.pow-suc (a ^ j) k, Nat.pow-suc a k, pow_of_mul (a ^ k) a j, pow_comm a j k) refl

pub zero_pow : (k : ℕ) → 0 < k → 0 ^ k ≡ 0
zero_pow zero h = absurd (omega (arith, h))
zero_pow (suc k) h = Nat.pow-suc 0 k ∙ Nat.mul-zero (0 ^ k)

pub SameMod-add : (n a b c d : ℕ) → SameMod n a b → SameMod n c d → SameMod n (a + c) (b + d)
SameMod-add n a b c d h k =
    Nat.add-mod a c n ∙ ap₂ (λ x y. (x + y) % n) h k ∙ sym (Nat.add-mod b d n)

without_added : (n a c : ℕ) → 0 < n → SameMod n ((a + c) + (n - c % n)) a
without_added n a c pos = ap (λ x. x % n) regrouped ∙ Nat.add-mul-mod_self_left a n (c / n + 1)
  where
    small : c % n < n
    small = Nat.mod-lt c pos

    whole : n * (c / n) + c % n ≡ c
    whole = Nat.div-add-mod c n

    regrouped : (a + c) + (n - c % n) ≡ a + n * (c / n + 1)
    regrouped = rw (Nat.mul-add n (c / n) 1, Nat.mul-one n) (omega (arith, small, whole))

pub SameMod-add_cancel : (n a b c : ℕ) → 0 < n → SameMod n (a + c) (b + c) → SameMod n a b
SameMod-add_cancel n a b c pos h =
    sym (without_added n a c pos)
    ∙ SameMod-add n (a + c) (b + c) (n - c % n) (n - c % n) h refl
    ∙ without_added n b c pos
