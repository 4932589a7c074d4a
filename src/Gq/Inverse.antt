-- ===== src/Gq/Inverse.antt =====
-- `ModInverse` of `big.Int`, by Euclid's loop.
use openpubkey.Base.{
  ℕ, zero, suc, ◌+◌, ◌-◌, ◌*◌, ◌/◌, ◌%◌, ◌≤◌, ◌<◌, ◌≡◌, ◌≢◌, refl, sym, ◌∙◌, ap, arith, Option,
  none, some, ◌==◌, if◌then◌else◌, Bool-cases, inl, inr, ==_iff,
}
use mathlib.Core.Path.{subst}
use native.Mathlib.Nat
use Prim.Native.Nat.{◌∣◌}
use openpubkey.Gq.Modular.{SameMod, SameMod-mod, SameMod-mul, SameMod-add, SameMod-add_cancel}

-- The remainders `r0` and `r1` with the multiples of the argument that are `r0` and `r1` modulo `n`.
euclid : ℕ → ℕ → ℕ → ℕ → ℕ → ℕ → Option ℕ
euclid fuel n r0 t0 zero t1 = if r0 == 1 then some (t0 % n) else none
euclid zero n r0 t0 (suc r) t1 = none
euclid (suc fuel) n r0 t0 (suc r) t1 =
    euclid fuel n (suc r) t1 (r0 % suc r) (t0 + (n - (r0 / suc r * t1) % n))

-- nil where `g` has no inverse modulo `n`
unfoldable pub mod_inverse : ℕ → ℕ → Option ℕ
unfolding euclid
mod_inverse g n = euclid n n n 0 (g % n) 1

module _ (n g : ℕ) (pos : 0 < n) where
  next_multiple :
      (r0 t0 r1 t1 : ℕ)
      → SameMod n (t0 * g) r0
      → SameMod n (t1 * g) r1
      → SameMod n ((t0 + (n - (r0 / r1 * t1) % n)) * g) (r0 % r1)
  next_multiple r0 t0 r1 t1 h0 h1 =
      SameMod-add_cancel n ((t0 + (n - c)) * g) (r0 % r1) (c * g) pos (left ∙ h0 ∙ sym right)
    where
      c : ℕ
      c = (r0 / r1 * t1) % n

      small : c < n
      small = Nat.mod-lt (r0 / r1 * t1) pos

      left : SameMod n ((t0 + (n - c)) * g + c * g) (t0 * g)
      left =
          ap (λ a. a % n)
            (sym (Nat.add-mul (t0 + (n - c)) c g) ∙ ap (λ a. a * g) restored ∙ Nat.add-mul t0 n g)
          ∙ Nat.add-mul-mod_self_left (t0 * g) n g
        where
          restored : t0 + (n - c) + c ≡ t0 + n
          restored = omega (arith, small)

      product : SameMod n (c * g) (r0 / r1 * r1)
      product =
          SameMod-mul n c (r0 / r1 * t1) g g (SameMod-mod n (r0 / r1 * t1)) refl
          ∙ ap (λ a. a % n) (Nat.mul_assoc (r0 / r1) t1 g)
          ∙ SameMod-mul n (r0 / r1) (r0 / r1) (t1 * g) r1 refl h1

      right : SameMod n (r0 % r1 + c * g) r0
      right =
          SameMod-add n (r0 % r1) (r0 % r1) (c * g) (r0 / r1 * r1) refl product
          ∙ ap (λ a. a % n) (Nat.mod-add-div' r0 r1)

  euclid-eq-some :
      (fuel r0 t0 r1 t1 : ℕ) {z : ℕ}
      → SameMod n (t0 * g) r0
      → SameMod n (t1 * g) r1
      → euclid fuel n r0 t0 r1 t1 ≡ some z
      → SameMod n (z * g) 1 × (z < n)
  unfolding euclid
  euclid-eq-some fuel r0 t0 zero t1 {z} h0 h1 e = elim (Bool-cases (r0 == 1)) [
    | inl one ↦
        let found : t0 % n ≡ z = cc (rw one at e) in
        let is_one : r0 ≡ 1 = (==_iff r0 1).0 one in
        subst (λ a. SameMod n (a * g) 1 × (a < n)) found
          (
            SameMod-mul n (t0 % n) t0 g g (SameMod-mod n t0) refl ∙ h0 ∙ ap (λ a. a % n) is_one,
            Nat.mod-lt t0 pos,
          )
    | inr other ↦ absurd (cc (rw other at e))
  ]
  euclid-eq-some zero r0 t0 (suc r) t1 h0 h1 e = absurd (cc e)
  euclid-eq-some (suc fuel) r0 t0 (suc r) t1 h0 h1 e =
      euclid-eq-some fuel (suc r) t1 (r0 % suc r) (t0 + (n - (r0 / suc r * t1) % n)) h1
        (next_multiple r0 t0 (suc r) t1 h0 h1) e

  -- Where the loop finds nothing the remainders have a common divisor.
  euclid-eq-none :
      (fuel r0 t0 r1 t1 : ℕ)
      → r1 ≤ fuel
      → euclid fuel n r0 t0 r1 t1 ≡ none
      → (d : ℕ) × (d ∣ r0) × (d ∣ r1) × (d ≢ 1)
  unfolding euclid
  euclid-eq-none fuel r0 t0 zero t1 h e = elim (Bool-cases (r0 == 1)) [
    | inl one ↦ absurd (cc (rw one at e))
    | inr other ↦ (r0, Nat.dvd_refl r0, Nat.dvd-zero r0, ground (arith, other))
  ]
  euclid-eq-none zero r0 t0 (suc r) t1 h e = absurd (omega (arith, h))
  euclid-eq-none (suc fuel) r0 t0 (suc r) t1 h e =
      let (d, d1, d2, other) =
        euclid-eq-none fuel (suc r) t1 (r0 % suc r) (t0 + (n - (r0 / suc r * t1) % n))
          (omega (arith, h)) e in
      (d, (Nat.dvd-mod_iff d d1).0 d2, d1, other)

  -- What is found is an inverse.
  pub mod_inverse-eq-some : {z : ℕ} → mod_inverse g n ≡ some z → SameMod n (z * g) 1 × (z < n)
  unfolding mod_inverse
  mod_inverse-eq-some e = euclid-eq-some n n 0 (g % n) 1 start_zero start_one e
    where
      start_zero : SameMod n (0 * g) n
      start_zero = ap (λ a. a % n) (Nat.zero-mul g) ∙ Nat.zero-mod n ∙ sym (Nat.mod_self n)

      start_one : SameMod n (1 * g) (g % n)
      start_one = ap (λ a. a % n) (Nat.one-mul g) ∙ sym (SameMod-mod n g)

  -- An inverse is found where there is one.
  pub mod_inverse_total : (z : ℕ) → 1 < n → SameMod n (z * g) 1 → mod_inverse g n ≢ none
  unfolding mod_inverse
  mod_inverse_total z above h e =
      let (d, dn, dg, other) =
        euclid-eq-none n n 0 (g % n) 1 (let small = Nat.mod-lt g pos in omega (arith, small)) e in
      let divides : d ∣ g = (Nat.dvd-mod_iff d dn).0 dg in
      let product : d ∣ (z * g) % n =
        (Nat.dvd-mod_iff d dn).1 (Nat.dvd-mul_left_of_dvd d divides z) in
      let one_mod : d ∣ 1 = subst (◌∣◌ d) (h ∙ Nat.mod-eq_of_lt above) product in
      other (Nat.eq-one_of_dvd-one one_mod)
