-- ===== src/Gq/Complete.antt =====
-- What `Sign` makes is accepted by `Verify`: the numbers that the verifier recovers are those that
-- the signer drew.
use openpubkey.Base.{ℕ, ◌*◌, ◌%◌, ◌^◌, ◌<◌, ◌≡◌, refl, sym, ◌∙◌, ap}
use native.Mathlib.Nat
use openpubkey.Gq.Modular.{
  SameMod, SameMod-mod, SameMod-mul, SameMod-pow, pow_of_mul, pow_comm, one_pow, zero_pow,
}

-- one of the numbers of S, of a private number `q`, a random number `r` and a question number `x`
abbrev pub witness_of : ℕ → ℕ → ℕ → ℕ → ℕ
witness_of n q r x = (q ^ x % n * r) % n

-- q^v * g is 1 modulo n: the number `q` is private to the public number `g`.
abbrev pub IsPrivate : ℕ → ℕ → ℕ → ℕ → Type 0
IsPrivate n v q g = SameMod n (q ^ v * g) 1

module _ (n v q g : ℕ) (private : IsPrivate n v q g) where
  recovered_power : (r x : ℕ) → SameMod n ((q ^ x * r) ^ v * g ^ x) (r ^ v)
  recovered_power r x =
      ap (λ a. a % n) regrouped
      ∙ SameMod-mul n ((q ^ v * g) ^ x) 1 (r ^ v) (r ^ v) cancelled refl
      ∙ ap (λ a. a % n) (Nat.one-mul (r ^ v))
    where
      cancelled : SameMod n ((q ^ v * g) ^ x) 1
      cancelled = SameMod-pow n (q ^ v * g) 1 x private ∙ ap (λ a. a % n) (one_pow x)

      regrouped : (q ^ x * r) ^ v * g ^ x ≡ (q ^ v * g) ^ x * r ^ v
      regrouped =
          rw (pow_of_mul (q ^ x) r v, pow_comm q x v, pow_of_mul (q ^ v) g x)
            (Nat.mul_right_comm ((q ^ v) ^ x) (r ^ v) (g ^ x))

  -- The verifier recovers the power of the number that was drawn.
  pub recovered-witness_of : (r x : ℕ) → (witness_of n q r x ^ v % n * (g ^ x % n)) % n ≡ r ^ v % n
  recovered-witness_of r x =
      SameMod-mul n (witness_of n q r x ^ v % n) ((q ^ x * r) ^ v) (g ^ x % n) (g ^ x)
        (SameMod-mod n (witness_of n q r x ^ v)
          ∙ SameMod-pow n (witness_of n q r x) (q ^ x * r) v same)
        (SameMod-mod n (g ^ x))
      ∙ recovered_power r x
    where
      same : SameMod n (witness_of n q r x) (q ^ x * r)
      same =
          SameMod-mod n (q ^ x % n * r)
          ∙ SameMod-mul n (q ^ x % n) (q ^ x) r r (SameMod-mod n (q ^ x)) refl

  -- A number whose power is not 0 gives a witness that is not 0.
  pub witness_of_nonzero : (r x : ℕ) → 0 < v → (r ^ v % n ≡ 0 → ⊥) → witness_of n q r x ≡ 0 → ⊥
  witness_of_nonzero r x pos h z = h (sym (recovered-witness_of r x) ∙ lost)
    where
      lost : (witness_of n q r x ^ v % n * (g ^ x % n)) % n ≡ 0
      lost = rw (z, zero_pow v pos, Nat.zero-mod n, Nat.zero-mul (g ^ x % n), Nat.zero-mod n) refl
