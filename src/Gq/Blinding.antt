-- ===== src/Gq/Blinding.antt =====
-- gq/sign.go, `modInverse`: the inverse of an RSA signature, by way of a random multiple of it.
use openpubkey.Base.{
  ℕ, ◌*◌, ◌%◌, ◌<◌, msg, Result, ok, err, panic, ◌>>=◌, ◌≡◌, refl, sym, ◌∙◌, ap, List, [], ◌∷◌,
  ◌++◌, arith, Option, none, some, true, false, ltb, if◌then◌else◌, length, Bool-cases,
  Option-cases, inl, inr, ltb→lt,
}
use mathlib.Core.Path.{subst}
use native.Mathlib.Nat
use openpubkey.Base.Bytes.{Bytes}
use openpubkey.Base.Bytes.BigEndian.{fill_bytes}
use openpubkey.Gq.{Primitives, SignerVerifier}
use openpubkey.Gq.Inverse.{mod_inverse, mod_inverse-eq-some, mod_inverse_total}
use openpubkey.Gq.Modular.{SameMod, SameMod-mod, SameMod-mul}
use openpubkey.Gq.Laws.{IsBigmod, IsUsable, nat_as_int_lem, int_as_nat_ok}
use openpubkey.Gq.Sign.{int_as_nat, nat_as_int}
use openpubkey.Gq.Stages.{modulus_pos}

-- a nil `*big.Int` is dereferenced
abbrev pub not_nil : Option ℕ → Result ℕ
not_nil none = panic
not_nil (some x) = ok x

abbrev unless_nil {ℓ} : {A : Type ℓ} → Option ℕ → A → A → A
unless_nil none found again = again
unless_nil (some m) found again = found

module _ (p : Primitives) (sv : SignerVerifier) where
  -- The loop: `rand.Int` passes over the numbers that are not below the modulus, and the loop over
  -- those whose product with `x` has no inverse. It ends with a number, the product, and what the
  -- reader has left; it fails when the reader has none left.
  unfoldable pub blind : ℕ → ℕ → List ℕ → Result (ℕ × ℕ × List ℕ)
  blind x n_int [] = err (msg "EOF")
  blind x n_int (c ∷ reader) =
      let again = blind x n_int reader in
      if ltb c n_int
      then (int_as_nat p c sv.n >>= λ r.
          let xr = p.bigmod.mul r x sv.n in
          unless_nil (mod_inverse (nat_as_int p xr sv.n) n_int) (ok (c, xr, reader)) again)
      else again

  -- (sv *signerVerifier) modInverse, with the numbers that the reader has left
  unfoldable pub inverse_of : Bytes → List ℕ → Result (Bytes × List ℕ)
  inverse_of b reader = do
    x ← p.bigmod.set_bytes b sv.n
    let n_int = nat_as_int p sv.n sv.n
    (r, xr, left) ← blind x n_int reader
    m ← not_nil (mod_inverse (nat_as_int p xr sv.n) n_int)
    m_constant ← int_as_nat p m sv.n
    r_constant ← int_as_nat p r sv.n
    private ← fill_bytes (length b) (nat_as_int p (p.bigmod.mul m_constant r_constant sv.n) sv.n)
    ok (private, left)

module _ (p : Primitives) (laws : IsBigmod p.bigmod) (sv : SignerVerifier)
    (key : IsUsable p.bigmod sv) where
  step_ok :
      (x c : ℕ) (reader : List ℕ)
      → x < sv.n
      → c < sv.n
      → blind p sv x sv.n (c ∷ reader)
        ≡ unless_nil
            (mod_inverse ((c * x) % sv.n) sv.n)
            (ok (c, (c * x) % sv.n, reader))
            (blind p sv x sv.n reader)
  unfolding blind
  step_ok x c reader hx hc =
      rw
        (
          below,
          int_as_nat_ok p laws sv.n c hc,
          laws.mul_lem sv.n c x hc hx,
          nat_as_int_lem p laws sv.n ((c * x) % sv.n) (omega (arith, small)),
        )
        refl
    where
      below : ltb c sv.n ≡ true
      below = ground (arith, hc)

      small : (c * x) % sv.n < sv.n
      small = Nat.mod-lt (c * x) (modulus_pos p laws sv key)

  step_nil :
      (x c : ℕ) (reader : List ℕ)
      → x < sv.n
      → c < sv.n
      → mod_inverse ((c * x) % sv.n) sv.n ≡ none
      → blind p sv x sv.n (c ∷ reader) ≡ blind p sv x sv.n reader
  step_nil x c reader hx hc nil = rw nil at (step_ok x c reader hx hc)

  step_found :
      (x c : ℕ) (reader : List ℕ) {m : ℕ}
      → x < sv.n
      → c < sv.n
      → mod_inverse ((c * x) % sv.n) sv.n ≡ some m
      → blind p sv x sv.n (c ∷ reader) ≡ ok (c, (c * x) % sv.n, reader)
  step_found x c reader hx hc found = rw found at (step_ok x c reader hx hc)

  step_over :
      (x c : ℕ) (reader : List ℕ)
      → ltb c sv.n ≡ false
      → blind p sv x sv.n (c ∷ reader) ≡ blind p sv x sv.n reader
  unfolding blind
  step_over x c reader e = rw e refl

  -- The loop ends with a number that has an inverse.
  unfoldable pub IsBlinded : ℕ → ℕ → ℕ → Type 0
  IsBlinded x r xr = (m : ℕ) × (mod_inverse xr sv.n ≡ some m) × (r < sv.n) × (xr ≡ (r * x) % sv.n)

  pub blind-eq-ok :
      (x : ℕ) (reader : List ℕ) {r xr : ℕ} {left : List ℕ}
      → x < sv.n
      → blind p sv x sv.n reader ≡ ok (r, xr, left)
      → IsBlinded x r xr
  unfolding blind IsBlinded
  blind-eq-ok x [] small h = absurd (cc h)
  blind-eq-ok x (c ∷ reader) {r} {xr} {left} small h = elim (Bool-cases (ltb c sv.n)) [
    | inr e ↦ blind-eq-ok x reader small (sym (step_over x c reader e) ∙ h)
    | inl e ↦
        let lt = ltb→lt c sv.n e in
        elim (Option-cases (mod_inverse ((c * x) % sv.n) sv.n)) [
          | inl nil ↦ blind-eq-ok x reader small (sym (step_nil x c reader small lt nil) ∙ h)
          | inr (m, found) ↦
              let end : ok (c, (c * x) % sv.n, reader) ≡ ok (r, xr, left) =
                sym (step_found x c reader small lt found) ∙ h in
              let same : c ≡ r = cc end in
              let product : (c * x) % sv.n ≡ xr = cc end in
              subst (IsBlinded x r) product
                (subst (λ a. IsBlinded x a ((c * x) % sv.n)) same (m, found, lt, refl))
        ]
  ]

  pub blind_total :
      (x : ℕ) (front : List ℕ) (r : ℕ) (back : List ℕ) (z y : ℕ)
      → x < sv.n
      → SameMod sv.n (z * x) 1
      → r < sv.n
      → SameMod sv.n (y * r) 1
      → (found : ℕ × ℕ × List ℕ) × (blind p sv x sv.n (front ++ r ∷ back) ≡ ok found)
  blind_total x [] r back z y small hx hr hy =
      elim (Option-cases (mod_inverse ((r * x) % sv.n) sv.n)) [
        | inl nil ↦ absurd (
            mod_inverse_total sv.n ((r * x) % sv.n) (modulus_pos p laws sv key) (y * z) key.modulus
              inverse nil)
        | inr (m, found) ↦ ((r, (r * x) % sv.n, back), step_found x r back small hr found)
      ]
    where
      inverse : SameMod sv.n ((y * z) * ((r * x) % sv.n)) 1
      inverse =
          SameMod-mul sv.n (y * z) (y * z) ((r * x) % sv.n) (r * x) refl (SameMod-mod sv.n (r * x))
          ∙ ap (λ a. a % sv.n) (Nat.mul-mul-mul_comm y z r x)
          ∙ SameMod-mul sv.n (y * r) 1 (z * x) 1 hy hx
  blind_total x (c ∷ front) r back z y small hx hr hy = elim (Bool-cases (ltb c sv.n)) [
    | inr e ↦
        let (found, h) = blind_total x front r back z y small hx hr hy in
        (found, step_over x c (front ++ r ∷ back) e ∙ h)
    | inl e ↦ elim (Option-cases (mod_inverse ((c * x) % sv.n) sv.n)) [
      | inl nil ↦
          let (found, h) = blind_total x front r back z y small hx hr hy in
          (found, step_nil x c (front ++ r ∷ back) small (ltb→lt c sv.n e) nil ∙ h)
      | inr (m, h) ↦ (
        (c, (c * x) % sv.n, front ++ r ∷ back),
        step_found x c (front ++ r ∷ back) small (ltb→lt c sv.n e) h,
      )
    ]
  ]

  -- The loop reads all there is where the number has no inverse.
  pub blind_stuck :
      (x : ℕ) (reader : List ℕ)
      → x < sv.n
      → ((z : ℕ) → SameMod sv.n (z * x) 1 → ⊥)
      → blind p sv x sv.n reader ≡ err (msg "EOF")
  unfolding blind
  blind_stuck x [] small none_inverse = refl
  blind_stuck x (c ∷ reader) small none_inverse = elim (Bool-cases (ltb c sv.n)) [
    | inr e ↦ step_over x c reader e ∙ blind_stuck x reader small none_inverse
    | inl e ↦ elim (Option-cases (mod_inverse ((c * x) % sv.n) sv.n)) [
      | inl nil ↦
          step_nil x c reader small (ltb→lt c sv.n e) nil ∙ blind_stuck x reader small none_inverse
      | inr (m, h) ↦ absurd (
          none_inverse (m * c) (
            ap (λ a. a % sv.n) (Nat.mul_assoc m c x)
            ∙ sym (SameMod-mul sv.n m m ((c * x) % sv.n) (c * x) refl (SameMod-mod sv.n (c * x)))
            ∙ (mod_inverse-eq-some sv.n ((c * x) % sv.n) (modulus_pos p laws sv key) h).0))
    ]
  ]
