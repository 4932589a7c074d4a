-- ===== src/Gq/Inverted.antt =====
-- `modInverse` of gq/sign.go: when it ends, and with what.
use openpubkey.Base.{
  ℕ, ◌*◌, ◌%◌, ◌<◌, msg, ok, err, bind_ok, ◌≡◌, refl, sym, ◌∙◌, ap, List, ◌∷◌, ◌++◌, arith, length,
}
use mathlib.Core.Path.{subst}
use native.Mathlib.Nat
use openpubkey.Base.Bytes.{Bytes}
use openpubkey.Base.Bytes.BigEndian.{
  IsBytes, value, low_bytes, fill_bytes, fill_bytes_ok, value-low_bytes, low_bytes-IsBytes,
}
use openpubkey.Gq.{Primitives, SignerVerifier}
use openpubkey.Gq.Inverse.{mod_inverse, mod_inverse-eq-some}
use openpubkey.Gq.Modular.{SameMod, SameMod-mod, SameMod-mul}
use openpubkey.Gq.Laws.{IsBigmod, IsUsable, nat_as_int_lem, int_as_nat_ok}
use openpubkey.Gq.Sign.{int_as_nat, nat_as_int}
use openpubkey.Gq.Stages.{modulus_pos, fits}
use openpubkey.Gq.Blinding.{
  not_nil, blind, inverse_of, IsBlinded, blind-eq-ok, blind_total, blind_stuck,
}

module _ (p : Primitives) (laws : IsBigmod p.bigmod) (sv : SignerVerifier)
    (key : IsUsable p.bigmod sv) where
  -- The bytes are those of an inverse of `x`.
  abbrev pub IsInverse : ℕ → Bytes → Type 0
  IsInverse x private =
      IsBytes private × (value private < sv.n) × SameMod sv.n (value private * x) 1

  -- the product that takes the blinding away
  unblinded :
      (x r xr m : ℕ)
      → xr ≡ (r * x) % sv.n
      → SameMod sv.n (m * xr) 1
      → SameMod sv.n ((m * r) % sv.n * x) 1
  unblinded x r xr m product h =
      SameMod-mul sv.n ((m * r) % sv.n) (m * r) x x (SameMod-mod sv.n (m * r)) refl
      ∙ ap (λ a. a % sv.n) (Nat.mul_assoc m r x)
      ∙ sym (
          SameMod-mul sv.n m m xr (r * x) refl
            (ap (λ a. a % sv.n) product ∙ SameMod-mod sv.n (r * x)))
      ∙ h

  pub inverse_of-blind :
      (b : Bytes) (reader : List ℕ) {r xr : ℕ} {left : List ℕ}
      → IsBytes b
      → value b < sv.n
      → length b ≡ sv.n_bytes
      → blind p sv (value b) sv.n reader ≡ ok (r, xr, left)
      → (private : Bytes) × (inverse_of p sv b reader ≡ ok (private, left))
        × IsInverse (value b) private
  unfolding inverse_of IsBlinded
  inverse_of-blind b reader {r} {xr} {left} bytes small size ended = (
    low_bytes sv.n_bytes q,
    made,
    (
      low_bytes-IsBytes sv.n_bytes q (fits p laws sv key q below),
      subst (λ a. a < sv.n) (sym back) below,
      subst (λ a. SameMod sv.n (a * value b) 1) (sym back)
          (unblinded (value b) r xr m product (inverse.0)),
    ),
  )
    where
      blinded : IsBlinded p laws sv key (value b) r xr
      blinded = blind-eq-ok p laws sv key (value b) reader small ended

      m : ℕ
      m = blinded.0

      product : xr ≡ (r * value b) % sv.n
      product = blinded.3

      xr_small : xr < sv.n
      xr_small =
          subst (λ a. a < sv.n) (sym product) (Nat.mod-lt (r * value b) (modulus_pos p laws sv key))

      inverse : SameMod sv.n (m * xr) 1 × (m < sv.n)
      inverse = mod_inverse-eq-some sv.n xr (modulus_pos p laws sv key) blinded.1

      q : ℕ
      q = (m * r) % sv.n

      below : q < sv.n
      below = Nat.mod-lt (m * r) (modulus_pos p laws sv key)

      back : value (low_bytes sv.n_bytes q) ≡ q
      back = value-low_bytes sv.n_bytes q (fits p laws sv key q below)

      made : inverse_of p sv b reader ≡ ok (low_bytes sv.n_bytes q, left)
      made = bind_ok (p.bigmod.set_bytes b sv.n) _ (laws.set_bytes_lem sv.n b bytes small) (
          rw (nat_as_int_lem p laws sv.n sv.n (omega arith)) (
            bind_ok (blind p sv (value b) sv.n reader) _ ended (
              bind_ok (not_nil (mod_inverse (nat_as_int p xr sv.n) sv.n)) _
                (ap (λ a. not_nil (mod_inverse a sv.n))
                    (nat_as_int_lem p laws sv.n xr (omega (arith, xr_small)))
                  ∙ ap not_nil blinded.1)
                (bind_ok (int_as_nat p m sv.n) _ (int_as_nat_ok p laws sv.n m inverse.1) (
                  bind_ok (int_as_nat p r sv.n) _ (int_as_nat_ok p laws sv.n r blinded.2) (
                    bind_ok (fill_bytes (length b) (nat_as_int p (p.bigmod.mul m r sv.n) sv.n)) _
                      (ap (λ a. fill_bytes (length b) (nat_as_int p a sv.n))
                          (laws.mul_lem sv.n m r inverse.1 blinded.2)
                        ∙ ap (fill_bytes (length b))
                            (nat_as_int_lem p laws sv.n q (omega (arith, below)))
                        ∙ ap (λ k. fill_bytes k q) size
                        ∙ fill_bytes_ok sv.n_bytes q (fits p laws sv key q below))
                      refl))))))

  -- modInverse of n_bytes bytes of a number below n ends with bytes of an inverse of it modulo n,
  -- provided that it has one (z) and that some number r which the reader gives is below n and has
  -- one (y), whatever stands before and after r. bigmod is as documented and the sizes are those of
  -- the key.
  pub inverse_of_total :
      (b : Bytes) (front : List ℕ) (r : ℕ) (back : List ℕ) (z y : ℕ)
      → IsBytes b
      → value b < sv.n
      → length b ≡ sv.n_bytes
      → SameMod sv.n (z * value b) 1
      → r < sv.n
      → SameMod sv.n (y * r) 1
      → (private : Bytes) × (left : List ℕ) × (inverse_of p sv b (front ++ r ∷ back)
          ≡ ok (private, left))
        × IsInverse (value b) private
  inverse_of_total b front r back z y bytes small size invertible below drawn =
      let ((r', xr, left), ended) =
        blind_total p laws sv key (value b) front r back z y small invertible below drawn in
      let (private, made, inverse) =
        inverse_of-blind b (front ++ r ∷ back) bytes small size ended in
      (private, left, made, inverse)

  -- modInverse of bytes of a number below n that has no inverse modulo n uses up the reader, whatever
  -- it gives: it ends only because the reader ends, with the error of the reader. bigmod is as
  -- documented and the sizes are those of the key.
  pub inverse_of_stuck :
      (b : Bytes) (reader : List ℕ)
      → IsBytes b
      → value b < sv.n
      → ((z : ℕ) → SameMod sv.n (z * value b) 1 → ⊥)
      → inverse_of p sv b reader ≡ err (msg "EOF")
  unfolding inverse_of
  inverse_of_stuck b reader bytes small none_inverse =
      rw
        (
          laws.set_bytes_lem sv.n b bytes small,
          nat_as_int_lem p laws sv.n sv.n (omega arith),
          blind_stuck p laws sv key (value b) reader small none_inverse,
        )
        refl
