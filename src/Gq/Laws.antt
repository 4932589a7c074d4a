-- ===== src/Gq/Laws.antt =====
-- What gq relies on: the documented behaviour of bigmod and of SHAKE256, and a usable public key.
use openpubkey.Base.{
  ok_inj, ℕ, ◌*◌, ◌%◌, ◌^◌, ◌≤◌, ◌<◌, Result, ok, ◌≡◌, ◌∙◌, ap, List, [], ◌∷◌, arith, ltb, length,
  Bool-cases, inl, inr,
}
use openpubkey.Base.Bytes.{Bytes}
use openpubkey.Base.Bytes.BigEndian.{
  IsBytes, bit_len, value, low_bytes, lt-bit_len, lt-bytes_of_bits, value-low_bytes,
  low_bytes-IsBytes,
}
use openpubkey.Gq.{Bigmod, Primitives, SignerVerifier, bytes_for_bits}
use openpubkey.Gq.Sign.{int_bytes, int_as_nat, nat_as_int, mod_as_int, rand_int}

-- `SetBytes` reads bytes, the highest first, below the modulus; `Bytes` gives bytes of the size of
-- the modulus; `Exp` and `Mul` work modulo the modulus; and `BitLen` bits hold the modulus.
pub record IsBigmod (b : Bigmod) : Type 0 where
  pub set_bytes_lem :
      (n : ℕ) (bs : Bytes) → IsBytes bs → value bs < n → b.set_bytes bs n ≡ ok (value bs)
  pub nat_bytes_lem :
      (n x : ℕ) → x ≤ n → b.nat_bytes x n ≡ low_bytes (bytes_for_bits (b.modulus_bit_len n)) x
  pub exp_lem : (n x : ℕ) (e : Bytes) → x < n → b.exp x e n ≡ x ^ value e % n
  pub mul_lem : (n x y : ℕ) → x < n → y < n → b.mul x y n ≡ (x * y) % n
  pub lt-modulus_bit_len : (n : ℕ) → n < 2 ^ b.modulus_bit_len n

-- `shake` gives as many bytes as it is asked for.
abbrev pub IsShake : (Bytes → ℕ → Result Bytes) → Type 0
IsShake shake =
    (content : Bytes) (count : ℕ)
    → (out : Bytes) × (shake content count ≡ ok out) × (length out ≡ count) × IsBytes out

-- The sizes are those of the numbers, and every question number is below the modulus.
pub record IsUsable (b : Bigmod) (sv : SignerVerifier) : Type 0 where
  pub modulus : 1 < sv.n
  pub exponent : 0 < sv.v
  pub sized : sv.n_bytes ≡ bytes_for_bits (b.modulus_bit_len sv.n)
  pub question : 256 ^ sv.v_bytes ≤ sv.n

pub value-int_bytes : (x : ℕ) → value (int_bytes x) ≡ x
value-int_bytes x =
    value-low_bytes (bytes_for_bits (bit_len x)) x (lt-bytes_of_bits x (bit_len x) (lt-bit_len x))

pub int_bytes-IsBytes : (x : ℕ) → IsBytes (int_bytes x)
int_bytes-IsBytes x =
    low_bytes-IsBytes (bytes_for_bits (bit_len x)) x (lt-bytes_of_bits x (bit_len x) (lt-bit_len x))

pub rand_int-lt :
    (max : ℕ) (reader : List ℕ) {x : ℕ} {left : List ℕ}
    → rand_int max reader ≡ ok (x, left)
    → x < max
unfolding rand_int
rand_int-lt max [] h = absurd (cc h)
rand_int-lt max (y ∷ reader) {x} {left} h = elim (Bool-cases (ltb y max)) [
  | inl e ↦ let same : y ≡ x = cc (ok_inj (rw e at h)) in ground (arith, e, same)
  | inr e ↦ rand_int-lt max reader (rw e at h)
]

module _ (p : Primitives) (laws : IsBigmod p.bigmod) where
  within : (n x : ℕ) → x ≤ n → x < 256 ^ bytes_for_bits (p.bigmod.modulus_bit_len n)
  within n x h =
      lt-bytes_of_bits x (p.bigmod.modulus_bit_len n)
        (let larger = laws.lt-modulus_bit_len n in omega (arith, h, larger))

  pub nat_as_int_lem : (n x : ℕ) → x ≤ n → nat_as_int p x n ≡ x
  nat_as_int_lem n x h =
      ap value (laws.nat_bytes_lem n x h)
      ∙ value-low_bytes (bytes_for_bits (p.bigmod.modulus_bit_len n)) x (within n x h)

  pub mod_as_int_lem : (n : ℕ) → mod_as_int p n ≡ n
  mod_as_int_lem n = nat_as_int_lem n n (omega arith)

  pub int_as_nat_ok : (n x : ℕ) → x < n → int_as_nat p x n ≡ ok x
  int_as_nat_ok n x h =
      laws.set_bytes_lem n (int_bytes x) (int_bytes-IsBytes x) (rw (value-int_bytes x) h)
      ∙ ap ok (value-int_bytes x)
