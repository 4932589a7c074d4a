-- ===== src/Gq.antt =====
-- gq/: GQ1 signatures (ISO/IEC 14888-2). A signature shows that the signer holds an RSA signature
-- without giving it away. gq/gq.go, and gq/rsa.go and gq/bigutil.go with what they use.
pub mod Modular
pub mod Padding
pub mod Sign
pub mod Verify
pub mod Complete
pub mod Laws
pub mod Stages
pub mod Signed
pub mod Inverse
pub mod Blinding
pub mod Inverted
pub mod Jwt
pub mod Keys
pub mod Tests
use openpubkey.Base.{
  required, required-eq-ok, ok_inj, ℕ, zero, suc, ◌+◌, ◌-◌, ◌*◌, ◌/◌, ◌%◌, ◌^◌, ◌≤◌, ◌<◌, String,
  Error, msg, wrapped, joined, permission, Result, ok, err, panic, require, wrap_err, is_permission,
  bind-eq-ok, bind_ok, wrap_err-eq-ok, require-eq-ok, continue, continue-keeps, continue-eq-ok,
  ◌>>=◌, ◌>>◌, ◌≡◌, ◌≢◌, refl, sym, ◌∙◌, ap, List, [], ◌∷◌, ◌++◌, map, arith, Option, none, some,
  Bool, true, false, ◌||◌, ◌&&◌, not, ltb, leb, ◌==◌, if◌then◌else◌, length, length-append,
  get_elem?, All, Bool-cases, Option-cases, inl, inr, ◌⊎◌, ◌↔◌, ==_iff, ltb→lt,
}
use openpubkey.Base.Bytes.{Bytes, str}
use openpubkey.Base.Bytes.BigEndian.{bit_len, value, low_bytes}

-- filippo.io/bigmod: `NewModulusFromBig`, `BitLen`, and on naturals below a modulus `SetBytes`,
-- `Bytes`, `Exp` and `Mul`. A modulus and a natural are their values.
pub record Bigmod : Type 0 where
  pub new_modulus : ℕ → Result ℕ
  pub modulus_bit_len : ℕ → ℕ
  pub set_bytes : Bytes → ℕ → Result ℕ
  pub nat_bytes : ℕ → ℕ → Bytes
  pub exp : ℕ → Bytes → ℕ → ℕ
  pub mul : ℕ → ℕ → ℕ → ℕ

-- `bigmod`, and the bytes that SHAKE256 and SHA-256 make of some data
pub record Primitives : Type 0 where
  pub bigmod : Bigmod
  pub shake256 : Bytes → ℕ → Result Bytes
  pub sha256 : Bytes → Bytes

pub record SignerVerifier : Type 0 where
  pub n : ℕ
  pub v : ℕ
  pub n_bytes : ℕ
  pub v_bytes : ℕ
  pub t : ℕ

-- bytesForBits
abbrev pub bytes_for_bits : ℕ → ℕ
bytes_for_bits bits = (bits + 7) / 8

-- The named results of `parsePublicKey`: zero values beside an error.
abbrev pub Parsed : Type 0
Parsed = (ℕ × ℕ × ℕ × ℕ) × Result (Unit {0})

module _ (p : Primitives) where
  -- parsePublicKey
  unfoldable pub parse_public_key : ℕ → ℕ → Parsed
  parse_public_key modulus exponent = parsed (p.bigmod.new_modulus modulus)
    where
      parsed : Result ℕ → Parsed
      parsed (ok n) = (
        (
          n,
          exponent,
          bytes_for_bits (p.bigmod.modulus_bit_len n),
          bytes_for_bits (bit_len exponent - 1),
        ),
        ok tt,
      )
      parsed (err e) = ((0, 0, 0, 0), err e)
      parsed panic = ((0, 0, 0, 0), panic)

  -- `a / b` on integers that are not negative
  abbrev pub divide : ℕ → ℕ → Result ℕ
  divide a zero = panic
  divide a (suc b) = ok (a / suc b)

  -- NewSignerVerifier
  unfoldable pub new_signer_verifier : ℕ → ℕ → ℕ → Result SignerVerifier
  unfolding parse_public_key
  new_signer_verifier modulus exponent security_parameter = do
    require (exponent == 65537)
        "only 65537 is currently supported, unsupported RSA public key exponent: %d"
    let ((n, v, n_bytes, v_bytes), failed) = parse_public_key modulus exponent
    t ← divide security_parameter (v_bytes * 8)
    failed >>= λ _. ok (record { n = n; v = v; n_bytes = n_bytes; v_bytes = v_bytes; t = t })
