-- ===== src/Gq/Verify.antt =====
-- gq/verify.go: when a signature is accepted.
pub mod Bounds
use openpubkey.Base.{
  required, required-eq-ok, ok_inj, ℕ, zero, suc, ◌+◌, ◌-◌, ◌*◌, ◌/◌, ◌%◌, ◌^◌, ◌≤◌, ◌<◌, String,
  Error, msg, wrapped, joined, permission, Result, ok, err, panic, require, wrap_err, is_permission,
  bind-eq-ok, bind_ok, wrap_err-eq-ok, require-eq-ok, continue, continue-keeps, continue-eq-ok,
  ◌>>=◌, ◌>>◌, ◌≡◌, ◌≢◌, refl, sym, ◌∙◌, ap, List, [], ◌∷◌, ◌++◌, map, arith, Option, none, some,
  Bool, true, false, ◌||◌, ◌&&◌, not, ltb, leb, ◌==◌, if◌then◌else◌, length, length-append,
  get_elem?, All, Bool-cases, Option-cases, inl, inr, ◌⊎◌, ◌↔◌, ==_iff, ltb→lt,
}
use openpubkey.Base.Bytes.{Bytes, eqb}
use openpubkey.Base.Bytes.BigEndian.{value, low_bytes, fill_bytes, slice, concat}
use openpubkey.Util.Base64.{base64_decode}
use openpubkey.Gq.{Primitives, SignerVerifier}
use openpubkey.Gq.Padding.{encode_pkcs1v15}
use openpubkey.Gq.Sign.{mod_as_int}

-- (sv *signerVerifier) decodeProof
unfoldable pub decode_proof : SignerVerifier → Bytes → Result (Bytes × Bytes)
decode_proof sv s = do
  bin ← base64_decode s
  let r_size = sv.v_bytes * sv.t
  let s_size = sv.n_bytes * sv.t
  require (length bin == r_size + s_size) "not the correct size"
  slice r_size bin

-- The numbers that R is split into, in stage 2.
unfoldable pub challenge_numbers : ℕ → ℕ → Bytes → Result (List ℕ)
challenge_numbers v_bytes zero r = ok []
challenge_numbers v_bytes (suc t) r = do
  (part, rest) ← slice v_bytes r
  xs ← challenge_numbers v_bytes t rest
  ok (value part ∷ xs)

abbrev pub with_number : ℕ → Option (List ℕ) → Option (List ℕ)
with_number x none = none
with_number x (some xs) = some (x ∷ xs)

-- The numbers that S is split into, in stage 2: none where one of them is 0 or not below `n`.
unfoldable pub signature_numbers : ℕ → ℕ → ℕ → Bytes → Result (Option (List ℕ))
signature_numbers n n_bytes zero s = ok (some [])
signature_numbers n n_bytes (suc t) s = slice n_bytes s >>= λ (part, rest).
    let others = signature_numbers n n_bytes t rest in
    if value part == 0 || not (ltb (value part) n)
    then ok none
    else (others >>= λ xs. ok (with_number (value part) xs))

-- Stage 2, the test number W*; `Exp` and `Mod` are those of `big.Int`.
unfoldable pub recovered_number : ℕ → ℕ → ℕ → ℕ → List ℕ → List ℕ → Result Bytes
recovered_number n v n_bytes g (s ∷ ss) (x ∷ xs) = do
  let w = (s ^ v % n * (g ^ x % n)) % n
  front ← fill_bytes n_bytes w
  rest ← recovered_number n v n_bytes g ss xs
  ok (front ++ rest)
recovered_number n v n_bytes g _ _ = ok []

-- `if err != nil { return false }`
abbrev pub or_false {ℓ} : {A : Type ℓ} → Result A → (A → Result Bool) → Result Bool
or_false (ok a) next = next a
or_false (err e) next = ok false
or_false panic next = panic

pub or_false_ok {ℓ} :
    {A : Type ℓ} (r : Result A) (next : A → Result Bool) {a : A} {b : Result Bool}
    → r ≡ ok a
    → next a ≡ b
    → or_false r next ≡ b
or_false_ok (ok x) next e h = ap next (ok_inj e) ∙ h
or_false_ok (err x) next e h = absurd (cc e)
or_false_ok panic next e h = absurd (cc e)

pub or_false-eq-ok {ℓ} :
    {A : Type ℓ} (r : Result A) (next : A → Result Bool)
    → or_false r next ≡ ok true
    → (a : A) × (r ≡ ok a) × (next a ≡ ok true)
or_false-eq-ok (ok a) next h = (a, refl, h)
or_false-eq-ok (err e) next h = absurd (cc h)
or_false-eq-ok panic next h = absurd (cc h)

module _ (p : Primitives) where
  -- stages 3 and 4
  unfoldable pub compare_question : SignerVerifier → Bytes → Bytes → Bytes → Result Bool
  compare_question sv message r w_star =
      or_false (p.shake256 (w_star ++ message) (sv.t * sv.v_bytes)) (λ r_star. ok (eqb r r_star))

  unfoldable pub recover :
      SignerVerifier → ℕ → Bytes → Bytes → List ℕ → Option (List ℕ) → Result Bool
  recover sv g message r xs none = ok false
  recover sv g message r xs (some ss) =
      recovered_number (mod_as_int p sv.n) sv.v sv.n_bytes g ss xs >>= compare_question sv message r

  -- (sv *signerVerifier) Verify, from stage 2 on
  unfoldable pub accepts : SignerVerifier → ℕ → Bytes → Bytes → Bytes → Result Bool
  unfolding recover compare_question
  accepts sv g message r s = do
    xs ← challenge_numbers sv.v_bytes sv.t r
    ss ← signature_numbers (mod_as_int p sv.n) sv.n_bytes sv.t s
    recover sv g message r xs ss

  -- (sv *signerVerifier) Verify
  unfoldable pub verify : SignerVerifier → Bytes → Bytes → Bytes → Result Bool
  unfolding accepts
  verify sv proof identity message = or_false (decode_proof sv proof) (λ (r, s).
      encode_pkcs1v15 p.sha256 sv.n_bytes identity >>= λ padded_identity.
      accepts sv (value padded_identity) message r s)
