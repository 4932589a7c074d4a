-- ===== src/Gq/Verify/Bounds.antt =====
-- What `Verify` of gq/verify.go requires of a proof that it accepts.
use openpubkey.Base.{
  ok_inj, ℕ, zero, suc, ◌*◌, ◌<◌, ok, bind-eq-ok, ◌≡◌, refl, ◌∙◌, ap, List, [], ◌∷◌, ◌++◌, arith,
  Option, none, some, ◌||◌, not, ltb, ◌==◌, length, All, Bool-cases, inl, inr,
}
use mathlib.Core.Path.{subst}
use openpubkey.Base.Bytes.{Bytes}
use openpubkey.Base.Bytes.BigEndian.{value, slice}
use openpubkey.Util.Base64.{base64_decode}
use openpubkey.Gq.{Primitives, SignerVerifier}
use openpubkey.Gq.Padding.{encode_pkcs1v15}
use openpubkey.Gq.Sign.{mod_as_int}
use openpubkey.Gq.Verify.{challenge_numbers, signature_numbers, with_number, recovered_number}

abbrev pub IsWithin : ℕ → ℕ → Type 0
IsWithin n s = (0 < s) × (s < n)

with_number-eq-some :
    (x : ℕ) (o : Option (List ℕ)) {ys : List ℕ}
    → with_number x o ≡ some ys
    → (xs : List ℕ) × (o ≡ some xs) × (x ∷ xs ≡ ys)
with_number-eq-some x none e = absurd (cc e)
with_number-eq-some x (some xs) e = (xs, refl, cc e)

-- The numbers of S that are not rejected are `t` numbers from 1 to `n - 1`.
pub signature_numbers-eq-ok :
    (n n_bytes t : ℕ) (s : Bytes) {ss : List ℕ}
    → signature_numbers n n_bytes t s ≡ ok (some ss)
    → All (IsWithin n) ss × (length ss ≡ t)
unfolding signature_numbers
signature_numbers-eq-ok n n_bytes zero s {ss} h =
    let none_left : [] ≡ ss = cc h in
    subst (λ l. All (IsWithin n) l × (length l ≡ 0)) none_left (tt, refl)
signature_numbers-eq-ok n n_bytes (suc t) s {ss} h =
    let ((part, rest), cut, h1) = bind-eq-ok (slice n_bytes s) _ h in
    elim (Bool-cases (value part == 0 || not (ltb (value part) n))) [
      | inl bad ↦ absurd (cc (rw bad at h1))
      | inr good ↦
          let h2 = rw good at h1 in
          let (xs, others, h3) = bind-eq-ok (signature_numbers n n_bytes t rest) _ h2 in
          let (found, others_found, whole) = with_number-eq-some (value part) xs (ok_inj h3) in
          let (within, count) =
            signature_numbers-eq-ok n n_bytes t rest (others ∙ ap ok others_found) in
          subst (λ l. All (IsWithin n) l × (length l ≡ suc t)) whole
            ((ground (arith, good), within), ap suc count)
    ]

-- The parts of a proof that is accepted.
pub record IsAccepted (p : Primitives) (sv : SignerVerifier) (proof identity message : Bytes)
    : Type 0 where
  pub r : Bytes
  pub s : Bytes
  pub padded : Bytes
  pub questions : List ℕ
  pub numbers : List ℕ
  pub recovered : Bytes
  pub decoded : base64_decode proof ≡ ok (r ++ s)
  pub r_sized : length r ≡ sv.v_bytes * sv.t
  pub s_sized : length s ≡ sv.n_bytes * sv.t
  pub padding : encode_pkcs1v15 p.sha256 sv.n_bytes identity ≡ ok padded
  pub asked : challenge_numbers sv.v_bytes sv.t r ≡ ok questions
  pub split : signature_numbers (mod_as_int p sv.n) sv.n_bytes sv.t s ≡ ok (some numbers)
  pub within : All (IsWithin (mod_as_int p sv.n)) numbers × (length numbers ≡ sv.t)
  pub test :
      recovered_number (mod_as_int p sv.n) sv.v sv.n_bytes (value padded) numbers questions
      ≡ ok recovered
  pub hashed : p.shake256 (recovered ++ message) (sv.t * sv.v_bytes) ≡ ok r
