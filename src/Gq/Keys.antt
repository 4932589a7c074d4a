-- ===== src/Gq/Keys.antt =====
-- `NewSignerVerifier` of gq/gq.go, at keys that it takes and at keys that it does not.
use openpubkey.Base.{
  ok_inj, ℕ, ◌/◌, Error, Result, ok, err, panic, require, bind-eq-ok, require-eq-ok, ◌≡◌, refl, sym,
  ◌∙◌, ap, ◌==◌, ◌↔◌, ==_iff,
}
use mathlib.Core.Path.{subst}
use openpubkey.Base.Bytes.{Bytes}
use openpubkey.Base.Bytes.BigEndian.{bit_len}
use openpubkey.PkToken.Jwx.{Jwx}
use openpubkey.Gq.{
  Primitives, SignerVerifier, bytes_for_bits, parse_public_key, new_signer_verifier,
}
use openpubkey.Gq.Jwt.{JwsLib, gq256_verify_jwt}

module _ (p : Primitives) where
  -- the state of a signer and verifier with a security parameter
  abbrev pub sv_of : ℕ → ℕ → SignerVerifier
  sv_of n security = record {
    n = n;
    v = 65537;
    n_bytes = bytes_for_bits (p.bigmod.modulus_bit_len n);
    v_bytes = 2;
    t = security / 16;
  }

  pub new_signer_verifier_ok :
      (modulus security : ℕ) {n : ℕ}
      → p.bigmod.new_modulus modulus ≡ ok n
      → new_signer_verifier p modulus 65537 security ≡ ok (sv_of n security)
  unfolding new_signer_verifier parse_public_key bit_len
  new_signer_verifier_ok modulus security made = rw made refl

  modulus_taken :
      (modulus security : ℕ) (made : Result ℕ) {sv : SignerVerifier}
      → p.bigmod.new_modulus modulus ≡ made
      → new_signer_verifier p modulus 65537 security ≡ ok sv
      → (n : ℕ) × (p.bigmod.new_modulus modulus ≡ ok n) × (sv_of n security ≡ sv)
  unfolding new_signer_verifier parse_public_key
  modulus_taken modulus security (ok n) e h =
      (n, e, ok_inj (sym (new_signer_verifier_ok modulus security e) ∙ h))
  modulus_taken modulus security (err x) e h = absurd (cc (rw e at h))
  modulus_taken modulus security panic e h = absurd (cc (rw e at h))

  -- NewSignerVerifier succeeds exactly at the exponent 65537 and a modulus that bigmod takes, and then
  -- with 2 bytes for a question number, with the bytes that the modulus fills, and with one question
  -- number for every 16 bits of the security parameter.
  pub new_signer_verifier_iff :
      (modulus exponent security : ℕ) (sv : SignerVerifier)
      → (new_signer_verifier p modulus exponent security ≡ ok sv) ↔ (
          (exponent ≡ 65537)
          × (n : ℕ) × (p.bigmod.new_modulus modulus ≡ ok n)
          × (sv_of n security ≡ sv))
  unfolding new_signer_verifier parse_public_key
  new_signer_verifier_iff modulus exponent security sv = (
    λ h.
        let (_, checked, h1) = bind-eq-ok (require (exponent == 65537) _) _ h in
        let same : exponent ≡ 65537 = (==_iff exponent 65537).0 (require-eq-ok _ _ checked) in
        let at_65537 = subst (λ e. new_signer_verifier p modulus e security ≡ ok sv) same h in
        let (n, taken, made) =
          modulus_taken modulus security (p.bigmod.new_modulus modulus) refl at_65537 in
        (same, n, taken, made),
    λ (same, n, taken, made).
        subst (λ e. new_signer_verifier p modulus e security ≡ ok sv) (sym same)
          (new_signer_verifier_ok modulus security taken ∙ ap ok made),
  )

  -- GQ256VerifyJWT panics at every token where the key has the exponent 65537 and a modulus that
  -- bigmod refuses with an error: the error is not returned.
  pub gq256_verify_jwt_refused :
      {H Key : Type 0} (jws : JwsLib H) (jwx : Jwx Key) (modulus : ℕ) (token : Bytes) {e : Error}
      → p.bigmod.new_modulus modulus ≡ err e
      → gq256_verify_jwt jws p jwx (modulus, 65537) token ≡ panic
  unfolding gq256_verify_jwt new_signer_verifier parse_public_key
  gq256_verify_jwt_refused jws jwx modulus token refused = rw refused refl
