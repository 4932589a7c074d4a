-- ===== src/Gq/Signed.antt =====
-- The signatures of gq/sign.go at the verifier of gq/verify.go.
use openpubkey.Base.{
  ℕ, ◌+◌, ◌*◌, ◌%◌, ◌^◌, ◌<◌, ok, require, bind-eq-ok, bind_ok, ◌≡◌, ◌≢◌, refl, sym, ◌∙◌, ap, List,
  ◌++◌, some, true, ◌==◌, length, length-append, All-append, All, ==_iff,
}
use mathlib.Core.Path.{subst, ap₂}
use native.Mathlib.Nat
use openpubkey.Base.Bytes.{Bytes, IsFree, eqb_refl}
use openpubkey.Base.Bytes.BigEndian.{IsBytes, value, slice, slice-append}
use openpubkey.Util.Base64.{base64_encode, base64_decode}
use openpubkey.Util.Base64.RoundTrip.{decode-encode, base64_encode-IsFree}
use openpubkey.Gq.{Primitives, SignerVerifier}
use openpubkey.Gq.Laws.{IsBigmod, IsShake, IsUsable, mod_as_int_lem}
use openpubkey.Gq.Complete.{IsPrivate}
use openpubkey.Gq.Padding.{encode_pkcs1v15}
use openpubkey.Gq.Sign.{
  mod_as_int, random_numbers, test_number, question_numbers, witness_number, encode_proof, sign,
}
use openpubkey.Gq.Stages.{
  random_numbers-eq-ok, question_numbers_ok, signature_numbers_ok, recovered_number_ok,
  witness_number_lem, witnesses,
}
use openpubkey.Gq.Verify.{
  decode_proof, challenge_numbers, signature_numbers, recovered_number, or_false_ok,
  compare_question, recover, accepts, verify,
}

-- A proof is decoded into the parts that it was encoded from.
pub decode_proof-encode_proof :
    (sv : SignerVerifier) (r s : Bytes)
    → IsBytes r
    → IsBytes s
    → length r ≡ sv.v_bytes * sv.t
    → length s ≡ sv.n_bytes * sv.t
    → decode_proof sv (encode_proof r s) ≡ ok (r, s)
unfolding decode_proof
decode_proof-encode_proof sv r s br bs hr hs =
    bind_ok (base64_decode (base64_encode (r ++ s))) _
      (decode-encode (r ++ s) (All-append (λ b. b < 256) r s br bs))
      (bind_ok (require (length (r ++ s) == sv.v_bytes * sv.t + sv.n_bytes * sv.t) _) _
        (rw
          ((==_iff (length (r ++ s)) (sv.v_bytes * sv.t + sv.n_bytes * sv.t)).1
            (length-append r s ∙ ap₂ (λ a b. a + b) hr hs))
          refl)
        (subst (λ k. slice k (r ++ s) ≡ ok (r, s)) hr (slice-append r s)))

module _ (p : Primitives) (laws : IsBigmod p.bigmod) (shake : IsShake p.shake256)
    (sv : SignerVerifier) (key : IsUsable p.bigmod sv) where
  -- Sign, given bytes of a private number below n whose v-th power times the padded identity is 1
  -- modulo n, makes a proof, provided that the reader gives the t random numbers that it draws and
  -- that no v-th power of them is 0 modulo n; and Verify accepts the proof for that identity and the
  -- message. bigmod and SHAKE256 are as documented, the sizes are those of the key, and n is not
  -- below 256 ^ v_bytes.
  pub verify-sign :
      (private identity padded message : Bytes) (reader : List ℕ) {rs left : List ℕ}
      → IsBytes private
      → value private < sv.n
      → encode_pkcs1v15 p.sha256 sv.n_bytes identity ≡ ok padded
      → IsPrivate sv.n sv.v (value private) (value padded)
      → random_numbers p sv.t sv.n reader ≡ ok (rs, left)
      → All (λ r. r ^ sv.v % sv.n ≢ 0) rs
      → (proof : Bytes) × (sign p sv private message reader ≡ ok (proof, left))
        × (verify p sv proof identity message ≡ ok true)
  unfolding sign verify random_numbers accepts recover compare_question
  verify-sign private identity padded message reader {rs} {left} pb small padding secret drawn
        effective =
      (encode_proof r s, signed, verified)
    where
      q : ℕ
      q = value private

      facts : All (λ x. x < sv.n) rs × (length rs ≡ sv.t)
      facts = random_numbers-eq-ok p laws sv key sv.t reader drawn

      hashed :
          (out : Bytes) × (p.shake256 (test_number p sv rs ++ message) (sv.t * sv.v_bytes) ≡ ok out)
          × (length out ≡ sv.t * sv.v_bytes)
          × IsBytes out
      hashed = shake (test_number p sv rs ++ message) (sv.t * sv.v_bytes)

      r : Bytes
      r = hashed.0

      questions :
          (xs : List ℕ) × (question_numbers p sv sv.t r ≡ ok xs)
          × (challenge_numbers sv.v_bytes sv.t r ≡ ok xs)
          × (length xs ≡ sv.t)
          × All (λ x. x < sv.n) xs
      questions = question_numbers_ok p laws sv key sv.t r hashed.2 hashed.3

      xs : List ℕ
      xs = questions.0

      s : Bytes
      s = witness_number p sv q rs xs

      same_length : length rs ≡ length xs
      same_length = facts.1 ∙ sym questions.3

      written : IsBytes s × (length s ≡ sv.n_bytes * length rs)
      written = witness_number_lem p laws sv key q small rs xs same_length facts.0 questions.4

      kept :
          signature_numbers (mod_as_int p sv.n) sv.n_bytes sv.t s
          ≡ ok (some (witnesses p laws sv key q small rs xs))
      kept =
          subst
            (λ t.
              signature_numbers (mod_as_int p sv.n) sv.n_bytes t s
              ≡ ok (some (witnesses p laws sv key q small rs xs)))
            facts.1
            (subst
              (λ n.
                signature_numbers n sv.n_bytes (length rs) s
                ≡ ok (some (witnesses p laws sv key q small rs xs)))
              (sym (mod_as_int_lem p laws sv.n))
              (signature_numbers_ok p laws sv key q small (value padded) secret rs xs same_length
                facts.0 questions.4 effective))

      recovered :
          recovered_number
            (mod_as_int p sv.n)
            sv.v
            sv.n_bytes
            (value padded)
            (witnesses p laws sv key q small rs xs)
            xs
          ≡ ok (test_number p sv rs)
      recovered =
          subst
            (λ n.
              recovered_number n sv.v sv.n_bytes (value padded)
                (witnesses p laws sv key q small rs xs) xs
              ≡ ok (test_number p sv rs))
            (sym (mod_as_int_lem p laws sv.n))
            (recovered_number_ok p laws sv key q small (value padded) secret rs xs same_length
              facts.0)

      signed : sign p sv private message reader ≡ ok (encode_proof r s, left)
      signed =
          bind_ok (p.bigmod.set_bytes private sv.n) _ (laws.set_bytes_lem sv.n private pb small) (
            bind_ok (random_numbers p sv.t sv.n reader) _ drawn (
              bind_ok (p.shake256 (test_number p sv rs ++ message) (sv.t * sv.v_bytes)) _ hashed.1
                (bind_ok (question_numbers p sv sv.t r) _ questions.1 refl)))

      verified : verify p sv (encode_proof r s) identity message ≡ ok true
      verified =
          or_false_ok (decode_proof sv (encode_proof r s)) _
            (decode_proof-encode_proof sv r s hashed.3 written.0
              (hashed.2 ∙ Nat.mul_comm sv.t sv.v_bytes)
              (written.1 ∙ ap (λ k. sv.n_bytes * k) facts.1))
            (bind_ok (encode_pkcs1v15 p.sha256 sv.n_bytes identity) _ padding (
              bind_ok (challenge_numbers sv.v_bytes sv.t r) _ questions.2 (
                bind_ok (signature_numbers (mod_as_int p sv.n) sv.n_bytes sv.t s) _ kept (
                  bind_ok
                    (recovered_number (mod_as_int p sv.n) sv.v sv.n_bytes (value padded)
                      (witnesses p laws sv key q small rs xs) xs)
                    _ recovered
                    (or_false_ok (p.shake256 (test_number p sv rs ++ message) (sv.t * sv.v_bytes)) _
                      hashed.1 (ap ok (eqb_refl r)))))))

  -- No dot stands in a signature.
  pub sign-IsFree :
      (private message : Bytes) (reader : List ℕ) {proof : Bytes} {left : List ℕ}
      → sign p sv private message reader ≡ ok (proof, left)
      → IsFree b'.' proof
  unfolding sign
  sign-IsFree private message reader {proof} h =
      let (q, _, h1) = bind-eq-ok (p.bigmod.set_bytes private sv.n) _ h in
      let ((rs, left), _, h2) = bind-eq-ok (random_numbers p sv.t sv.n reader) _ h1 in
      let (r, _, h3) =
        bind-eq-ok (p.shake256 (test_number p sv rs ++ message) (sv.t * sv.v_bytes)) _ h2 in
      let (xs, _, h4) = bind-eq-ok (question_numbers p sv sv.t r) _ h3 in
      let made : encode_proof r (witness_number p sv q rs xs) ≡ proof = cc h4 in
      subst (IsFree b'.') made (base64_encode-IsFree (r ++ witness_number p sv q rs xs))
