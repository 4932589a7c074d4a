-- ===== src/Gq/Stages.antt =====
-- The stages of `Sign` of gq/sign.go and those of `Verify` of gq/verify.go, side by side.
use openpubkey.Base.{
  ok_inj, ℕ, zero, suc, ◌*◌, ◌%◌, ◌^◌, ◌<◌, ok, bind-eq-ok, bind_ok, ◌≡◌, ◌≢◌, refl, sym, ◌∙◌, ap,
  List, [], ◌∷◌, ◌++◌, arith, some, false, ◌||◌, not, ltb, ◌==◌, length, length-append, All-append,
  All,
}
use mathlib.Core.Path.{subst}
use native.Mathlib.Nat
use openpubkey.Base.Bytes.{Bytes}
use openpubkey.Base.Bytes.BigEndian.{
  IsBytes, value, value-lt, low_bytes, fill_bytes, fill_bytes_ok, slice, slice-append, slice-within,
  value-low_bytes, length-low_bytes, low_bytes-IsBytes, lt-bytes_of_bits,
}
use openpubkey.Gq.{Primitives, SignerVerifier}
use openpubkey.Gq.Laws.{
  IsBigmod, IsUsable, value-int_bytes, rand_int-lt, nat_as_int_lem, mod_as_int_lem, int_as_nat_ok,
}
use openpubkey.Gq.Complete.{witness_of, IsPrivate, recovered-witness_of, witness_of_nonzero}
use openpubkey.Gq.Sign.{
  int_bytes, int_as_nat, mod_as_int, rand_int, random_below, test_number, question_numbers,
  witness_number,
}
use openpubkey.Gq.Verify.{challenge_numbers, signature_numbers, recovered_number}

module _ (p : Primitives) (laws : IsBigmod p.bigmod) (sv : SignerVerifier)
    (key : IsUsable p.bigmod sv) where
  abbrev AreBelow : List ℕ → Type 0
  AreBelow = All (λ x. x < sv.n)

  -- Random numbers are as many as asked for, and below the modulus.
  pub random_numbers-eq-ok :
      (t : ℕ) (reader : List ℕ) {rs left : List ℕ}
      → random_below p t (mod_as_int p sv.n) sv.n reader ≡ ok (rs, left)
      → AreBelow rs × (length rs ≡ t)
  unfolding random_below
  random_numbers-eq-ok zero reader {rs} h =
      let none_drawn : [] ≡ rs = cc h in
      subst (λ l. AreBelow l × (length l ≡ 0)) none_drawn (tt, refl)
  random_numbers-eq-ok (suc t) reader {rs} h =
      let ((r, rest), drawn, h1) = bind-eq-ok (rand_int (mod_as_int p sv.n) reader) _ h in
      let small : r < sv.n =
        subst (λ n. r < n) (mod_as_int_lem p laws sv.n)
          (rand_int-lt (mod_as_int p sv.n) reader drawn) in
      let (y, read, h2) = bind-eq-ok (int_as_nat p r sv.n) _ h1 in
      let ((ys, end), others, h3) =
        bind-eq-ok (random_below p t (mod_as_int p sv.n) sv.n rest) _ h2 in
      let (below, count) = random_numbers-eq-ok t rest others in
      let made : y ∷ ys ≡ rs = cc h3 in
      let same : r ≡ y = ok_inj (sym (int_as_nat_ok p laws sv.n r small) ∙ read) in
      subst (λ l. AreBelow l × (length l ≡ suc t)) made
        ((subst (λ a. a < sv.n) same small, below), ap suc count)

  pub modulus_pos : 0 < sv.n
  modulus_pos = let above = key.modulus in omega (arith, above)

  pub fits : (x : ℕ) → x < sv.n → x < 256 ^ sv.n_bytes
  fits x h =
      let held = laws.lt-modulus_bit_len sv.n in
      subst (λ k. x < 256 ^ k) (sym key.sized)
        (lt-bytes_of_bits x (p.bigmod.modulus_bit_len sv.n) (omega (arith, h, held)))

  -- a number below the modulus as the signer writes it
  pub nat_bytes_ok : (x : ℕ) → x < sv.n → p.bigmod.nat_bytes x sv.n ≡ low_bytes sv.n_bytes x
  nat_bytes_ok x h =
      laws.nat_bytes_lem sv.n x (omega (arith, h)) ∙ ap (λ k. low_bytes k x) (sym key.sized)

  -- The question numbers of the signer and of the verifier are the same.
  pub question_numbers_ok :
      (t : ℕ) (r : Bytes)
      → length r ≡ t * sv.v_bytes
      → IsBytes r
      → (xs : List ℕ) × (question_numbers p sv t r ≡ ok xs)
        × (challenge_numbers sv.v_bytes t r ≡ ok xs)
        × (length xs ≡ t)
        × AreBelow xs
  unfolding question_numbers challenge_numbers
  question_numbers_ok zero r size b = ([], refl, refl, refl, tt)
  question_numbers_ok (suc t) r size b =
      let (part, rest, cut, whole, width, pb, rb) =
        slice-within sv.v_bytes r (grind (arith, size)) b in
      let left : length rest ≡ t * sv.v_bytes =
        grind (arith, size, width, ap length whole, length-append part rest) in
      let small : value part < sv.n =
        let bound : value part < 256 ^ sv.v_bytes =
          subst (λ k. value part < 256 ^ k) width (value-lt part pb) in
        let question = key.question in omega (arith, bound, question) in
      let (xs, signed, verified, count, below) = question_numbers_ok t rest left rb in
      (
        value part ∷ xs,
        bind_ok (slice sv.v_bytes r) _ cut (
            bind_ok (p.bigmod.set_bytes part sv.n) _ (laws.set_bytes_lem sv.n part pb small)
              (bind_ok (question_numbers p sv t rest) _ signed refl)),
        bind_ok (slice sv.v_bytes r) _ cut
            (bind_ok (challenge_numbers sv.v_bytes t rest) _ verified refl),
        ap suc count,
        (small, below),
      )

  slice-low_bytes :
      (x : ℕ) (tail : Bytes)
      → slice sv.n_bytes (low_bytes sv.n_bytes x ++ tail) ≡ ok (low_bytes sv.n_bytes x, tail)
  slice-low_bytes x tail =
      subst (λ k. slice k (low_bytes sv.n_bytes x ++ tail) ≡ ok (low_bytes sv.n_bytes x, tail))
        (length-low_bytes sv.n_bytes x) (slice-append (low_bytes sv.n_bytes x) tail)

  not_rejected : (x : ℕ) → x ≢ 0 → x < sv.n → (x == 0 || not (ltb x sv.n)) ≡ false
  not_rejected x h k = ground arith

  module _ (q : ℕ) (small : q < sv.n) where
    abbrev pub witnesses : List ℕ → List ℕ → List ℕ
    witnesses (r ∷ rs) (x ∷ xs) = witness_of sv.n q r x ∷ witnesses rs xs
    witnesses _ _ = []

    -- one part of S
    abbrev part_of : ℕ → ℕ → Bytes
    part_of r x =
        p.bigmod.nat_bytes (p.bigmod.mul (p.bigmod.exp q (p.bigmod.nat_bytes x sv.n) sv.n) r sv.n)
          sv.n

    part_of_lem :
        (r x : ℕ) → r < sv.n → x < sv.n → part_of r x ≡ low_bytes sv.n_bytes (witness_of sv.n q r x)
    part_of_lem r x hr hx =
        ap (λ e. p.bigmod.nat_bytes (p.bigmod.mul e r sv.n) sv.n) power
        ∙ ap (λ m. p.bigmod.nat_bytes m sv.n)
            (laws.mul_lem sv.n (q ^ x % sv.n) r (Nat.mod-lt (q ^ x) modulus_pos) hr)
        ∙ nat_bytes_ok (witness_of sv.n q r x) (Nat.mod-lt (q ^ x % sv.n * r) modulus_pos)
      where
        power : p.bigmod.exp q (p.bigmod.nat_bytes x sv.n) sv.n ≡ q ^ x % sv.n
        power =
            laws.exp_lem sv.n q (p.bigmod.nat_bytes x sv.n) small
            ∙ ap (λ e. q ^ e % sv.n) (nat_as_int_lem p laws sv.n x (omega (arith, hx)))

    abbrev AreEffective : List ℕ → Type 0
    AreEffective = All (λ r. r ^ sv.v % sv.n ≢ 0)

    module _ (g : ℕ) (private : IsPrivate sv.n sv.v q g) where
      -- No number of S is rejected.
      pub signature_numbers_ok :
          (rs xs : List ℕ)
          → length rs ≡ length xs
          → AreBelow rs
          → AreBelow xs
          → AreEffective rs
          → signature_numbers sv.n sv.n_bytes (length rs) (witness_number p sv q rs xs)
            ≡ ok (some (witnesses rs xs))
      unfolding signature_numbers witness_number
      signature_numbers_ok [] [] e hr hx he = refl
      signature_numbers_ok [] (x ∷ xs) e hr hx he = absurd (omega (arith, e))
      signature_numbers_ok (r ∷ rs) [] e hr hx he = absurd (omega (arith, e))
      signature_numbers_ok (r ∷ rs) (x ∷ xs) e (hr, hrs) (hx, hxs) (he, hes) =
          bind_ok (slice sv.n_bytes (part_of r x ++ witness_number p sv q rs xs)) _
            (ap (λ b. slice sv.n_bytes (b ++ witness_number p sv q rs xs)) (part_of_lem r x hr hx)
              ∙ slice-low_bytes (witness_of sv.n q r x) (witness_number p sv q rs xs))
            (rw
              (
                value-low_bytes sv.n_bytes (witness_of sv.n q r x)
                    (fits (witness_of sv.n q r x) held),
                not_rejected (witness_of sv.n q r x) nonzero held,
              )
              (bind_ok (signature_numbers sv.n sv.n_bytes (length rs) (witness_number p sv q rs xs))
                _ (signature_numbers_ok rs xs (omega (arith, e)) hrs hxs hes) refl))
        where
          held : witness_of sv.n q r x < sv.n
          held = Nat.mod-lt (q ^ x % sv.n * r) modulus_pos

          nonzero : witness_of sv.n q r x ≢ 0
          nonzero = witness_of_nonzero sv.n sv.v q g private r x key.exponent he

      -- The test number is recovered.
      pub recovered_number_ok :
          (rs xs : List ℕ)
          → length rs ≡ length xs
          → AreBelow rs
          → recovered_number sv.n sv.v sv.n_bytes g (witnesses rs xs) xs ≡ ok (test_number p sv rs)
      unfolding recovered_number test_number
      recovered_number_ok [] [] e hr = refl
      recovered_number_ok [] (x ∷ xs) e hr = absurd (omega (arith, e))
      recovered_number_ok (r ∷ rs) [] e hr = absurd (omega (arith, e))
      recovered_number_ok (r ∷ rs) (x ∷ xs) e (hr, hrs) =
          bind_ok (fill_bytes sv.n_bytes recovered) _
            (fill_bytes_ok sv.n_bytes recovered (
              fits recovered
                (Nat.mod-lt (witness_of sv.n q r x ^ sv.v % sv.n * (g ^ x % sv.n)) modulus_pos)))
            (bind_ok (recovered_number sv.n sv.v sv.n_bytes g (witnesses rs xs) xs) _
              (recovered_number_ok rs xs (omega (arith, e)) hrs)
              (ap (λ b. ok (b ++ test_number p sv rs)) same))
        where
          recovered : ℕ
          recovered = (witness_of sv.n q r x ^ sv.v % sv.n * (g ^ x % sv.n)) % sv.n

          same :
              low_bytes sv.n_bytes recovered
              ≡ p.bigmod.nat_bytes (p.bigmod.exp r (int_bytes sv.v) sv.n) sv.n
          same =
              ap (low_bytes sv.n_bytes) (recovered-witness_of sv.n sv.v q g private r x)
              ∙ sym (nat_bytes_ok (r ^ sv.v % sv.n) (Nat.mod-lt (r ^ sv.v) modulus_pos))
              ∙ ap (λ m. p.bigmod.nat_bytes m sv.n)
                  (sym (
                    laws.exp_lem sv.n r (int_bytes sv.v) hr
                    ∙ ap (λ k. r ^ k % sv.n) (value-int_bytes sv.v)))

    pub witness_number_lem :
        (rs xs : List ℕ)
        → length rs ≡ length xs
        → AreBelow rs
        → AreBelow xs
        → IsBytes (witness_number p sv q rs xs)
          × (length (witness_number p sv q rs xs) ≡ sv.n_bytes * length rs)
    unfolding witness_number
    witness_number_lem [] xs e hr hx = (tt, omega arith)
    witness_number_lem (r ∷ rs) [] e hr hx = absurd (omega (arith, e))
    witness_number_lem (r ∷ rs) (x ∷ xs) e (hr, hrs) (hx, hxs) =
        let (others, size) = witness_number_lem rs xs (omega (arith, e)) hrs hxs in
        let lt : witness_of sv.n q r x < sv.n = Nat.mod-lt (q ^ x % sv.n * r) modulus_pos in
        let part = low_bytes sv.n_bytes (witness_of sv.n q r x) in
        let width = length-low_bytes sv.n_bytes (witness_of sv.n q r x) in
        let total = length-append part (witness_number p sv q rs xs) in
        subst
          (λ b.
            IsBytes (b ++ witness_number p sv q rs xs)
            × (length (b ++ witness_number p sv q rs xs) ≡ sv.n_bytes * suc (length rs)))
          (sym (part_of_lem r x hr hx))
          (
            All-append (λ b. b < 256) part (witness_number p sv q rs xs)
                (low_bytes-IsBytes sv.n_bytes (witness_of sv.n q r x)
                  (fits (witness_of sv.n q r x) lt))
                others,
            grind (arith, size, width, total),
          )
