-- ===== src/Gq/Sign.antt =====
-- gq/sign.go: how a signature is made from a private number.
use openpubkey.Base.{
  ℕ, zero, suc, ◌*◌, msg, Result, ok, err, ◌>>=◌, List, [], ◌∷◌, ◌++◌, ltb, if◌then◌else◌,
}
use openpubkey.Base.Bytes.{Bytes}
use openpubkey.Base.Bytes.BigEndian.{bit_len, value, low_bytes, slice}
use openpubkey.Util.Base64.{base64_encode}
use openpubkey.Gq.{bytes_for_bits, Primitives, SignerVerifier}

-- `x.Bytes()` of a `big.Int`
abbrev pub int_bytes : ℕ → Bytes
int_bytes x = low_bytes (bytes_for_bits (bit_len x)) x

-- `rand.Int(rand.Reader, max)`: the first of the numbers drawn that is below `max`. The numbers that
-- the reader has left are passed on; a reader that has none left fails.
unfoldable pub rand_int : ℕ → List ℕ → Result (ℕ × List ℕ)
rand_int max [] = err (msg "EOF")
rand_int max (x ∷ reader) = if ltb x max then ok (x, reader) else rand_int max reader

-- encodeProof
abbrev pub encode_proof : Bytes → Bytes → Bytes
encode_proof r s = base64_encode (r ++ s)

module _ (p : Primitives) where
  -- intAsNat
  abbrev pub int_as_nat : ℕ → ℕ → Result ℕ
  int_as_nat x n = p.bigmod.set_bytes (int_bytes x) n

  -- natAsInt
  abbrev pub nat_as_int : ℕ → ℕ → ℕ
  nat_as_int x n = value (p.bigmod.nat_bytes x n)

  -- modAsInt, at a modulus
  abbrev pub mod_as_int : ℕ → ℕ
  mod_as_int n = nat_as_int n n

  unfoldable pub random_below : ℕ → ℕ → ℕ → List ℕ → Result (List ℕ × List ℕ)
  random_below zero n_int n reader = ok ([], reader)
  random_below (suc t) n_int n reader = do
    (r, left) ← rand_int n_int reader
    y ← int_as_nat r n
    (ys, rest) ← random_below t n_int n left
    ok (y ∷ ys, rest)

  -- randomNumbers
  unfoldable pub random_numbers : ℕ → ℕ → List ℕ → Result (List ℕ × List ℕ)
  unfolding random_below
  random_numbers t n reader = random_below t (mod_as_int n) n reader

  -- Stage 2, the test number W
  unfoldable pub test_number : SignerVerifier → List ℕ → Bytes
  test_number sv [] = []
  test_number sv (r ∷ rs) =
      p.bigmod.nat_bytes (p.bigmod.exp r (int_bytes sv.v) sv.n) sv.n ++ test_number sv rs

  -- The numbers that R is split into, in stage 3.
  unfoldable pub question_numbers : SignerVerifier → ℕ → Bytes → Result (List ℕ)
  question_numbers sv zero r = ok []
  question_numbers sv (suc t) r = do
    (part, rest) ← slice sv.v_bytes r
    x ← p.bigmod.set_bytes part sv.n
    xs ← question_numbers sv t rest
    ok (x ∷ xs)

  -- Stage 4, the witness number S
  unfoldable pub witness_number : SignerVerifier → ℕ → List ℕ → List ℕ → Bytes
  witness_number sv q (r ∷ rs) (x ∷ xs) =
      p.bigmod.nat_bytes (p.bigmod.mul (p.bigmod.exp q (p.bigmod.nat_bytes x sv.n) sv.n) r sv.n)
        sv.n
      ++ witness_number sv q rs xs
  witness_number sv q _ _ = []

  -- (sv *signerVerifier) Sign, with the numbers that the reader has left
  unfoldable pub sign : SignerVerifier → Bytes → Bytes → List ℕ → Result (Bytes × List ℕ)
  unfolding random_numbers
  sign sv private message reader = do
    q ← p.bigmod.set_bytes private sv.n
    (rs, left) ← random_numbers sv.t sv.n reader
    let w = test_number sv rs
    r ← p.shake256 (w ++ message) (sv.t * sv.v_bytes)
    xs ← question_numbers sv sv.t r
    ok (encode_proof r (witness_number sv q rs xs), left)
