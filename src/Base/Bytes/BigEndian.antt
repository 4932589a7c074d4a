-- ===== src/Base/Bytes/BigEndian.antt =====
-- `big.Int.SetBytes` and `FillBytes`, and byte slices cut into parts of one length.
use Prim.Native.Nat.{ℕ, zero, suc, ◌+◌, ◌*◌, ◌/◌, ◌%◌, ◌^◌, ◌≤◌, ◌<◌}
use mathlib.Core.Path.{◌≡◌, refl, sym, ap, ap₂, ◌∙◌}
use mathlib.Core.List.{List, [], ◌∷◌, ◌++◌}
use native.Mathlib.Nat
use native.Mathlib.Omega.{arith}
use openpubkey.Base.Tests.{ltb, if◌then◌else◌}
use openpubkey.Base.Lists.{All, length, length-append}
use openpubkey.Base.Errors.{Result, ok, panic, bind_ok, ◌>>=◌}

-- every item is a byte
abbrev pub IsBytes : List ℕ → Type 0
IsBytes bs = All (λ b. b < 256) bs

-- `new(big.Int).SetBytes`
unfoldable pub value : List ℕ → ℕ
value [] = 0
value (b ∷ bs) = b * 256 ^ length bs + value bs

bit_len_within : ℕ → ℕ → ℕ
bit_len_within fuel zero = 0
bit_len_within zero (suc x) = 0
bit_len_within (suc fuel) (suc x) = suc (bit_len_within fuel (suc x / 2))

-- `x.BitLen()`; a number halves to 0 in fewer steps than it counts
unfoldable pub bit_len : ℕ → ℕ
unfolding bit_len_within
bit_len x = bit_len_within (1 + x) x

-- the last `k` bytes of a number, the highest first
unfoldable pub low_bytes : ℕ → ℕ → List ℕ
low_bytes zero x = []
low_bytes (suc k) x = x / 256 ^ k ∷ low_bytes k (x % 256 ^ k)

-- `x.FillBytes` of a slice of `k` bytes, which panics where the number does not fit
unfoldable pub fill_bytes : ℕ → ℕ → Result (List ℕ)
fill_bytes k x = if ltb x (256 ^ k) then ok (low_bytes k x) else panic

pow_pos : (k : ℕ) → 0 < 256 ^ k
pow_pos k = Nat.one-le-pow k 256 (omega arith)

bit_len_within_lem : (fuel x : ℕ) → x < fuel → x < 2 ^ bit_len_within fuel x
unfolding bit_len_within
bit_len_within_lem fuel zero h = omega arith
bit_len_within_lem zero (suc x) h = absurd (omega (arith, h))
bit_len_within_lem (suc fuel) (suc x) h =
    let halved = bit_len_within_lem fuel (suc x / 2) (omega (arith, h)) in
    rw (Nat.pow-suc 2 (bit_len_within fuel (suc x / 2))) (omega (arith, halved))

-- The bits that are counted hold the number.
pub lt-bit_len : (x : ℕ) → x < 2 ^ bit_len x
unfolding bit_len
lt-bit_len x = bit_len_within_lem (1 + x) x (omega arith)

-- `(bits + 7) / 8` bytes hold a number of so many bits.
pub pow-add : (m a b : ℕ) → m ^ (a + b) ≡ m ^ a * m ^ b
pow-add m a zero = rw (Nat.add-zero a, Nat.pow-zero m, Nat.mul-one (m ^ a)) refl
pow-add m a (suc b) =
    rw (Nat.add-suc a b, Nat.pow-suc m (a + b), Nat.pow-suc m b, pow-add m a b)
      (Nat.mul_assoc (m ^ a) (m ^ b) m)

two-pow-bytes : (k : ℕ) → 2 ^ (k * 8) ≡ 256 ^ k
two-pow-bytes zero = refl
two-pow-bytes (suc k) =
    ap (λ n. 2 ^ n) split
    ∙ pow-add 2 (k * 8) 8
    ∙ ap (λ n. n * 256) (two-pow-bytes k)
    ∙ sym (Nat.pow-suc 256 k)
  where
    split : suc k * 8 ≡ k * 8 + 8
    split = omega arith

pub lt-bytes_of_bits : (x bits : ℕ) → x < 2 ^ bits → x < 256 ^ ((bits + 7) / 8)
lt-bytes_of_bits x bits h =
    let within : bits ≤ (bits + 7) / 8 * 8 = omega arith in
    let larger : 2 ^ bits ≤ 256 ^ ((bits + 7) / 8) =
      rw (← two-pow-bytes ((bits + 7) / 8)) (Nat.pow-le-pow_right (omega arith) within) in
    omega (arith, h, larger)

pub value-lt : (bs : List ℕ) → IsBytes bs → value bs < 256 ^ length bs
unfolding value
value-lt [] h = omega arith
value-lt (b ∷ bs) (h, k) =
    let below = value-lt bs k in rw (Nat.pow-succ' 256 (length bs)) (grind (arith, below))

pub length-low_bytes : (k x : ℕ) → length (low_bytes k x) ≡ k
unfolding low_bytes
length-low_bytes zero x = refl
length-low_bytes (suc k) x = omega (arith, length-low_bytes k (x % 256 ^ k))

-- The bytes of a number that fits are its bytes.
pub value-low_bytes : (k x : ℕ) → x < 256 ^ k → value (low_bytes k x) ≡ x
unfolding value low_bytes
value-low_bytes zero x h = omega (arith, h)
value-low_bytes (suc k) x h =
    rw
      (length-low_bytes k (x % 256 ^ k), value-low_bytes k (x % 256 ^ k) (Nat.mod-lt x (pow_pos k)))
      (Nat.div-add-mod' x (256 ^ k))

pub low_bytes-value : (bs : List ℕ) → IsBytes bs → low_bytes (length bs) (value bs) ≡ bs
unfolding value low_bytes
low_bytes-value [] h = refl
low_bytes-value (b ∷ bs) (h, k) =
    ap₂ (λ x xs. x ∷ xs)
      (Nat.mul-add-div_right (pow_pos (length bs)) b (value bs)
        ∙ ap (λ q. b + q) (Nat.div-eq_of_lt (value-lt bs k))
        ∙ Nat.add-zero b)
      (ap (low_bytes (length bs)) (
          Nat.mul-add-mod_self_right b (256 ^ length bs) (value bs)
          ∙ Nat.mod-eq_of_lt (value-lt bs k))
        ∙ low_bytes-value bs k)

pub low_bytes-IsBytes : (k x : ℕ) → x < 256 ^ k → IsBytes (low_bytes k x)
unfolding low_bytes
low_bytes-IsBytes zero x h = tt
low_bytes-IsBytes (suc k) x h = (
  (Nat.div-lt_iff_lt-mul (pow_pos k)).1 (rw (← Nat.pow-succ' 256 k) h),
  low_bytes-IsBytes k (x % 256 ^ k) (Nat.mod-lt x (pow_pos k)),
)

pub fill_bytes_ok : (k x : ℕ) → x < 256 ^ k → fill_bytes k x ≡ ok (low_bytes k x)
unfolding fill_bytes
fill_bytes_ok k x h = ground arith

-- `bs[:k]` and `bs[k:]`
unfoldable pub slice : ℕ → List ℕ → Result (List ℕ × List ℕ)
slice zero bs = ok ([], bs)
slice (suc k) [] = panic
slice (suc k) (b ∷ bs) = do (front, rest) ← slice k bs; ok (b ∷ front, rest)

-- `bs[i * k : (i + 1) * k]` for `i` from 0 to `t`
unfoldable pub parts : ℕ → ℕ → List ℕ → Result (List (List ℕ))
parts zero k bs = ok []
parts (suc t) k bs = do (part, rest) ← slice k bs; others ← parts t k rest; ok (part ∷ others)

unfoldable pub concat : List (List ℕ) → List ℕ
concat [] = []
concat (p ∷ ps) = p ++ concat ps

pub slice-append : (xs ys : List ℕ) → slice (length xs) (xs ++ ys) ≡ ok (xs, ys)
unfolding slice
slice-append [] ys = refl
slice-append (x ∷ xs) ys = bind_ok (slice (length xs) (xs ++ ys)) _ (slice-append xs ys) refl

-- A slice that is long enough has a front of `k` bytes.
pub slice-within :
    (k : ℕ) (bs : List ℕ)
    → k ≤ length bs
    → IsBytes bs
    → (p : List ℕ) × (q : List ℕ) × (slice k bs ≡ ok (p, q))
      × (bs ≡ p ++ q)
      × (length p ≡ k)
      × IsBytes p
      × IsBytes q
unfolding slice
slice-within zero bs h b = ([], bs, refl, refl, refl, tt, b)
slice-within (suc k) [] h b = absurd (omega (arith, h))
slice-within (suc k) (x ∷ bs) h (b, c) =
    let (p, q, cut, joined, size, pb, qb) = slice-within k bs (omega (arith, h)) c in
    (x ∷ p, q, rw cut refl, ap (λ l. x ∷ l) joined, ap suc size, (b, pb), qb)

pub parts-concat :
    (k : ℕ) (ps : List (List ℕ))
    → All (λ p. length p ≡ k) ps
    → parts (length ps) k (concat ps) ≡ ok ps
unfolding parts concat
parts-concat k [] h = refl
parts-concat k (p ∷ ps) (h, hs) = rw (← h) (
    bind_ok (slice (length p) (p ++ concat ps)) _ (slice-append p (concat ps))
      (bind_ok (parts (length ps) (length p) (concat ps)) _ (rw h (parts-concat k ps hs)) refl))

-- Bytes of the size of `t` parts are cut into them.
pub parts-exact :
    (t k : ℕ) (bs : List ℕ)
    → length bs ≡ t * k
    → IsBytes bs
    → (ps : List (List ℕ)) × (parts t k bs ≡ ok ps)
      × (length ps ≡ t)
      × All (λ p. IsBytes p × (length p ≡ k)) ps
unfolding parts
parts-exact zero k bs e b = ([], refl, refl, tt)
parts-exact (suc t) k bs e b =
    let (p, q, cut, joined, size, pb, qb) = slice-within k bs (grind (arith, e)) b in
    let left : length q ≡ t * k = grind (arith, e, size, ap length joined, length-append p q) in
    let (ps, made, count, each) = parts-exact t k q left qb in
    (
      p ∷ ps,
      bind_ok (slice k bs) _ cut (bind_ok (parts t k q) _ made refl),
      ap suc count,
      ((pb, size), each),
    )
