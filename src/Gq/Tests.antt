-- ===== src/Gq/Tests.antt =====
-- Runs and instances of GQ signatures, at a toy key whose modulus has 53 bytes.
use openpubkey.Base.{
  ℕ, zero, suc, ◌-◌, ◌*◌, ◌%◌, ◌^◌, msg, Result, ok, err, ◌≡◌, ◌≢◌, refl, sym, ◌∙◌, ap, List, [],
  ◌∷◌, arith, true, ltb, ◌==◌, if◌then◌else◌, length, ◌↔◌,
}
use native.Mathlib.Nat
use openpubkey.Base.Bytes.{Bytes, str}
use openpubkey.Base.Bytes.BigEndian.{
  pow-add, bit_len, lt-bit_len, value, low_bytes, low_bytes-IsBytes, length-low_bytes,
}
use openpubkey.Gq.{Bigmod, Primitives, SignerVerifier, bytes_for_bits, new_signer_verifier}
use openpubkey.Gq.Blinding.{inverse_of}
use openpubkey.Gq.Complete.{IsPrivate}
use openpubkey.Gq.Inverted.{IsInverse, inverse_of_total, inverse_of_stuck}
use openpubkey.Gq.Keys.{sv_of, new_signer_verifier_iff}
use openpubkey.Gq.Laws.{IsBigmod, IsShake, IsUsable}
use openpubkey.Gq.Modular.{SameMod-pow, pow_of_mul, SameMod, SameMod-mul, SameMod-mod}
use openpubkey.Gq.Padding.{encode_pkcs1v15, repeated, copy_at}
use openpubkey.Gq.Padding.Layout.{emsa_pkcs1v15, encode_pkcs1v15_lem}
use openpubkey.Gq.Sign.{rand_int, random_numbers, random_below, sign}
use openpubkey.Gq.Signed.{verify-sign}
use openpubkey.Gq.Verify.{verify}

-- the operations of the documentation of bigmod, on the numbers
abbrev pub numbers : Bigmod
numbers = record {
  new_modulus = λ n. if n % 2 == 0 then err (msg "modulus must be odd") else ok n;
  modulus_bit_len = bit_len;
  set_bytes =
      λ bs n. if ltb (value bs) n then ok (value bs) else err (msg "input overflows the modulus");
  nat_bytes = λ x n. low_bytes (bytes_for_bits (bit_len n)) x;
  exp = λ x e n. x ^ value e % n;
  mul = λ x y n. (x * y) % n;
}

pub numbers-IsBigmod : IsBigmod numbers
numbers-IsBigmod = record {
  set_bytes_lem = λ n bs bytes h. ground (arith, h);
  nat_bytes_lem = λ n x h. refl;
  exp_lem = λ n x e h. refl;
  mul_lem = λ n x y hx hy. refl;
  lt-modulus_bit_len = lt-bit_len;
}

-- a hash of the length of its data
abbrev pub shake : Bytes → ℕ → Result Bytes
shake content count = ok (low_bytes count (length content % 256 ^ count))

pub shake-IsShake : IsShake shake
shake-IsShake content count = (
  low_bytes count (length content % 256 ^ count),
  refl,
  length-low_bytes count (length content % 256 ^ count),
  low_bytes-IsBytes count (length content % 256 ^ count)
      (Nat.mod-lt (length content) (Nat.one-le-pow count 256 (omega arith))),
)

abbrev pub primitives : Primitives
primitives = record { bigmod = numbers; shake256 = shake; sha256 = λ content. repeated 32 7 }

abbrev pub modulus : ℕ
modulus =
    26341488289651229326586489388528581617488615354868255370834110359575166743384863388235446030008320173261389566325971041307475981

abbrev pub padded_number : ℕ
padded_number =
    785500115004957721504244047126497223007726807267804241312812231469737063123578464722947374698786091832528137447144876869383

abbrev pub rsa_signature : ℕ
rsa_signature =
    25541082937943340962845326982015459647743277735953816610378297573828865590458549985071579594309180533934047328422515136927417557

abbrev pub private_number : ℕ
private_number =
    13497756405303778446395995184374836287499509213421692903203264957391719429099075881807001740503353035208453462230061559922247415

-- the exponent 65537, and one question number
abbrev pub key : SignerVerifier
key = sv_of primitives modulus 16

pub key-IsUsable : IsUsable numbers key
unfolding bit_len
key-IsUsable = record {
  modulus = omega arith;
  exponent = omega arith;
  sized = refl;
  question = omega arith;
}

-- a number squared `k` times, modulo `n`
unfoldable pub squared : ℕ → ℕ → ℕ → ℕ
squared n zero a = a
squared n (suc k) a = squared n k (a * a % n)

power_of_two : (n k a : ℕ) → SameMod n (a ^ (2 ^ k)) (squared n k a)
unfolding squared
power_of_two n zero a =
    ap (λ x. x % n) (Nat.pow-suc a 0 ∙ ap (λ x. x * a) (Nat.pow-zero a) ∙ Nat.one-mul a)
power_of_two n (suc k) a =
    ap (λ x. x % n)
      (ap (λ e. a ^ e) (Nat.two-pow-succ k)
        ∙ pow-add a (2 ^ k) (2 ^ k)
        ∙ sym (pow_of_mul a a (2 ^ k)))
    ∙ SameMod-pow n (a * a) ((a * a) % n) (2 ^ k) (sym (SameMod-mod n (a * a)))
    ∙ power_of_two n k ((a * a) % n)

pub power_65537 : (n a : ℕ) → SameMod n (a ^ 65537) (squared n 16 a * a)
power_65537 n a =
    ap (λ x. x % n) (Nat.pow-suc a 65536)
    ∙ SameMod-mul n (a ^ 65536) (squared n 16 a) a a (power_of_two n 16 a) refl

abbrev private_bytes : Bytes
private_bytes = low_bytes 53 private_number

abbrev padded : Bytes
padded = emsa_pkcs1v15 (53 - 54) (repeated 32 7)

padding :
    encode_pkcs1v15 primitives.sha256 key.n_bytes (str "h.p") ≡ ok (low_bytes 53 padded_number)
unfolding encode_pkcs1v15 copy_at repeated low_bytes bit_len
padding = refl

secret : IsPrivate modulus 65537 (value private_bytes) (value (low_bytes 53 padded_number))
unfolding value low_bytes squared
secret =
    SameMod-mul modulus (private_number ^ 65537)
      (squared modulus 16 private_number * private_number) padded_number padded_number
      (power_65537 modulus private_number) refl

drawn : random_numbers primitives key.t key.n (modulus ∷ 5 ∷ 9 ∷ []) ≡ ok (5 ∷ [], 9 ∷ [])
unfolding random_numbers random_below rand_int value low_bytes bit_len
drawn = refl

effective : 5 ^ 65537 % modulus ≢ 0
unfolding squared
effective h = absurd (cc (sym (power_65537 modulus 5) ∙ h))

verify-sign_example :
    (proof : Bytes) × (sign primitives key private_bytes (str "m") (modulus ∷ 5 ∷ 9 ∷ [])
      ≡ ok (proof, 9 ∷ []))
    × (verify primitives key proof (str "h.p") (str "m") ≡ ok true)
unfolding value low_bytes
verify-sign_example =
    verify-sign primitives numbers-IsBigmod shake-IsShake key key-IsUsable private_bytes (str "h.p")
      _ (str "m") (modulus ∷ 5 ∷ 9 ∷ []) (low_bytes-IsBytes 53 private_number (omega arith))
      (omega arith) padding secret drawn (effective, tt)

abbrev pub signature_bytes : Bytes
signature_bytes = low_bytes 53 rsa_signature

inverse_of_total_example :
    (private : Bytes) × (left : List ℕ) × (inverse_of primitives key signature_bytes (0 ∷ 5 ∷ [])
      ≡ ok (private, left))
    × IsInverse primitives numbers-IsBigmod key key-IsUsable (value signature_bytes) private
unfolding value low_bytes bit_len
inverse_of_total_example =
    inverse_of_total primitives numbers-IsBigmod key key-IsUsable signature_bytes (0 ∷ []) 5 []
      private_number
      21073190631720983461269191510822865293990892283894604296667288287660133394707890710588356824006656138609111653060776833045980785
      (low_bytes-IsBytes 53 rsa_signature (omega arith)) (omega arith) refl refl (omega arith) refl

inverse_of_stuck_example :
    inverse_of primitives key (0 ∷ 0 ∷ []) (1 ∷ 5 ∷ modulus ∷ []) ≡ err (msg "EOF")
unfolding value
inverse_of_stuck_example =
    inverse_of_stuck primitives numbers-IsBigmod key key-IsUsable (0 ∷ 0 ∷ [])
      (1 ∷ 5 ∷ modulus ∷ []) (omega arith, (omega arith, tt)) (omega arith) not_inverted
  where
    not_inverted : (z : ℕ) → SameMod modulus (z * 0) 1 → ⊥
    not_inverted z h = absurd (cc (sym (ap (λ x. x % modulus) (Nat.mul-zero z)) ∙ h))

abbrev exponent : ℕ
exponent = 65537

new_signer_verifier_iff_example :
    (new_signer_verifier primitives modulus exponent 256 ≡ ok (sv_of primitives modulus 256)) ↔ (
      (exponent ≡ 65537)
      × (n : ℕ) × (primitives.bigmod.new_modulus modulus ≡ ok n)
      × (sv_of primitives n 256 ≡ sv_of primitives modulus 256))
new_signer_verifier_iff_example =
    new_signer_verifier_iff primitives modulus exponent 256 (sv_of primitives modulus 256)

encode_pkcs1v15_lem_example :
    encode_pkcs1v15 primitives.sha256 62 (str "h.p") ≡ ok (emsa_pkcs1v15 8 (repeated 32 7))
unfolding repeated
encode_pkcs1v15_lem_example =
    encode_pkcs1v15_lem primitives.sha256 62 (str "h.p") (omega arith) refl
