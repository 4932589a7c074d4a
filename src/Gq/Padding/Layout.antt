-- ===== src/Gq/Padding/Layout.antt =====
-- `encodePKCS1v15` of gq/rsa.go beside EMSA-PKCS1-v1_5 of RFC 8017.
use openpubkey.Base.{
  ℕ, zero, suc, ◌+◌, ◌-◌, ◌*◌, ◌/◌, ◌%◌, ◌≤◌, ok, ◌≡◌, refl, sym, ◌∙◌, ap, [], ◌∷◌, ◌++◌, arith,
  true, ◌&&◌, ltb, leb, length, length-append,
}
use mathlib.Core.List.{append_assoc, append-nil}
use openpubkey.Base.Bytes.{Bytes}
use openpubkey.Gq.Padding.{
  prefix, hash_len, t_len, repeated, copy_at, assign_range, encode_pkcs1v15,
}

-- a value of ASN.1 in DER, of fewer than 128 bytes: its tag, its length and its bytes
abbrev pub der : ℕ → Bytes → Bytes
der tag bytes = tag ∷ length bytes ∷ bytes

-- id-sha256 of RFC 8017, which is 2.16.840.1.101.3.4.2.1: the first two numbers make one byte, and
-- 840 is written in base 128
abbrev pub id_sha256 : Bytes
id_sha256 = (40 * 2 + 16) ∷ (128 + 840 / 128) ∷ (840 % 128) ∷ 1 ∷ 101 ∷ 3 ∷ 4 ∷ 2 ∷ 1 ∷ []

-- DigestInfo of RFC 8017: a sequence of the algorithm, which is a sequence of its identifier and NULL,
-- and of the digest as an octet string
abbrev pub digest_info : Bytes → Bytes
digest_info digest = der 0x30 (der 0x30 (der 0x06 id_sha256 ++ der 0x05 []) ++ der 0x04 digest)

-- EM = 0x00 || 0x01 || PS || 0x00 || T, where PS is of `filled` bytes 0xff and T is the DigestInfo.
abbrev pub emsa_pkcs1v15 : ℕ → Bytes → Bytes
emsa_pkcs1v15 filled digest = (0x00 ∷ 0x01 ∷ repeated filled 0xff) ++ (0x00 ∷ digest_info digest)

digest_info-prefix : (digest : Bytes) → length digest ≡ 32 → digest_info digest ≡ prefix ++ digest
digest_info-prefix digest size = rw size refl

pub length-repeated : (n x : ℕ) → length (repeated n x) ≡ n
unfolding repeated
length-repeated zero x = refl
length-repeated (suc n) x = ap suc (length-repeated n x)

repeated-add : (a b x : ℕ) → repeated (a + b) x ≡ repeated a x ++ repeated b x
unfolding repeated
repeated-add zero b x = ap (λ n. repeated n x) (omega arith)
repeated-add (suc a) b x = ap (λ n. repeated n x) shifted ∙ ap (λ l. x ∷ l) (repeated-add a b x)
  where
    shifted : suc a + b ≡ suc (a + b)
    shifted = omega arith

copy_front :
    (src mid back : Bytes) → length mid ≡ length src → copy_at 0 src (mid ++ back) ≡ src ++ back
unfolding copy_at
copy_front [] [] [] e = refl
copy_front [] [] (x ∷ back) e = refl
copy_front [] (y ∷ mid) back e = absurd (omega (arith, e))
copy_front (s ∷ src) [] back e = absurd (omega (arith, e))
copy_front (s ∷ src) (y ∷ mid) back e = ap (λ l. s ∷ l) (copy_front src mid back (omega (arith, e)))

-- A copy replaces the bytes in the middle.
copy_middle :
    (front mid back src : Bytes)
    → length mid ≡ length src
    → copy_at (length front) src (front ++ (mid ++ back)) ≡ front ++ (src ++ back)
unfolding copy_at
copy_middle [] mid back src e = copy_front src mid back e
copy_middle (x ∷ front) mid back src e = ap (λ l. x ∷ l) (copy_middle front mid back src e)

-- The same at an index that the front is as long as.
copy_at_end :
    (i : ℕ) (front mid back src : Bytes)
    → i ≡ length front
    → length mid ≡ length src
    → copy_at i src (front ++ (mid ++ back)) ≡ front ++ (src ++ back)
copy_at_end i front mid back src e h =
    ap (λ n. copy_at n src (front ++ (mid ++ back))) e ∙ copy_middle front mid back src h

copy_last :
    (i : ℕ) (front mid src : Bytes)
    → i ≡ length front
    → length mid ≡ length src
    → copy_at i src (front ++ mid) ≡ front ++ src
copy_last i front mid src e h =
    ap (λ l. copy_at i src (front ++ l)) (sym (append-nil mid))
    ∙ copy_at_end i front mid [] src e h
    ∙ ap (λ l. front ++ l) (append-nil src)

module _ (m : ℕ) (digest : Bytes) (size : length digest ≡ 32) where
  abbrev head : Bytes
  head = 0 ∷ 1 ∷ repeated m 0xff

  zeros : repeated (54 + m) 0 ≡ 0 ∷ 0 ∷ (repeated m 0 ++ (0 ∷ (repeated 19 0 ++ repeated 32 0)))
  unfolding repeated
  zeros = ap (λ n. repeated n 0) split ∙ ap (λ l. 0 ∷ 0 ∷ l) (repeated-add m 52 0)
    where
      split : 54 + m ≡ suc (suc (m + 52))
      split = omega arith

  marked :
      copy_at 1 (1 ∷ []) (repeated (54 + m) 0)
      ≡ 0 ∷ 1 ∷ (repeated m 0 ++ (0 ∷ (repeated 19 0 ++ repeated 32 0)))
  marked =
      ap (copy_at 1 (1 ∷ [])) zeros
      ∙ copy_at_end 1 (0 ∷ []) (0 ∷ []) (repeated m 0 ++ (0 ∷ (repeated 19 0 ++ repeated 32 0)))
          (1 ∷ []) refl refl

  filled :
      (last : ℕ)
      → last - 2 ≡ m
      → assign_range 2 last 0xff (0 ∷ 1 ∷ (repeated m 0 ++ (0 ∷ (repeated 19 0 ++ repeated 32 0))))
        ≡ head ++ (0 ∷ (repeated 19 0 ++ repeated 32 0))
  filled last e =
      ap
        (λ n.
          copy_at 2 (repeated n 0xff)
            (0 ∷ 1 ∷ (repeated m 0 ++ (0 ∷ (repeated 19 0 ++ repeated 32 0)))))
        e
      ∙ copy_at_end 2 (0 ∷ 1 ∷ []) (repeated m 0) (0 ∷ (repeated 19 0 ++ repeated 32 0))
          (repeated m 0xff) refl (length-repeated m 0 ∙ sym (length-repeated m 0xff))

  prefixed :
      (i : ℕ)
      → i ≡ 3 + m
      → copy_at i prefix (head ++ (0 ∷ (repeated 19 0 ++ repeated 32 0)))
        ≡ (head ++ (0 ∷ [])) ++ (prefix ++ repeated 32 0)
  prefixed i e =
      ap (copy_at i prefix) (sym (append_assoc head (0 ∷ []) (repeated 19 0 ++ repeated 32 0)))
      ∙ copy_at_end i (head ++ (0 ∷ [])) (repeated 19 0) (repeated 32 0) prefix width
          (length-repeated 19 0)
    where
      width : i ≡ length (head ++ (0 ∷ []))
      width =
          let count = length-append (repeated m 0xff) (0 ∷ []) in
          let filling = length-repeated m 0xff in omega (arith, e, count, filling)

  digested :
      (i : ℕ)
      → i ≡ 22 + m
      → copy_at i digest ((head ++ (0 ∷ [])) ++ (prefix ++ repeated 32 0)) ≡ emsa_pkcs1v15 m digest
  digested i e =
      ap (copy_at i digest) regrouped
      ∙ copy_last i (head ++ (0 ∷ prefix)) (repeated 32 0) digest width
          (length-repeated 32 0 ∙ sym size)
      ∙ append_assoc head (0 ∷ prefix) digest
      ∙ ap (λ l. head ++ (0 ∷ l)) (sym (digest_info-prefix digest size))
    where
      regrouped :
          (head ++ (0 ∷ [])) ++ (prefix ++ repeated 32 0) ≡ (head ++ (0 ∷ prefix)) ++ repeated 32 0
      regrouped =
          append_assoc head (0 ∷ []) (prefix ++ repeated 32 0)
          ∙ sym (append_assoc head (0 ∷ prefix) (repeated 32 0))

      width : i ≡ length (head ++ (0 ∷ prefix))
      width =
          let count = length-append (repeated m 0xff) (0 ∷ prefix) in
          let filling = length-repeated m 0xff in omega (arith, e, count, filling)

-- encodePKCS1v15 gives the padding EMSA-PKCS1-v1_5 of RFC 8017 of k bytes, with the DigestInfo of
-- SHA-256 in DER, where k is at least 54 and the hash gives 32 bytes.
pub encode_pkcs1v15_lem :
    (sha256 : Bytes → Bytes) (k : ℕ) (content : Bytes)
    → 54 ≤ k
    → length (sha256 content) ≡ 32
    → encode_pkcs1v15 sha256 k content ≡ ok (emsa_pkcs1v15 (k - 54) (sha256 content))
unfolding encode_pkcs1v15
encode_pkcs1v15_lem sha256 k content h size =
    rw
      (
        enough,
        ap (λ n. repeated n 0) whole,
        marked m (sha256 content) size,
        filled m (sha256 content) size (k - t_len - 1) (omega (arith, h)),
        prefixed m (sha256 content) size (k - t_len) (omega (arith, h)),
        digested m (sha256 content) size (k - hash_len) (omega (arith, h)),
      )
      refl
  where
    m : ℕ
    m = k - 54

    whole : k ≡ 54 + m
    whole = omega (arith, h)

    enough : (ltb 1 k && leb t_len k) ≡ true
    enough = ground (arith, h)
