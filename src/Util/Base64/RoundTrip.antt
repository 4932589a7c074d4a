-- ===== src/Util/Base64/RoundTrip.antt =====
-- Decoding undoes encoding, and only the encoding of a text decodes to it.
use openpubkey.Base.{
  ℕ, ◌+◌, ◌*◌, ◌/◌, ◌%◌, ◌<◌, ok, ◌≡◌, refl, ◌∙◌, List, [], ◌∷◌, map, arith, some, false, ◌||◌,
  ◌==◌, All, Bool-cases, Option-cases, inl, inr, ==_iff,
}
use openpubkey.Base.Bytes.{Bytes, IsFree}
use openpubkey.Util.Base64.{enc6, dec6, base64_encode, sextets, pack, base64_decode}

abbrev pub IsByte : ℕ → Type 0
IsByte b = b < 256

dec6-enc6 : (v : ℕ) → v < 64 → dec6 (enc6 v) ≡ some v
unfolding dec6 enc6
dec6-enc6 v h = ground arith

enc6-not_end : (v : ℕ) → v < 64 → (enc6 v == 10 || enc6 v == 13) ≡ false
unfolding enc6
enc6-not_end v h = ground arith

sextets-enc6 :
    (v : ℕ) (s : Bytes) (vs : List ℕ)
    → v < 64
    → sextets s ≡ some vs
    → sextets (enc6 v ∷ s) ≡ some (v ∷ vs)
unfolding sextets
sextets-enc6 v s vs h e = rw (enc6-not_end v h, dec6-enc6 v h, e)

-- the sextets of an encoding
split6 : Bytes → List ℕ
split6 (a ∷ b ∷ c ∷ r) =
    (a / 4) ∷ ((a % 4) * 16 + b / 16) ∷ ((b % 16) * 4 + c / 64) ∷ (c % 64) ∷ split6 r
split6 (a ∷ b ∷ []) = (a / 4) ∷ ((a % 4) * 16 + b / 16) ∷ ((b % 16) * 4) ∷ []
split6 (a ∷ []) = (a / 4) ∷ ((a % 4) * 16) ∷ []
split6 [] = []

sextets-encode : (xs : Bytes) → All IsByte xs → sextets (base64_encode xs) ≡ some (split6 xs)
unfolding base64_encode split6
sextets-encode (a ∷ b ∷ c ∷ r) (p, (q, (t, h))) = sextets-enc6 _ _ _ (omega arith) (
    sextets-enc6 _ _ _ (omega arith)
      (sextets-enc6 _ _ _ (omega arith) (sextets-enc6 _ _ _ (omega arith) (sextets-encode r h))))
sextets-encode (a ∷ b ∷ []) (p, (q, _)) =
    sextets-enc6 _ _ _ (omega arith)
      (sextets-enc6 _ _ _ (omega arith) (sextets-enc6 _ _ _ (omega arith) (unfold sextets in refl)))
sextets-encode (a ∷ []) (p, _) =
    sextets-enc6 _ _ _ (omega arith) (sextets-enc6 _ _ _ (omega arith) (unfold sextets in refl))
sextets-encode [] h = unfold sextets in refl

pack-split6 : (xs : Bytes) → All IsByte xs → pack (split6 xs) ≡ some xs
unfolding pack split6
pack-split6 (a ∷ b ∷ c ∷ r) (p, (q, (t, h))) = ground (arith, pack-split6 r h)
pack-split6 (a ∷ b ∷ []) (p, (q, _)) = ground arith
pack-split6 (a ∷ []) (p, _) = ground arith
pack-split6 [] h = refl

-- Bytes come back from their encoding.
pub decode-encode : (xs : Bytes) → All IsByte xs → base64_decode (base64_encode xs) ≡ ok xs
unfolding base64_decode
decode-encode xs h = rw (sextets-encode xs h, pack-split6 xs h)

enc6-dec6 : (c v : ℕ) → dec6 c ≡ some v → (enc6 v ≡ c) × (v < 64)
unfolding dec6 enc6
enc6-dec6 c v h = ground arith

abbrev IsSextet : ℕ → Type 0
IsSextet v = v < 64

sextets_lem :
    (s : Bytes) (vs : List ℕ)
    → IsFree 10 s
    → IsFree 13 s
    → sextets s ≡ some vs
    → (map enc6 vs ≡ s) × All IsSextet vs
unfolding sextets
sextets_lem [] vs h k e = let eq : [] ≡ vs = cc in rw (← eq) (refl, tt)
sextets_lem (c ∷ s) vs (p, h) (q, k) e = elim (Option-cases (dec6 c)) [
  | inl none6 ↦ ground arith
  | inr (v, six) ↦ elim (Option-cases (sextets s)) [
    | inl bad ↦ ground arith
    | inr (ws, rest) ↦
        let eq : vs ≡ v ∷ ws = ground arith in
        let (back, all) = sextets_lem s ws h k rest in
        let (same, small) = enc6-dec6 c v six in rw (eq, same, back) (refl, (small, all))
  ]
]

encode-pack :
    (vs : List ℕ) (xs : Bytes)
    → All IsSextet vs
    → pack vs ≡ some xs
    → base64_encode xs ≡ map enc6 vs
unfolding pack base64_encode
encode-pack (v ∷ w ∷ x ∷ y ∷ r) xs (hv, (hw, (hx, (hy, h)))) e = elim (Option-cases (pack r)) [
  | inl bad ↦ ground arith
  | inr (bs, rest) ↦
      let eq : xs ≡ (v * 4 + w / 16) ∷ ((w % 16) * 16 + x / 4) ∷ ((x % 4) * 64 + y) ∷ bs =
        ground arith in
      rw eq (ground (arith, encode-pack r bs h rest))
]
encode-pack (v ∷ w ∷ x ∷ []) xs (hv, (hw, (hx, _))) e = elim (Bool-cases (x % 4 == 0)) [
  | inl z ↦
      let low : x % 4 ≡ 0 = (==_iff _ _).0 z in
      let eq : xs ≡ (v * 4 + w / 16) ∷ ((w % 16) * 16 + x / 4) ∷ [] = cc (rw z at e) in
      let first : (v * 4 + w / 16) / 4 ≡ v = omega arith in
      let second : ((v * 4 + w / 16) % 4) * 16 + ((w % 16) * 16 + x / 4) / 16 ≡ w = omega arith in
      let third : (((w % 16) * 16 + x / 4) % 16) * 4 ≡ x = omega arith in
      rw eq (rw (first, second, third) refl)
  | inr z ↦ absurd (cc (rw z at e))
]
encode-pack (v ∷ w ∷ []) xs (hv, (hw, _)) e = ground arith
encode-pack (v ∷ []) xs h e = cc
encode-pack [] xs h e = let eq : [] ≡ xs = cc in rw (← eq) refl

-- A text without line ends that decodes is the encoding of its bytes, so no two texts decode alike.
pub encode-decode :
    (s xs : Bytes) → IsFree 10 s → IsFree 13 s → base64_decode s ≡ ok xs → base64_encode xs ≡ s
unfolding base64_decode
encode-decode s xs h k e = elim (Option-cases (sextets s)) [
  | inl bad ↦ ground arith
  | inr (vs, six) ↦
      let (back, small) = sextets_lem s vs h k six in
      elim (Option-cases (pack vs)) [
        | inl bad ↦ ground arith
        | inr (bs, packed) ↦
            let eq : xs ≡ bs = ground arith in rw eq (encode-pack vs bs small packed ∙ back)
      ]
]

enc6_not_dot : (v : ℕ) → enc6 v ≡ b'.' → ⊥
unfolding enc6
enc6_not_dot v h = ground arith

-- No dot stands in the encoding.
pub base64_encode-IsFree : (xs : Bytes) → IsFree b'.' (base64_encode xs)
unfolding base64_encode
base64_encode-IsFree (a ∷ b ∷ c ∷ r) = (
  enc6_not_dot (a / 4),
  (
    enc6_not_dot ((a % 4) * 16 + b / 16),
    (enc6_not_dot ((b % 16) * 4 + c / 64), (enc6_not_dot (c % 64), base64_encode-IsFree r)),
  ),
)
base64_encode-IsFree (a ∷ b ∷ []) = (
  enc6_not_dot (a / 4),
  (enc6_not_dot ((a % 4) * 16 + b / 16), (enc6_not_dot ((b % 16) * 4), tt)),
)
base64_encode-IsFree (a ∷ []) = (enc6_not_dot (a / 4), (enc6_not_dot ((a % 4) * 16), tt))
base64_encode-IsFree [] = tt
