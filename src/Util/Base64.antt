-- ===== src/Util/Base64.antt =====
-- util/base64.go: `base64.RawURLEncoding.Strict()`, without padding. The decoder of the standard
-- library passes over line feeds and carriage returns, and in strict mode it refuses a last sextet
-- with bits that no byte takes.
pub mod RoundTrip
mod Tests
use openpubkey.Base.{
  ℕ, zero, suc, ◌+◌, ◌-◌, ◌*◌, ◌/◌, ◌%◌, ◌^◌, ◌≤◌, ◌<◌, String, Error, msg, wrapped, joined,
  permission, Result, ok, err, panic, require, wrap_err, is_permission, bind-eq-ok, wrap_err-eq-ok,
  ◌>>=◌, ◌>>◌, ◌≡◌, ◌≢◌, refl, sym, ◌∙◌, ap, List, [], ◌∷◌, ◌++◌, map, arith, Option, none, some,
  Bool, true, false, ◌||◌, ◌&&◌, not, ltb, leb, ◌==◌, if◌then◌else◌, length, length-append,
  get_elem?, All, Bool-cases, Option-cases, inl, inr, ◌⊎◌, ◌↔◌, ==_iff, ltb→lt,
}
use openpubkey.Base.Bytes.{Bytes}

-- the digit of a number below 64
enc6 : ℕ → ℕ
enc6 v =
    if ltb v 26
    then v + 65
    else if ltb v 52
    then v + 71
    else if ltb v 62
    then v - 4
    else if v == 62
    then b'-'
    else b'_'

dec6 : ℕ → Option ℕ
dec6 c =
    if leb b'A' c && leb c b'Z'
    then some (c - 65)
    else if leb b'a' c && leb c b'z'
    then some (c - 71)
    else if leb b'0' c && leb c b'9'
    then some (c + 4)
    else if c == b'-'
    then some 62
    else if c == b'_'
    then some 63
    else none

-- Base64EncodeForJWT
unfoldable pub base64_encode : Bytes → Bytes
unfolding enc6
base64_encode (a ∷ b ∷ c ∷ r) =
    enc6 (a / 4)
    ∷ enc6 ((a % 4) * 16 + b / 16)
    ∷ enc6 ((b % 16) * 4 + c / 64)
    ∷ enc6 (c % 64)
    ∷ base64_encode r
base64_encode (a ∷ b ∷ []) = enc6 (a / 4) ∷ enc6 ((a % 4) * 16 + b / 16) ∷ enc6 ((b % 16) * 4) ∷ []
base64_encode (a ∷ []) = enc6 (a / 4) ∷ enc6 ((a % 4) * 16) ∷ []
base64_encode [] = []

-- the numbers of the digits, line ends passed over
sextets : Bytes → Option (List ℕ)
sextets [] = some []
sextets (c ∷ s) =
    let rest = sextets s in
    if c == 10 || c == 13 then rest else elim (dec6 c) [
      | none ↦ none
      | some v ↦ elim rest [ none ↦ none | some vs ↦ some (v ∷ vs) ]
    ]

-- four sextets make three bytes; two or three at the end make one or two
pack : List ℕ → Option Bytes
pack (v ∷ w ∷ x ∷ y ∷ r) = elim (pack r) [
  | none ↦ none
  | some bs ↦ some ((v * 4 + w / 16) ∷ ((w % 16) * 16 + x / 4) ∷ ((x % 4) * 64 + y) ∷ bs)
]
pack (v ∷ w ∷ x ∷ []) =
    if x % 4 == 0 then some ((v * 4 + w / 16) ∷ ((w % 16) * 16 + x / 4) ∷ []) else none
pack (v ∷ w ∷ []) = if w % 16 == 0 then some ((v * 4 + w / 16) ∷ []) else none
pack (v ∷ []) = none
pack [] = some []

abbrev decoded : Option Bytes → Result Bytes
decoded none = err (msg "illegal base64 data at input byte %d")
decoded (some bs) = ok bs

-- Base64DecodeForJWT
unfoldable pub base64_decode : Bytes → Result Bytes
unfolding sextets pack dec6
base64_decode s = decoded (elim (sextets s) [ none ↦ none | some vs ↦ pack vs ])
