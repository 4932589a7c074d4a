-- ===== src/Oidc/Claims.antt =====
-- oidc/oidc.go and oidc/sig.go: the claims of a token. `encoding/json` is a parameter, `Json`: what
-- it makes of a text is handed over field by field.
use openpubkey.Base.{
  ◌≡◌, ◌↔◌, ap, Bool, true, false, Result, ok, panic, wrap_err, ◌>>=◌, List, [], ◌∷◌, Option, none,
  some,
}
use openpubkey.Base.Int.{ℤ}
use openpubkey.Base.Bytes.{eqb, eqb_iff, Bytes, join}
use openpubkey.Util.Base64.{base64_decode}

-- A value of type `any`, as far as a type switch or assertion tells: a string; a list, each item a
-- string or not; a `jwa.SignatureAlgorithm`, which headers that were parsed hold under `alg`; or
-- anything else, nil included, as its JSON text.
pub data Any : Type 0 where
  text : Bytes → Any
  items : List (Option Bytes) → Any
  algorithm : Bytes → Any
  other : Bytes → Any

-- `v == s` for a value of any type and a string
abbrev pub is_text : Any → Bytes → Bool
is_text (text t) s = eqb t s
is_text (items l) s = false
is_text (algorithm a) s = false
is_text (other json) s = false

pub is_text_iff : (v : Any) (t : Bytes) → (is_text v t ≡ true) ↔ (v ≡ text t)
is_text_iff (text s) t = (λ h. ap text ((eqb_iff s t).0 h), λ h. (eqb_iff s t).1 (cc h))
is_text_iff (items l) t = (λ h. cc h, λ h. cc h)
is_text_iff (algorithm a) t = (λ h. cc h, λ h. cc h)
is_text_iff (other json) t = (λ h. cc h, λ h. cc h)

pub record OidcClaims : Type 0 where
  pub issuer : Bytes
  pub subject : Bytes
  pub audience : Bytes
  pub expiration : ℤ
  pub issued_at : ℤ
  pub email : Bytes
  pub nonce : Bytes
  pub username : Bytes
  pub first_name : Bytes
  pub last_name : Bytes

pub record ProtectedClaims : Type 0 where
  pub alg : Bytes
  pub jkt : Bytes
  pub key_id : Bytes
  pub typ : Bytes
  pub cic : Bytes

-- What `json.Unmarshal` gives for a text. A text `null` leaves a pointer nil, which is `none`.
-- `claims` is the auxiliary struct of `OidcClaims.UnmarshalJSON`, whose `aud` is any value.
-- `typ` is the struct of `GetTyp`.
pub record Json : Type 0 where
  pub claims : Bytes → Result (Option (OidcClaims × Any))
  pub protected : Bytes → Result (Option ProtectedClaims)
  pub typ : Bytes → Result Bytes

-- the loop that asserts that each item is a string, `v.(string)`
strings : List (Option Bytes) → Result (List Bytes)
strings [] = ok []
strings (none ∷ t) = panic
strings (some v ∷ t) = strings t >>= λ l. ok (v ∷ l)

-- the type switch on the audience
unfoldable pub audience_of : Any → Result Bytes
unfolding strings
audience_of (text t) = ok t
audience_of (items t) = strings t >>= λ l. ok (join b',' l)
audience_of (algorithm a) = ok []
audience_of (other json) = ok []

-- (id *OidcClaims) UnmarshalJSON, below the nil of a `null`
unmarshal_claims : Json → Bytes → Result (Option OidcClaims)
unmarshal_claims json b = json.claims b >>= elim [
  | none ↦ ok none
  | some (id, aud) ↦ audience_of aud >>= λ audience. ok (some (record id { audience = audience }))
]

-- ParseJWTSegment, at the two types that the program reads
unfoldable pub parse_segment {ℓ} : {A : Type ℓ} → (Bytes → Result A) → Bytes → Result A
parse_segment unmarshal segment =
    wrap_err "error decoding segment: %w" (base64_decode segment) >>= λ segment_json.
    wrap_err "error parsing segment: %w" (unmarshal segment_json)

unfoldable pub parse_protected : Json → Bytes → Result (Option ProtectedClaims)
parse_protected json = parse_segment json.protected

unfoldable pub parse_claims : Json → Bytes → Result (Option OidcClaims)
unfolding unmarshal_claims
parse_claims json = parse_segment (unmarshal_claims json)

-- (s *Signature) GetTyp
unfoldable pub get_typ : Json → Bytes → Result Bytes
get_typ json protected = base64_decode protected >>= json.typ
