-- ===== src/PkToken/ClientInstance.antt =====
-- pktoken/clientinstance/claims.go: the claims of a client instance, which its headers carry.
pub mod Laws
mod Tests
use openpubkey.Base.{
  required, required-eq-ok, ℕ, zero, suc, ◌+◌, ◌-◌, ◌*◌, ◌/◌, ◌%◌, ◌^◌, ◌≤◌, ◌<◌, String, Error,
  msg, wrapped, joined, permission, Result, ok, err, panic, require, wrap_err, is_permission,
  bind-eq-ok, wrap_err-eq-ok, require-eq-ok, continue, continue-keeps, continue-eq-ok, ◌>>=◌, ◌>>◌,
  ◌≡◌, ◌≢◌, refl, sym, ◌∙◌, ap, List, [], ◌∷◌, ◌++◌, map, arith, Option, none, some, Bool, true,
  false, ◌||◌, ◌&&◌, not, ltb, leb, ◌==◌, if◌then◌else◌, length, length-append, get_elem?, All,
  Bool-cases, Option-cases, inl, inr, ◌⊎◌, ◌↔◌, ==_iff, ltb→lt,
}
use openpubkey.Base.Bytes.{Bytes, str, eqb, content}
use openpubkey.Base.Assoc.{lookup, insert}
use openpubkey.Util.Base64.{base64_encode, base64_decode}
use openpubkey.Oidc.Claims.{Any, text, items, algorithm, other}
use openpubkey.PkToken.Jwx.{Headers, Jwx}

pub record Claims (Key : Type 0) : Type 0 where
  pub public_key : Key
  pub protected : List (Bytes × Any)

-- What else is called: the random bytes of `rand.Read`; a key as a value of a header; the JSON text
-- of a map, in which the keys are sorted; SHA3-256; and `SplitCompact`, `headers.Set` on each entry
-- of a map, and `Sign` of the package jws.
pub record Crypto (Key Signer : Type 0) : Type 0 where
  pub rand : ℕ → Result Bytes
  pub key_value : Key → Any
  pub marshal_map : List (Bytes × Any) → Result Bytes
  pub sha3 : Bytes → Bytes
  pub split_token : Bytes → Result (Bytes × Bytes × Bytes)
  pub set_headers : List (Bytes × Any) → Result (List (Bytes × Any))
  pub sign : Bytes → Bytes → Signer → List (Bytes × Any) → Result Bytes

abbrev hex_digit : ℕ → ℕ
hex_digit n = if ltb n 10 then 48 + n else 87 + n

-- `hex.EncodeToString`
unfoldable pub encode_hex : Bytes → Bytes
encode_hex [] = []
encode_hex (b ∷ bs) = hex_digit (b / 16) ∷ hex_digit (b % 16) ∷ encode_hex bs

-- a claim that the map may not have
abbrev pub unused {ℓ} : {A : Type ℓ} → Option A → Bool
unused none = true
unused (some v) = false

abbrev pub reserved_names : List Bytes
reserved_names = str "alg" ∷ str "upk" ∷ str "rz" ∷ str "typ" ∷ []

pub no_reserved : List Bytes → List (Bytes × Any) → Result (Unit {0})
no_reserved [] claims = ok tt
no_reserved (reserved ∷ rest) claims =
    require (unused (lookup reserved claims))
      "use of reserved header name, %s, in additional headers"
    >>= λ _. no_reserved rest claims

-- A header that is compared with an algorithm of the library is equal only if it is one.
abbrev pub is_algorithm : Bytes → Any → Bool
is_algorithm alg (text t) = false
is_algorithm alg (items l) = false
is_algorithm alg (algorithm a) = eqb a alg
is_algorithm alg (other json) = false

module _ {Key Signer : Type 0} (jwx : Jwx Key) (crypto : Crypto Key Signer) where
  -- generateRand
  unfoldable pub generate_rand : Result Bytes
  unfolding encode_hex
  generate_rand = crypto.rand (256 / 8) >>= λ bytes. ok (encode_hex bytes)

  -- the values that NewClaims assigns
  abbrev pub with_required : Key → Bytes → List (Bytes × Any) → List (Bytes × Any)
  with_required public_key rz claims = insert (str "rz") (text rz) (
      insert (str "upk") (crypto.key_value public_key) (
        insert (str "alg") (text (jwx.key_algorithm public_key))
          (insert (str "typ") (text (str "CIC")) claims)))

  -- NewClaims
  unfoldable pub new_claims : Key → List (Bytes × Any) → Result (Claims Key)
  unfolding no_reserved
  new_claims public_key claims = do
    require (not (eqb (jwx.key_algorithm public_key) [])) "user JWK requires algorithm to be set"
    no_reserved reserved_names claims
    rz ← wrap_err "failed to generate random value: %w" generate_rand
    ok (record { public_key = public_key; protected = with_required public_key rz claims })

  -- ParseClaims
  unfoldable pub parse_claims : List (Bytes × Any) → Result (Claims Key)
  parse_claims protected = do
    rz ← required "missing required rz claim" (lookup (str "rz") protected)
    upk ← required "missing required upk claim" (lookup (str "upk") protected)
    upkjwk ← jwx.key_of upk
    alg ← required "missing required alg claim" (lookup (str "alg") protected)
    require (is_algorithm (jwx.key_algorithm upkjwk) alg)
        "provided alg value different from algorithm provided in upk jwk"
    ok (record { public_key = upkjwk; protected = protected })

  -- B64SHA3_256
  unfoldable pub b64_sha3_256 : Bytes → Bytes
  b64_sha3_256 message = base64_encode (crypto.sha3 message)

  -- (c *Claims) Hash
  unfoldable pub claims_hash : Claims Key → Result Bytes
  claims_hash c = crypto.marshal_map c.protected >>= λ buf. ok (b64_sha3_256 buf)

  -- (c *Claims) Sign
  unfoldable pub claims_sign : Claims Key → Signer → Bytes → Bytes → Result Bytes
  claims_sign c signer alg token = do
    (header, payload, signature) ← crypto.split_token token
    payload_decoded ← base64_decode payload
    headers ← crypto.set_headers c.protected
    crypto.sign payload_decoded alg signer headers
