-- ===== src/Discover.antt =====
-- discover/discover.go: finding the public key of an issuer.
pub mod Laws
mod Tests
pub use openpubkey.Gq.Jwt.{gq256}
use openpubkey.Base.{
  ℕ, zero, suc, ◌+◌, ◌-◌, ◌*◌, ◌/◌, ◌%◌, ◌^◌, ◌≤◌, ◌<◌, String, Error, msg, wrapped, joined,
  permission, Result, ok, err, panic, require, wrap_err, is_permission, bind-eq-ok, wrap_err-eq-ok,
  require-eq-ok, continue, continue-keeps, continue-eq-ok, ◌>>=◌, ◌>>◌, ◌≡◌, ◌≢◌, refl, sym, ◌∙◌,
  ap, List, [], ◌∷◌, ◌++◌, map, arith, Option, none, some, Bool, true, false, ◌||◌, ◌&&◌, not, ltb,
  leb, ◌==◌, if◌then◌else◌, length, length-append, get_elem?, All, Bool-cases, Option-cases, inl,
  inr, ◌⊎◌, ◌↔◌, ==_iff, ltb→lt,
}
use openpubkey.Base.Bytes.{Bytes, str, eqb}
use openpubkey.Util.Base64.{base64_encode, base64_decode}
use openpubkey.PkToken.Jwx.{Headers, Jwx, Message, first_signature}

-- `crypto.PublicKey`: the modulus and the exponent of an RSA key, the point of another.
pub data PublicKey : Type 0 where
  rsa : ℕ → ℕ → PublicKey
  ecdsa : ℕ → ℕ → PublicKey

-- What is read of a `jwk.Key`: `Algorithm`, the empty text where there is none, `Raw` and
-- `Thumbprint`.
pub record Jwk : Type 0 where
  pub algorithm : Bytes
  pub key_id : Bytes
  pub raw : Result PublicKey
  pub thumbprint : Result Bytes

-- `jwk.Set`: `LookupKeyID` and `Keys`
pub record JwkSet : Type 0 where
  pub lookup_key_id : Bytes → Option Jwk
  pub keys : List Jwk

pub record PublicKeyRecord : Type 0 where
  pub public_key : PublicKey
  pub alg : Bytes
  pub issuer : Bytes

-- `JwksFunc`, which fetches the keys of an issuer as JSON, and the reading of that JSON
pub record PublicKeyFinder : Type 0 where
  pub jwks_func : Bytes → Result Bytes
  pub unmarshal : Bytes → Result JwkSet

abbrev pub rs256 : Bytes
rs256 = str "RS256"

abbrev pub es256 : Bytes
es256 = str "ES256"

abbrev pub supported : Bytes → Bool
supported alg = eqb alg rs256 || (eqb alg es256 || eqb alg [])

-- NewPublicKeyRecord; a key without `alg` is taken for RSA
unfoldable pub new_public_key_record : Jwk → Bytes → Result PublicKeyRecord
new_public_key_record key issuer = do
  require (supported key.algorithm) "JWK has unsupported alg (%s)"
  public_key ← wrap_err "failed to decode public key: %w" key.raw
  ok (record {
    public_key = public_key;
    alg = if eqb key.algorithm [] then rs256 else key.algorithm;
    issuer = issuer;
  })

-- (f *PublicKeyFinder) fetchAndParseJwks
unfoldable pub fetch_and_parse_jwks : PublicKeyFinder → Bytes → Result JwkSet
fetch_and_parse_jwks f issuer =
    wrap_err "failed to fetch JWKS: %w" (f.jwks_func issuer) >>= λ jwks_json.
    wrap_err "failed to unmarshal JWKS: %w" (f.unmarshal jwks_json)

abbrev record_of : Bytes → String → Option Jwk → Result PublicKeyRecord
record_of issuer e none = err (msg e)
record_of issuer e (some key) = new_public_key_record key issuer

-- (f *PublicKeyFinder) ByKeyID
unfoldable pub by_key_id : PublicKeyFinder → Bytes → Bytes → Result PublicKeyRecord
by_key_id f issuer key_id =
    wrap_err "failed to fetch JWK set: %w" (fetch_and_parse_jwks f issuer) >>= λ jwks.
    record_of issuer "no matching public key found for kid %s" (jwks.lookup_key_id key_id)

-- the loop of `ByJKT`
pub find_jkt : Bytes → List Jwk → Result (Option Jwk)
find_jkt jkt [] = ok none
find_jkt jkt (key ∷ keys) =
    let rest = find_jkt jkt keys in
    wrap_err "error computing Thumbprint of key in JWKS: %w" key.thumbprint >>= λ jkt_of_key.
    if eqb jkt (base64_encode jkt_of_key) then ok (some key) else rest

-- (f *PublicKeyFinder) ByJKT
unfoldable pub by_jkt : PublicKeyFinder → Bytes → Bytes → Result PublicKeyRecord
unfolding find_jkt
by_jkt f issuer jkt = fetch_and_parse_jwks f issuer >>= λ jwks.
    find_jkt jkt jwks.keys >>= record_of issuer "no matching public key found for jkt %s"

module _ {Key : Type 0} (jwx : Jwx Key) where
  -- the headers that name the key: those of the original token where the token has a GQ signature
  unfoldable pub key_headers : Headers → Result Headers
  key_headers headers =
      if eqb headers.algorithm gq256
      then (wrap_err "error base64 decoding GQ kid: %w" (base64_decode headers.key_id)
          >>= λ orig_headers_json.
              wrap_err "error unmarshalling GQ kid to original headers: %w"
                (jwx.parse_headers orig_headers_json))
      else ok headers

  -- (f *PublicKeyFinder) ByToken
  unfoldable pub by_token : PublicKeyFinder → Bytes → Bytes → Result PublicKeyRecord
  by_token f issuer token = do
    jwt ← wrap_err "error parsing JWK in JWKS: %w" (jwx.parse token)
    s ← first_signature jwt.signatures
    headers ← key_headers s.protected
    by_key_id f issuer headers.key_id
