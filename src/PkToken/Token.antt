-- ===== src/PkToken/Token.antt =====
-- pktoken/pktoken.go: a PK Token, and how signatures are added to it.
pub mod Valid
pub mod Stored
mod Tests
use openpubkey.Base.{
  ℕ, zero, suc, ◌+◌, ◌-◌, ◌*◌, ◌/◌, ◌%◌, ◌^◌, ◌≤◌, ◌<◌, String, Error, msg, wrapped, joined,
  permission, Result, ok, err, panic, require, wrap_err, is_permission, bind-eq-ok, wrap_err-eq-ok,
  require-eq-ok, continue, ◌>>=◌, ◌>>◌, ◌≡◌, ◌≢◌, refl, sym, ◌∙◌, ap, List, [], ◌∷◌, ◌++◌, map,
  arith, Option, none, some, Bool, true, false, ◌||◌, ◌&&◌, not, ltb, leb, ◌==◌, if◌then◌else◌,
  length, length-append, get_elem?, All, Bool-cases, Option-cases, inl, inr, ◌⊎◌, ◌↔◌, ==_iff,
  ltb→lt,
}
use openpubkey.Base.Bytes.{content, Bytes, str, eqb}
use openpubkey.Oidc.Claims.{Any, text, items, algorithm, other, Json, ProtectedClaims}
use openpubkey.Oidc.Jwt.{new_jwt, deref}
use openpubkey.PkToken.Compact.{compact_pk_token, split_compact_pk_token}
use openpubkey.PkToken.SignatureType
use openpubkey.PkToken.Jwx.{Headers, JwsSignature, Message, Jwx, first_signature}

-- A nil slice or pointer is `none`.
pub record PkToken : Type 0 where
  pub raw : Option Bytes
  pub payload : Option Bytes
  pub op : Option JwsSignature
  pub cic : Option JwsSignature
  pub cos : Option JwsSignature
  pub op_token : Option Bytes
  pub cic_token : Option Bytes
  pub cos_token : Option Bytes
  pub fresh_id_token : Option Bytes

-- `&PKToken{}`
abbrev pub empty_pk_token : PkToken
empty_pk_token = record {
  raw = none;
  payload = none;
  op = none;
  cic = none;
  cos = none;
  op_token = none;
  cic_token = none;
  cos_token = none;
  fresh_id_token = none;
}

-- The first payload is kept, and each later one is compared with it.
pub store_payload : Option Bytes → Option Bytes → PkToken → Result (Unit {0}) × PkToken
store_payload none new p = (ok tt, record p { payload = new })
store_payload (some old) new p = (
  require (eqb old (content new))
      "payload in the GQ token (%s) does not match the existing payload in the PK Token (%s)",
  p,
)

abbrev typ_is : Bytes → Option Any → Result (Unit {0})
typ_is sig_type none = err (msg "required 'typ' claim not found in protected")
typ_is sig_type (some (text found)) =
    require (eqb found sig_type) "incorrect 'typ' claim in protected, expected (%s), got (%s)"
typ_is sig_type (some (items l)) =
    err (msg "'typ' claim in protected must be a string but was a %T")
typ_is sig_type (some (algorithm a)) =
    err (msg "'typ' claim in protected must be a string but was a %T")
typ_is sig_type (some (other json)) =
    err (msg "'typ' claim in protected must be a string but was a %T")

pub check_typ : Bytes → Headers → Result (Unit {0})
check_typ sig_type protected =
    if eqb sig_type SignatureType.cic || eqb sig_type SignatureType.cos
    then typ_is sig_type (protected.get (str "typ"))
    else ok tt

-- the switch on the signature type
pub store_signature : Bytes → JwsSignature → Bytes → PkToken → Result (Unit {0}) × PkToken
store_signature sig_type s token p =
    if eqb sig_type SignatureType.oidc
    then (ok tt, record p { op = some s; op_token = some token })
    else if eqb sig_type SignatureType.cic
    then (ok tt, record p { cic = some s; cic_token = some token })
    else if eqb sig_type SignatureType.cos
    then (ok tt, record p { cos = some s; cos_token = some token })
    else (err (msg "unrecognized signature type: %s"), p)

module _ {Key : Type 0} (jwx : Jwx Key) where
  -- `AddSignature` once the token has been parsed
  pub add_message : Bytes → Bytes → Message → PkToken → Result (Unit {0}) × PkToken
  add_message token sig_type message p =
      continue (store_payload p.payload message.payload p) λ _ p1.
        continue (first_signature message.signatures, p1)
          λ s p2.
            continue (check_typ sig_type s.protected, p2)
              λ _ p3. store_signature sig_type s token p3

  -- (p *PKToken) AddSignature
  unfoldable pub add_signature : Bytes → Bytes → PkToken → Result (Unit {0}) × PkToken
  unfolding add_message store_payload check_typ store_signature
  add_signature token sig_type p =
      continue (jwx.parse token, p) λ message p0. add_message token sig_type message p0

  -- New
  unfoldable pub new_pk_token : Bytes → Bytes → Result PkToken
  new_pk_token id_token cic_token =
      (continue (add_signature id_token SignatureType.oidc empty_pk_token)
        λ _ p. continue (add_signature cic_token SignatureType.cic p) λ _ q. (ok q, q)).0

  -- a missing typ claim is taken for that of the provider
  typ_or_oidc : Bytes → Bytes
  typ_or_oidc [] = SignatureType.oidc
  typ_or_oidc (c ∷ typ) = c ∷ typ

  -- the loop of `NewFromCompact`
  add_tokens : Json → List Bytes → PkToken → Result PkToken
  add_tokens json [] p = ok p
  add_tokens json (token ∷ tokens) p = new_jwt json token >>= λ parsed.
      deref parsed.protected_claims >>= λ claims.
      (continue (add_signature token (typ_or_oidc claims.typ) p) λ _ q. (ok q, q)).0
      >>= add_tokens json tokens

  -- NewFromCompact
  unfoldable pub new_from_compact : Json → Bytes → Result PkToken
  unfolding typ_or_oidc add_tokens
  new_from_compact json pkt_com = split_compact_pk_token pkt_com >>= λ (tokens, fresh_id_token).
      add_tokens json tokens empty_pk_token >>= λ p.
      ok (record p { fresh_id_token = fresh_id_token })

abbrev list_of : Option Bytes → List Bytes
list_of none = []
list_of (some token) = token ∷ []

-- (p *PKToken) Compact
unfoldable pub compact : PkToken → Result Bytes
compact p =
    compact_pk_token (list_of p.op_token ++ (list_of p.cic_token ++ list_of p.cos_token))
      p.fresh_id_token

-- `alg.(jwa.SignatureAlgorithm)`, with the missing header as `none`
abbrev known_algorithm : Option Any → Result (Option Bytes)
known_algorithm none = ok none
known_algorithm (some (algorithm alg)) = ok (some alg)
known_algorithm (some (text t)) = panic
known_algorithm (some (items l)) = panic
known_algorithm (some (other json)) = panic

-- (p *PKToken) ProviderAlgorithm; a nil `Op` is a nil dereference
unfoldable pub provider_algorithm : PkToken → Result (Option Bytes)
provider_algorithm p = deref p.op >>= λ s. known_algorithm (s.protected.get (str "alg"))
