-- ===== src/PkToken/Serial.antt =====
-- pktoken/pktoken.go: the JSON form of a PK Token, its copy and its hash.
pub mod Taken
pub mod Signed
mod Tests
use openpubkey.Base.{
  ok_inj, ℕ, zero, suc, ◌+◌, ◌-◌, ◌*◌, ◌/◌, ◌%◌, ◌^◌, ◌≤◌, ◌<◌, String, Error, msg, wrapped, joined,
  permission, Result, ok, err, panic, require, wrap_err, is_permission, bind-eq-ok, bind_ok,
  wrap_err-eq-ok, require-eq-ok, continue, continue-keeps, continue-eq-ok, ◌>>=◌, ◌>>◌, ◌≡◌, ◌≢◌,
  refl, sym, ◌∙◌, ap, List, [], ◌∷◌, ◌++◌, map, arith, Option, none, some, Bool, true, false, ◌||◌,
  ◌&&◌, not, ltb, leb, ◌==◌, if◌then◌else◌, length, length-append, get_elem?, All, Bool-cases,
  Option-cases, inl, inr, ◌⊎◌, ◌↔◌, ==_iff, ltb→lt,
}
use openpubkey.Base.Bytes.{Bytes, str, eqb, content}
use openpubkey.Util.Base64.{base64_encode}
use openpubkey.Oidc.Claims.{Any, text, items, algorithm, other}
use openpubkey.Oidc.Jws.{Signature, Jws, token_of}
use openpubkey.Oidc.Jws
use openpubkey.Oidc.Jwt.{deref}
use openpubkey.PkToken.Jwx.{Headers, JwsSignature, Message}
use openpubkey.PkToken.SignatureType
use openpubkey.PkToken.Token.{PkToken, empty_pk_token}

-- `json.Marshal` of an `oidc.Jws`, and `json.Unmarshal` into one and into a `jws.Message`
pub record JwsJson : Type 0 where
  pub marshal : Jws → Result Bytes
  pub jws_of : Bytes → Result Jws
  pub message_of : Bytes → Result Message

-- the signature of a cosigner is added only where there is one
abbrev add_cos : Option Bytes → Jws → Result Jws
add_cos none raw = ok raw
add_cos (some token) raw = Jws.add_signature raw token none

-- (p *PKToken) MarshalJSON; a nil `Op` is a nil dereference
unfoldable pub marshal_json : JwsJson → PkToken → Result Bytes
marshal_json json p = do
  op ← deref p.op
  with_op ←
      Jws.add_signature (record { payload = base64_encode (content p.payload); signatures = [] })
        (content p.op_token) op.public
  with_cic ← Jws.add_signature with_op (content p.cic_token) none
  raw_jws ← add_cos p.cos_token with_cic
  json.marshal raw_jws

-- public headers without entries are set to nil
abbrev strip_public : JwsSignature → JwsSignature
strip_public s = record s { public = non_empty s.public }
  where
    non_empty : Option (List (Bytes × Any)) → Option (List (Bytes × Any))
    non_empty none = none
    non_empty (some []) = none
    non_empty (some (e ∷ m)) = some (e ∷ m)

-- the type in the header, which is that of the provider where there is none
abbrev pub sig_type_of : Option Any → Result Bytes
sig_type_of none = ok SignatureType.oidc
sig_type_of (some (text t)) = ok t
sig_type_of (some (items l)) = err (msg "provided \"%s\" is of wrong type, expected string")
sig_type_of (some (algorithm a)) = err (msg "provided \"%s\" is of wrong type, expected string")
sig_type_of (some (other json)) = err (msg "provided \"%s\" is of wrong type, expected string")

pub record Counts : Type 0 where
  pub op : ℕ
  pub cic : ℕ
  pub cos : ℕ

-- `rawJws.Signatures[i]` in compact form
abbrev pub token_at : Jws → Option Signature → Result Bytes
token_at raw none = panic
token_at raw (some v) = ok (token_of raw v)

-- the switch on the type
pub take_as : Bytes → JwsSignature → Result Bytes → Counts × PkToken → Result (Counts × PkToken)
take_as sig_type s token (n, p) =
    if eqb sig_type SignatureType.oidc
    then (token >>= λ t.
        ok (record n { op = n.op + 1 }, record p { op = some s; op_token = some t }))
    else if eqb sig_type SignatureType.cic
    then (token >>= λ t.
        ok (record n { cic = n.cic + 1 }, record p { cic = some s; cic_token = some t }))
    else if eqb sig_type SignatureType.cos
    then (token >>= λ t.
        ok (record n { cos = n.cos + 1 }, record p { cos = some s; cos_token = some t }))
    else err (msg "unrecognized signature type: %s")

-- the loop over the signatures, from the index `i`
pub take_signatures : Jws → ℕ → List JwsSignature → Counts × PkToken → Result (Counts × PkToken)
take_signatures raw i [] state = ok state
take_signatures raw i (s ∷ rest) state = sig_type_of (s.protected.get (str "typ")) >>= λ sig_type.
    take_as sig_type (strip_public s) (token_at raw (get_elem? raw.signatures i)) state
    >>= take_signatures raw (i + 1) rest

abbrev pub check_counts : Counts → Result (Unit {0})
check_counts n =
    require (not (n.op == 0)) "at least one signature of type \"oidc\" or \"oidc_gq\" is required"
    >> require (not (ltb 1 n.op))
        "only one signature of type \"oidc\" or \"oidc_gq\" is allowed, found %d"
    >> require (not (n.cic == 0)) "at least one signature of type \"cic\" is required"
    >> require (not (ltb 1 n.cic)) "only one signature of type \"cic\" is allowed, found %d"
    >> require (not (ltb 1 n.cos)) "only one signature of type \"cos\" is allowed, found %d"

-- (p *PKToken) UnmarshalJSON on a receiver, which an error leaves in a state that is not used
unfoldable pub unmarshal_json : JwsJson → Bytes → PkToken → Result PkToken
unfolding take_as take_signatures
unmarshal_json json b p = do
  raw_jws ← json.jws_of b
  parsed ← json.message_of b
  (n, q) ←
      take_signatures raw_jws 0 parsed.signatures
        (record { op = 0; cic = 0; cos = 0 }, record p { payload = parsed.payload })
  check_counts n
  ok q

-- (p *PKToken) DeepCopy
unfoldable pub deep_copy : JwsJson → PkToken → Result PkToken
deep_copy json p = marshal_json json p >>= λ pkt_json.
    unmarshal_json json pkt_json empty_pk_token >>= λ copy.
    ok (record copy { fresh_id_token = p.fresh_id_token })

-- the text that is hashed
abbrev message_to_hash : JwsJson → PkToken → Option Bytes → Result Bytes
message_to_hash json p none = marshal_json json p
message_to_hash json p (some raw) = ok raw

-- (p *PKToken) Hash, with `B64SHA3_256` as an argument
unfoldable pub hash : JwsJson → (Bytes → Bytes) → PkToken → Result Bytes
hash json b64_sha3_256 p = message_to_hash json p p.raw >>= λ message. ok (b64_sha3_256 message)
