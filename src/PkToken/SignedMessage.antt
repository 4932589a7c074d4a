-- ===== src/PkToken/SignedMessage.antt =====
-- pktoken/osm.go: messages signed with the key of a client, which name a PK Token.
pub mod Verified
mod Tests
use openpubkey.Base.{
  required, required-eq-ok, ok_inj, ℕ, zero, suc, ◌+◌, ◌-◌, ◌*◌, ◌/◌, ◌%◌, ◌^◌, ◌≤◌, ◌<◌, String,
  Error, msg, wrapped, joined, permission, Result, ok, err, panic, require, wrap_err, is_permission,
  bind-eq-ok, bind_ok, wrap_err-eq-ok, require-eq-ok, continue, continue-keeps, continue-eq-ok,
  ◌>>=◌, ◌>>◌, ◌≡◌, ◌≢◌, refl, sym, ◌∙◌, ap, List, [], ◌∷◌, ◌++◌, map, arith, Option, none, some,
  Bool, true, false, ◌||◌, ◌&&◌, not, ltb, leb, ◌==◌, if◌then◌else◌, length, length-append,
  get_elem?, All, Bool-cases, Option-cases, inl, inr, ◌⊎◌, ◌↔◌, ==_iff, ltb→lt,
}
use openpubkey.Base.Bytes.{Bytes, str, eqb, content}
use openpubkey.Oidc.Claims.{is_text, is_text_iff, Any, text, items, algorithm, other}
use openpubkey.PkToken.Jwx.{Headers, JwsSignature, Message, Jwx, first_signature}
use openpubkey.PkToken.ClientInstance.{Claims, Crypto}
use openpubkey.PkToken.Cic.{get_cic_values}
use openpubkey.PkToken.Token.{PkToken}

-- The hash of a PK Token, `Hash`, is an argument.
module _ {Key Signer : Type 0} (jwx : Jwx Key) (crypto : Crypto Key Signer)
    (hash : PkToken → Result Bytes) where
  -- (p *PKToken) NewSignedMessage
  unfoldable pub new_signed_message : PkToken → Bytes → Signer → Result Bytes
  new_signed_message p message signer = do
    cic ← get_cic_values jwx crypto p
    pkt_hash ← hash p
    protected ← crypto.set_headers (
        (str "alg", algorithm (jwx.key_algorithm cic.public_key))
        ∷ (str "kid", text pkt_hash)
        ∷ (str "typ", text (str "osm"))
        ∷ [])
    crypto.sign message (jwx.key_algorithm cic.public_key) signer protected

  -- (p *PKToken) VerifySignedMessage; the payload of a message is never nil
  unfoldable pub verify_signed_message : PkToken → Bytes → Result Bytes
  verify_signed_message p osm = do
    cic ← get_cic_values jwx crypto p
    message ← jwx.parse osm
    require (length message.signatures == 1) "expected only one signature on jwt, received %d"
    s ← first_signature message.signatures
    typ ← required "missing required header `typ`" (s.protected.get (str "typ"))
    require (is_text typ (str "osm")) "incorrect \"typ\" header, expected \"osm\" but received %s"
    require (eqb s.protected.algorithm (jwx.key_algorithm cic.public_key))
        "incorrect \"alg\" header, expected %s but received %s"
    kid ← required "missing required header `kid`" (s.protected.get (str "kid"))
    pkt_hash ← wrap_err "unable to hash PK Token: %w" (hash p)
    require (is_text kid pkt_hash) "incorrect \"kid\" header, expected %s but received %s"
    jwx.verify osm (jwx.key_algorithm cic.public_key) cic.public_key
    ok (content message.payload)
