-- ===== src/PkToken/Serial/Signed.antt =====
-- The signatures that a PK Token read from JSON has.
use openpubkey.Base.{◌+◌, ◌≤◌, ok, ◌≡◌, List}
use openpubkey.Base.Bytes.{Bytes}
use openpubkey.Oidc.Jws.{Jws}
use openpubkey.PkToken.Jwx.{JwsSignature, Message}
use openpubkey.PkToken.SignatureType
use openpubkey.PkToken.Token.{PkToken}
use openpubkey.PkToken.Serial.{JwsJson, Counts}
use openpubkey.PkToken.Serial.Taken.{count, IsFrom, IsTaken}

record AreSteps (raw : Jws) (all ss : List JwsSignature) (n m : Counts) (p q : PkToken)
    : Type 0 where
  op : m.op ≡ n.op + count SignatureType.oidc ss
  cic : m.cic ≡ n.cic + count SignatureType.cic ss
  cos : m.cos ≡ n.cos + count SignatureType.cos ss
  payload : q.payload ≡ p.payload
  taken : IsTaken raw all n p → IsTaken raw all m q
  kept : m.cos ≡ n.cos → (q.cos ≡ p.cos) × (q.cos_token ≡ p.cos_token)

pub record IsSigned (json : JwsJson) (b : Bytes) (p q : PkToken) : Type 0 where
  pub raw : Jws
  pub raw_read : json.jws_of b ≡ ok raw
  pub message : Message
  pub message_read : json.message_of b ≡ ok message
  pub payload : q.payload ≡ message.payload
  pub one_op : count SignatureType.oidc message.signatures ≡ 1
  pub one_cic : count SignatureType.cic message.signatures ≡ 1
  pub one_cos : count SignatureType.cos message.signatures ≤ 1
  pub op : IsFrom raw message.signatures SignatureType.oidc q.op q.op_token
  pub cic : IsFrom raw message.signatures SignatureType.cic q.cic q.cic_token
  pub cos :
      count SignatureType.cos message.signatures ≡ 1
      → IsFrom raw message.signatures SignatureType.cos q.cos q.cos_token
  pub no_cos :
      count SignatureType.cos message.signatures ≡ 0 → (q.cos ≡ p.cos) × (q.cos_token ≡ p.cos_token)
