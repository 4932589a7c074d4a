-- ===== src/PkToken/SignatureType.antt =====
-- The signature types of pktoken/pktoken.go, which are the values of a `typ` header.
use openpubkey.Base.Bytes.{Bytes, str}

abbrev pub oidc : Bytes
oidc = str "JWT"

abbrev pub cic : Bytes
cic = str "CIC"

abbrev pub cos : Bytes
cos = str "COS"
