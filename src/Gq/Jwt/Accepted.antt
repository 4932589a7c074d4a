-- ===== src/Gq/Jwt/Accepted.antt =====
-- A JWT with an RSA signature, signed anew by `GQ256SignJWT` of gq/gq.go, at `GQ256VerifyJWT`.
use openpubkey.Base.{◌^◌, ◌<◌, ok, ◌≡◌, length}
use openpubkey.Base.Bytes.{Bytes, IsFree}
use openpubkey.Base.Bytes.BigEndian.{IsBytes, value}
use openpubkey.Oidc.Compact.{compact_form}
use openpubkey.PkToken.Jwx.{Jwx}
use openpubkey.Gq.{SignerVerifier}
use openpubkey.Gq.Jwt.{JwsLib, original_jwt_headers}
use openpubkey.Gq.Modular.{SameMod}

-- The bytes of an RSA signature over some padded bytes, of the size of the key.
pub record IsRsaSignature (sv : SignerVerifier) (b padded : Bytes) : Type 0 where
  pub bytes : IsBytes b
  pub below : value b < sv.n
  pub sized : length b ≡ sv.n_bytes
  pub power : SameMod sv.n (value b ^ sv.v) (value padded)

-- A token of these headers and this payload is read back at any signature without a dot:
-- `SplitCompact` gives the three parts, and `Parse` the original headers.
pub record IsReadBack {H Key : Type 0} (jws : JwsLib H) (jwx : Jwx Key)
    (headers payload original : Bytes) : Type 0 where
  pub parts :
      (s : Bytes)
      → IsFree b'.' s
      → jws.split_compact (compact_form headers payload s) ≡ ok (headers, payload, s)
  pub kid :
      (s : Bytes)
      → IsFree b'.' s
      → original_jwt_headers jwx (compact_form headers payload s) ≡ ok original
