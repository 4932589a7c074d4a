-- ===== src/PkToken/Cic.antt =====
-- (p *PKToken) GetCicValues of pktoken/pktoken.go.
use openpubkey.Base.{Result, ◌>>=◌}
use openpubkey.Oidc.Jwt.{deref}
use openpubkey.PkToken.Jwx.{Jwx}
use openpubkey.PkToken.ClientInstance.{Claims, Crypto, parse_claims}
use openpubkey.PkToken.Token.{PkToken}

-- a nil `Cic` is a nil dereference
unfoldable pub get_cic_values :
    {Key Signer : Type 0} → Jwx Key → Crypto Key Signer → PkToken → Result (Claims Key)
get_cic_values jwx crypto p =
    deref p.cic >>= λ cic. cic.protected.as_map >>= parse_claims jwx crypto
