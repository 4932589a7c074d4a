-- ===== src/PkToken/CosignerClaims/Tests.antt =====
-- Runs and instances of the claims of a cosigner.
use openpubkey.Base.{msg, ok, err, panic, ◌≡◌, refl, [], none, some}
use openpubkey.Base.Int.{pos}
use openpubkey.Base.Bytes.{str, eqb}
use openpubkey.PkToken.Jwx.{Headers}
use openpubkey.PkToken.Token.{PkToken, empty_pk_token}
use openpubkey.PkToken.CosignerClaims.{CosignerClaims, parse_cosigner_claims}

abbrev full : CosignerClaims
full = record {
  issuer = str "https://cosigner";
  key_id = str "key";
  algorithm = str "ES256";
  auth_id = str "id";
  auth_time = pos 5;
  issued_at = pos 5;
  expiration = pos 9;
  redirect_uri = str "https://client";
  nonce = str "n";
  typ = [];
}

abbrev no_headers : Headers
no_headers = record { get = λ k. none; as_map = ok []; algorithm = []; key_id = [] }

abbrev cosigned : PkToken
cosigned = record empty_pk_token { cos = some (record { protected = no_headers; public = none }) }

read_full : parse_cosigner_claims (λ h. ok full) cosigned ≡ ok full
unfolding parse_cosigner_claims eqb
read_full = refl

read_without_nonce :
    parse_cosigner_claims (λ h. ok (record full { nonce = [] })) cosigned
    ≡ err (msg "cosigner protect header missing required headers: %v")
unfolding parse_cosigner_claims eqb
read_without_nonce = refl

read_unsigned : parse_cosigner_claims (λ h. ok full) empty_pk_token ≡ panic
unfolding parse_cosigner_claims
read_unsigned = refl
