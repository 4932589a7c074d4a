-- ===== src/Oidc/Jwt/Tests.antt =====
-- Runs and instances of the comparison of tokens.
use openpubkey.Base.{ℕ, ◌+◌, msg, ok, err, panic, ◌≡◌, refl, [], ◌∷◌, none, some, length}
use openpubkey.Base.Int.{pos}
use openpubkey.Base.Bytes.{Bytes, str, split, join, eqb}
use openpubkey.Util.Base64.{base64_decode}
use openpubkey.Oidc.Compact.{split_compact}
use openpubkey.Oidc.Claims.{
  items, OidcClaims, ProtectedClaims, Json, audience_of, parse_segment, parse_protected,
  parse_claims,
}
use openpubkey.Oidc.Jwt.{new_jwt, same_identity, require_older}

abbrev claims_at : ℕ → OidcClaims
claims_at n = record {
  issuer = str "iss";
  subject = str "me";
  audience = [];
  expiration = pos (n + 10);
  issued_at = pos n;
  email = [];
  nonce = [];
  username = [];
  first_name = [];
  last_name = [];
}

abbrev headers : ProtectedClaims
headers = record { alg = str "RS256"; jkt = []; key_id = []; typ = str "JWT"; cic = [] }

-- a decoder for which a payload of n bytes is issued at n
abbrev by_length : Json
by_length = record {
  claims = λ b. ok (some (claims_at (length b), items (some (str "a") ∷ some (str "b") ∷ [])));
  protected = λ b. ok (some headers);
  typ = λ b. ok (str "JWT");
}

abbrev first_token : Bytes
first_token = str "ZmFr.ZmFr.ZmFr"

abbrev second_token : Bytes
second_token = str "ZmFr.ZmFrZXM.ZmFr"

same_identity_run : same_identity by_length first_token second_token ≡ ok tt
unfolding same_identity new_jwt split_compact parse_protected parse_claims parse_segment
    base64_decode audience_of split join eqb
same_identity_run = refl

require_older_run :
    require_older by_length second_token first_token
    ≡ err (msg "tokens not issued in correct order")
unfolding require_older new_jwt split_compact parse_protected parse_claims parse_segment
    base64_decode audience_of split join eqb
require_older_run = refl

-- An audience with an item that is no string stops the program.
audience_panics : audience_of (items (some (str "a") ∷ none ∷ [])) ≡ panic
unfolding audience_of
audience_panics = refl
