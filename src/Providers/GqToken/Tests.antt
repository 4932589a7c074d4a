-- ===== src/Providers/GqToken/Tests.antt =====
-- Runs and instances of the GQ signature of a provider's token.
use openpubkey.Base.{msg, Result, ok, err, ◌≡◌, refl, List, [], ◌∷◌, none, true, false, ◌↔◌}
use openpubkey.Base.Bytes.{Bytes, str, eqb, split}
use openpubkey.Oidc.Claims.{Any}
use openpubkey.Oidc.Compact.{split_compact}
use openpubkey.PkToken.Jwx.{Headers}
use openpubkey.Util.Base64.{base64_decode}
use openpubkey.Discover.{rsa, PublicKeyRecord}
use openpubkey.Gq.Tests.{primitives, modulus}
use openpubkey.Gq.Jwt.Tests.{jws, jwx, rsa_jwt, draws}
use openpubkey.Providers.GqToken.{GqEnv, create_gq_token_all_params, id_token_headers}
use openpubkey.Providers.GqToken.Signed.{IsUpgrade, create_gq_token_iff}

abbrev headers_of : Bytes → Headers
headers_of alg = record { get = λ k. none; as_map = ok []; algorithm = alg; key_id = str "k" }

-- the headers of every ID Token have this algorithm
abbrev pub gq_env : Bytes → GqEnv (List (Bytes × Any)) (Unit {0})
gq_env alg = record {
  jws = jws;
  jwx = record jwx { parse_headers = λ json. ok (headers_of alg) };
  primitives = primitives;
  jwk_of = λ key. ok (record {
    algorithm = [];
    key_id = [];
    raw = ok (rsa modulus 65537);
    thumbprint = ok (str "t");
  });
}

abbrev op_key : Bytes → Result PublicKeyRecord
op_key token = ok (record { public_key = rsa modulus 65537; alg = str "RS256"; issuer = str "iss" })

misconfigured_run :
    create_gq_token_all_params (gq_env (str "RS256")) op_key rsa_jwt (str "hash") false draws
    ≡ err (
        msg
          "misconfiguration, cicHash is set but gqCommitment is false, set gqCommitment to true to include cicHash in the gq signature")
unfolding create_gq_token_all_params eqb
misconfigured_run = refl

ecdsa_run :
    create_gq_token_all_params (gq_env (str "ES256")) op_key (str "AA.p.s") [] false draws
    ≡ err (msg "gq signatures require ID Token have signed with an RSA key, ID Token alg was (%s)")
unfolding create_gq_token_all_params id_token_headers base64_decode split_compact eqb split
ecdsa_run = refl

create_gq_token_iff_example :
    (create_gq_token_all_params (gq_env (str "RS256")) op_key rsa_jwt (str "hash") true (7 ∷ draws)
      ≡ ok (str "h.p.s", []))
    ↔ IsUpgrade (gq_env (str "RS256")) op_key rsa_jwt (str "hash") true (7 ∷ draws) (str "h.p.s") []
create_gq_token_iff_example =
    create_gq_token_iff (gq_env (str "RS256")) op_key rsa_jwt (str "hash") true (7 ∷ draws)
      (str "h.p.s") []
