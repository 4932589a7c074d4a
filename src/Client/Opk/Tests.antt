-- ===== src/Client/Opk/Tests.antt =====
-- Runs and instances of a client.
use openpubkey.Base.{msg, ok, err, panic, ◌≡◌, refl, [], ◌∷◌, none, some, true}
use openpubkey.Base.Assoc.{insert, lookup}
use openpubkey.Base.Bytes.{Bytes, str, eqb}
use openpubkey.Client.Opk.{
  Tokens, OpenIdProvider, OpkClient, ClientEnv, with_signer, with_cosigner_provider,
  with_extra_claim, new_client, oidc_auth, pk_token_of, auth, refresh, keep,
}
use openpubkey.Client.Opk.Stored.{Authenticated, auth-Authenticated}
use openpubkey.Client.Cos.{validate_cos}
use openpubkey.Client.Request.{create_init_auth_sig, has_suffix, request_token}
use openpubkey.PkToken.Cic.{get_cic_values}
use openpubkey.PkToken.ClientInstance.{
  new_claims, claims_sign, generate_rand, encode_hex, parse_claims,
}
use openpubkey.PkToken.SignedMessage.{new_signed_message}
use openpubkey.Util.Base64.{base64_decode}
use openpubkey.Verifier.{new_verifier, verify_pk_token, verify_cic_signature, issuer}
use openpubkey.Client.Request.Tests.{signature, jwx, crypto, world, cosigner}
use openpubkey.PkToken.Token.{empty_pk_token, new_pk_token, add_signature}
use openpubkey.PkToken.Serial.{JwsJson}

abbrev json : JwsJson
json = record {
  marshal = λ j. ok (str "{}");
  jws_of = λ b. err (msg "no JWS");
  message_of = λ b. err (msg "no message");
}

abbrev tokens : Bytes → Tokens
tokens id_token = record {
  id_token = id_token;
  refresh_token = some (str "r");
  access_token = none;
}

abbrev provider : OpenIdProvider (Unit {0})
provider = record {
  request_tokens = λ cic. ok (tokens (str "JWT"));
  refresh_tokens = some (λ t. ok (tokens (str "new")));
  is_browser = true;
  verifier = record {
    issuer = str "iss";
    verify_id_token = λ token cic. ok tt;
    verify_refreshed_id_token = none;
  };
}

abbrev pub env : ClientEnv (Unit {0}) (Unit {0})
env = record {
  reader = record {
    jwx = jwx;
    crypto = crypto;
    issuer_of = λ payload. ok (str "iss");
    cosigner_claims = λ h. panic;
  };
  world = world;
  json = json;
  public_key_of = λ signer. ok tt;
  set_alg = λ alg key. ok key;
  gen_key_pair = λ alg. ok tt;
}

abbrev pub client : OpkClient (Unit {0}) (Unit {0})
client = record {
  op = provider;
  cos_p = some cosigner;
  signer = tt;
  alg = str "ES256";
  pk_token = none;
  refresh_token = none;
  access_token = none;
}

new_run : new_client env provider (with_cosigner_provider cosigner ∷ []) ≡ ok client
unfolding new_client with_cosigner_provider
new_run = refl

no_alg_run :
    new_client env provider (with_signer tt none ∷ [])
    ≡ err (msg "signer specified but alg is nil, must specify alg of signer")
unfolding new_client with_signer
no_alg_run = refl

refresh_run : (refresh env client).0 ≡ err (msg "no refresh token set")
unfolding refresh
refresh_run = refl

auth-Authenticated_example :
    Authenticated env client (auth env client (with_extra_claim (str "k") (str "v") ∷ []))
auth-Authenticated_example =
    auth-Authenticated env client (with_extra_claim (str "k") (str "v") ∷ [])

-- The client keeps the cosigned PK Token, though the copy of it fails.
auth_run :
    (auth env client []).1.pk_token
    ≡ some (record empty_pk_token {
      payload = some (str "{}");
      op = some (signature (str "JWT"));
      cic = some (signature (str "CIC"));
      cos = some (signature (str "COS"));
      op_token = some (str "JWT");
      cic_token = some (str "CIC");
      cos_token = some (str "COS");
    })
unfolding auth oidc_auth pk_token_of keep new_claims claims_sign generate_rand new_pk_token
    new_verifier verify_pk_token verify_cic_signature issuer request_token create_init_auth_sig
    has_suffix encode_hex new_signed_message get_cic_values parse_claims base64_decode validate_cos
    add_signature lookup insert eqb
auth_run = refl
