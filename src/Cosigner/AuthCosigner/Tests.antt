-- ===== src/Cosigner/AuthCosigner/Tests.antt =====
-- Runs and instances of the handlers of a cosigner.
use openpubkey.Base.{
  ℕ, ◌+◌, msg, Result, ok, err, panic, ◌≡◌, ◌≢◌, refl, [], ◌∷◌, none, some, true, false,
  if◌then◌else◌, ◌↔◌,
}
use openpubkey.Base.{arith}
use openpubkey.Base.Int.{pos, ◌<ℤ◌}
use openpubkey.Base.Bytes.{Bytes, str, eqb}
use openpubkey.Base.Assoc.{lookup, insert}
use openpubkey.Oidc.Claims.{text, algorithm}
use openpubkey.PkToken.Jwx.{Headers, JwsSignature, Jwx}
use openpubkey.PkToken.ClientInstance.{Crypto, parse_claims}
use openpubkey.PkToken.Cic.{get_cic_values}
use openpubkey.PkToken.Token.{PkToken, empty_pk_token}
use openpubkey.PkToken.SignedMessage.{verify_signed_message}
use openpubkey.Base.Bytes.{split}
use openpubkey.PkToken.ClientInstance.{encode_hex}
use openpubkey.Providers.Expiration.{unix_to_internal}
use openpubkey.Cosigner.AuthIdIssuer.{create_auth_id}
use openpubkey.Cosigner.Store.{
  new_auth_state, Store, returns, new_store, create_new_auth_session, redeem_authcode,
}
use openpubkey.Cosigner.Store.Once.{here}
use openpubkey.Cosigner.AuthCosigner.{
  AuthCosigner, Env, init_auth, sign_token, cosign, issue_signature, redeem_signed,
}
use openpubkey.Cosigner.AuthCosigner.Redeemed.{IsRedeemedBy, redeem_signed_iff, redeem_signed_once}
use mathlib.Core.Path.{subst}
use openpubkey.Base.{ok_inj, ℕ, ◌+◌}
use openpubkey.Cosigner.AuthCosigner.{plus, InitMfaAuth}
use openpubkey.Cosigner.AuthCosigner.Started.{IsInt64, IsStart, init_auth-IsStart}

-- headers that are those of a client and those of a signed message
abbrev headers : Headers
headers = record {
  get = λ k. some (text (if eqb k (str "typ") then str "osm" else str "AA"));
  as_map = ok (
      (str "rz", text (str "r"))
      ∷ (str "upk", text (str "key"))
      ∷ (str "alg", algorithm (str "ES256"))
      ∷ []);
  algorithm = str "ES256";
  key_id = str "AA";
}

abbrev signature : JwsSignature
signature = record { protected = headers; public = none }

-- a text is its own payload
abbrev jwx : Jwx (Unit {0})
jwx = record {
  parse = λ token. ok (record { payload = some token; signatures = signature ∷ [] });
  verify = λ token alg key. ok tt;
  key_algorithm = λ key. str "ES256";
  key_of = λ v. ok tt;
  parse_headers = λ json. panic;
}

abbrev crypto : Crypto (Unit {0}) (Unit {0})
crypto = record {
  rand = λ n. ok [];
  key_value = λ key. text [];
  marshal_map = λ m. ok [];
  sha3 = λ b. b;
  split_token = λ token. panic;
  set_headers = λ m. ok m;
  sign = λ payload alg signer m. ok payload;
}

abbrev pk_token : PkToken
pk_token = record empty_pk_token { payload = some (str "pay"); cic = some signature }

abbrev hash : PkToken → Result Bytes
hash p = ok (str "AA")

-- a message that was signed at this second
abbrev env_of : ℕ → Env (Unit {0}) (Unit {0})
env_of signed_at = record {
  jwx = jwx;
  crypto = crypto;
  hash = hash;
  init_message = λ m. ok (record {
    issuer = str "cos";
    redirect_uri = str "uri";
    time_signed = pos signed_at;
    nonce = str "n";
  });
  auth_claims = λ payload.
      ok
        (record { issuer = str "iss"; aud = text (str "aud"); sub = str "me"; email = str "me@x" });
  headers_of = λ c. ok ((str "eid", text c.auth_id) ∷ []);
  hmac = λ key bytes. 171 ∷ [];
  now = record { sec = pos (1000 + unix_to_internal); nsec = 0 };
}

abbrev cosigner : AuthCosigner (Unit {0})
cosigner = record { alg = str "ES256"; signer = tt; issuer = str "cos"; key_id = str "k" }

init_run :
    (init_auth (env_of 880) cosigner pk_token (str "hi") 1000 (new_store [])).0
    ≡ returns (ok (str "ab"))
unfolding init_auth verify_signed_message get_cic_values parse_claims lookup eqb new_store
    create_new_auth_session new_auth_state create_auth_id encode_hex split insert
init_run = refl

late_run :
    (init_auth (env_of 879) cosigner pk_token (str "hi") 1000 (new_store [])).0
    ≡ returns (err (msg "timestamp (%d) in InitMFAAuth message too old, current time is (%d)"))
unfolding init_auth verify_signed_message get_cic_values parse_claims lookup eqb
late_run = refl

early_run :
    (init_auth (env_of 1121) cosigner pk_token (str "hi") 1000 (new_store [])).0
    ≡ returns (
        err
          (msg "timestamp (%d) in InitMFAAuth message too far in the future, current time is (%d)"))
unfolding init_auth verify_signed_message get_cic_values parse_claims lookup eqb
early_run = refl

init_auth-IsStart_example :
    (init : InitMfaAuth) × IsStart (env_of 880) cosigner pk_token (str "hi") init
    × (¬ (plus init.time_signed 120 <ℤ pos 1000))
    × (¬ (pos (1000 + 120) <ℤ init.time_signed))
init_auth-IsStart_example =
    init_auth-IsStart (env_of 880) cosigner pk_token (str "hi") 1000 (new_store []) (str "ab") 1000
      refl (λ m init e. subst (λ (i : InitMfaAuth). IsInt64 i.time_signed) (ok_inj e) (omega arith))
      init_run

abbrev store : Store
store = record (new_store []) {
  auth_id_issuer = record { auth_id_iter = 1; hmac_key = [] };
  auth_state_map =
      (
        str "ab",
        record {
          pkt = pk_token;
          issuer = str "iss";
          aud = str "aud";
          sub = str "me";
          username = str "me@x";
          display_name = str "me";
          redirect_uri = str "uri";
          nonce = str "n";
          authcode_issued = true;
          authcode_redeemed = false;
        },
      )
      ∷ [];
  auth_code_map = (str "12", str "ab") ∷ [];
  held = false;
}

redeem_run : (redeem_signed (env_of 1000) cosigner (str "12") store).0 ≡ returns (ok (str "pay"))
unfolding redeem_signed redeem_authcode lookup eqb verify_signed_message get_cic_values parse_claims
    issue_signature cosign sign_token
redeem_run = refl

redeem_signed_iff_example :
    ((redeem_signed (env_of 1000) cosigner (str "12") store).0 ≡ returns (ok (str "pay")))
    ↔ IsRedeemedBy (env_of 1000) cosigner (str "12") store (str "pay")
redeem_signed_iff_example = redeem_signed_iff (env_of 1000) cosigner (str "12") store (str "pay")

redeem_signed_once_example :
    (redeem_signed
      (env_of 1000)
      cosigner
      (str "12")
      (redeem_signed (env_of 1000) cosigner (str "12") store).1).0
    ≢ returns (ok (str "pay"))
redeem_signed_once_example =
    redeem_signed_once (env_of 1000) cosigner (str "12") (str "12") store
      (redeem_signed (env_of 1000) cosigner (str "12") store).1 (str "pay") (str "pay")
      (record { payload = some (str "12"); signatures = signature ∷ [] })
      (record { payload = some (str "12"); signatures = signature ∷ [] }) refl refl refl redeem_run
      (here (redeem_signed (env_of 1000) cosigner (str "12") store).1)
