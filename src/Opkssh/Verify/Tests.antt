-- ===== src/Opkssh/Verify/Tests.antt =====
-- Runs and instances of the command for sshd.
use openpubkey.Base.{
  ◌+◌, msg, ok, err, panic, ◌≡◌, refl, [], none, some, true, false, if◌then◌else◌, ◌↔◌,
}
use openpubkey.Base.Assoc.{lookup}
use openpubkey.Providers.Expiration.{unix_to_internal}
use openpubkey.Base.Bytes.{str, eqb}
use openpubkey.Base.Int.{pos}
use openpubkey.Client.Request.Tests.{signature, jwx, crypto}
use openpubkey.Opkssh.SshCert.{
  SshCert, SshEnv, Config, OidcProvider, verify_ca_sig, verify_ssh_pk_token, verify_fresh,
}
use openpubkey.Opkssh.SshCert.Refreshed.{with_fresh, verify_ssh_pk_token-with_fresh}
use openpubkey.Opkssh.Verify.{VerifyCmd, authorized_keys_command}
use openpubkey.Opkssh.Verify.Authorized.{IsAuthorized, authorized_keys_command_iff}
use openpubkey.PkToken.Cic.{get_cic_values}
use openpubkey.PkToken.ClientInstance.{parse_claims}
use openpubkey.PkToken.Token.{PkToken, empty_pk_token}
use openpubkey.Verifier.{new_verifier, verify_pk_token, verify_cic_signature, issuer}

abbrev provider : OidcProvider
provider = record {
  verify = λ client skip token. if eqb token (str "bad") then err (msg "bad") else ok (pos 5);
}

abbrev cert : SshCert (Unit {0})
cert = record {
  key = tt;
  signature_key = tt;
  signature = none;
  key_id = str "me";
  valid_principals = [];
  extensions = [];
}

abbrev env : SshEnv (Unit {0}) (Unit {0}) (Unit {0}) (Unit {0})
env = record {
  reader = record {
    jwx = jwx;
    crypto = crypto;
    issuer_of = λ payload. ok (str "iss");
    cosigner_claims = λ h. panic;
  };
  json = record { claims = λ b. ok none; protected = λ b. ok none; typ = λ b. ok (str "JWT") };
  email_of = λ payload. ok (str "me");
  parse_authorized_key = λ line. ok (some cert);
  marshal_authorized_key = λ key. str "ssh-key";
  zero_key = tt;
  new_public_key = λ key. ok tt;
  jwk_of = λ key. ok tt;
  jwk_equal = λ k l. true;
  sign_cert = λ signer c. ok c;
  marshal_cert = λ c. str "abc";
  verify_signature = λ key bytes sig. ok tt;
  new_provider = λ issuer. ok provider;
  now = record { sec = pos (9 + unix_to_internal); nsec = 0 };
  google_op = λ config. record {
    issuer = str "iss";
    verify_id_token = λ token cic. ok tt;
    verify_refreshed_id_token = none;
  };
}

abbrev config : Config
config = record { client_id = str "client"; issuer = str "iss" }

abbrev pk_token : PkToken
pk_token = record empty_pk_token {
  payload = some (str "{}");
  op = some (signature (str "JWT"));
  cic = some (signature (str "CIC"));
  op_token = some (str "JWT");
  cic_token = some (str "CIC");
  fresh_id_token = some (str "mine");
}

accepted : verify_ssh_pk_token env config pk_token ≡ ok tt
unfolding verify_ssh_pk_token verify_fresh new_verifier verify_pk_token verify_cic_signature issuer
    get_cic_values parse_claims lookup eqb
accepted = refl

no_fresh_run :
    verify_ssh_pk_token env config (record pk_token { fresh_id_token = none })
    ≡ err (msg "ID token is expired and no refresh token found")
unfolding verify_ssh_pk_token verify_fresh eqb
no_fresh_run = refl

verified_other : provider.verify (str "client") false (str "yours") ≡ ok (pos 5)
unfolding eqb
verified_other = refl

verify_ssh_pk_token-with_fresh_example :
    verify_ssh_pk_token env config (with_fresh (str "yours") pk_token) ≡ ok tt
verify_ssh_pk_token-with_fresh_example =
    verify_ssh_pk_token-with_fresh env config pk_token (str "yours") refl verified_other accepted

abbrev command : VerifyCmd
command = record { op_config = config; check_policy = λ user pkt. ok tt }

authorized_keys_command_iff_example :
    (authorized_keys_command env command (str "root") (str "t") (str "b64")
      ≡ ok (str "cert-authority ssh-key"))
    ↔ IsAuthorized env command (str "root") (str "t") (str "b64") (str "cert-authority ssh-key")
authorized_keys_command_iff_example =
    authorized_keys_command_iff env command (str "root") (str "t") (str "b64")
      (str "cert-authority ssh-key")

-- A certificate whose bytes are too few for the length of a signature stops the program.
short_run : verify_ca_sig env cert tt ≡ panic
unfolding verify_ca_sig
short_run = refl
