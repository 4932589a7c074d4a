-- ===== src/Opkssh/Verify/Authorized.antt =====
-- Whom `AuthorizedKeysCommand` of opkssh/commands/verify.go lets in.
use openpubkey.Base.{
  required, required-eq-ok, ok_inj, ok, require, wrap_err, bind-eq-ok, wrap_err-eq-ok,
  require-eq-ok, ◌≡◌, ◌∙◌, ap, ◌∷◌, ◌++◌, some, true, ◌↔◌,
}
use openpubkey.Base.Bytes.{Bytes, str}
use openpubkey.Base.Assoc.{lookup}
use openpubkey.Opkssh.SshCert.{
  SshCert, SshEnv, new_from_authorized_key, get_pk_token, verify_ssh_pk_token, verify_ssh_pkt_cert,
}
use openpubkey.Opkssh.Verify.{VerifyCmd, authorized_keys_command}
use openpubkey.PkToken.Cic.{get_cic_values}
use openpubkey.PkToken.ClientInstance.{Claims}
use openpubkey.PkToken.Token.{PkToken, new_from_compact}

module _ {Key Signer SshKey SshSigner : Type 0} (env : SshEnv Key Signer SshKey SshSigner) where
  -- A certificate whose key is that of a PK Token in its extension, which verifies, and whose holder the
  -- policy lets in as the user.
  pub record IsAuthorized (v : VerifyCmd) (user typ cert_b64 line : Bytes) : Type 0 where
    pub cert : SshCert SshKey
    pub parsed : env.parse_authorized_key (typ ++ b' ' ∷ cert_b64) ≡ ok (some cert)
    pub extension : Bytes
    pub smuggled : lookup (str "openpubkey-pkt") cert.extensions ≡ some extension
    pub pkt : PkToken
    pub read : new_from_compact env.reader.jwx env.json extension ≡ ok pkt
    pub verified : verify_ssh_pk_token env v.op_config pkt ≡ ok tt
    pub cic : Claims Key
    pub claims : get_cic_values env.reader.jwx env.reader.crypto pkt ≡ ok cic
    pub cert_key : Key
    pub key_read : env.jwk_of cert.key ≡ ok cert_key
    pub bound : env.jwk_equal cert_key cic.public_key ≡ true
    pub allowed : v.check_policy user pkt ≡ ok tt
    pub answer : str "cert-authority " ++ env.marshal_authorized_key cert.signature_key ≡ line

  authorized_keys_command-IsAuthorized :
      (v : VerifyCmd) (user typ cert_b64 line : Bytes)
      → authorized_keys_command env v user typ cert_b64 ≡ ok line
      → IsAuthorized v user typ cert_b64 line
  unfolding authorized_keys_command verify_ssh_pkt_cert get_pk_token new_from_authorized_key
  authorized_keys_command-IsAuthorized v user typ cert_b64 line h =
      let (cert, certified, h1) = bind-eq-ok (new_from_authorized_key env typ cert_b64) _ h in
      let (found, parsed, h2) =
        bind-eq-ok (env.parse_authorized_key (typ ++ b' ' ∷ cert_b64)) _ certified in
      let (pkt, checked, h3) = bind-eq-ok (verify_ssh_pkt_cert env cert v.op_config) _ h1 in
      let (p, got, h4) = bind-eq-ok (wrap_err _ (get_pk_token env cert)) _ checked in
      let (extension, smuggled, h5) =
        bind-eq-ok (required _ (lookup (str "openpubkey-pkt") cert.extensions)) _
          (wrap_err-eq-ok _ _ got) in
      let (_, verified, h6) = bind-eq-ok (verify_ssh_pk_token env v.op_config p) _ h4 in
      let (cic, claims, h7) = bind-eq-ok (get_cic_values env.reader.jwx env.reader.crypto p) _ h6 in
      let (cert_key, key_read, h8) = bind-eq-ok (env.jwk_of cert.key) _ h7 in
      let (_, bound, h9) = bind-eq-ok (require (env.jwk_equal cert_key cic.public_key) _) _ h8 in
      let same : p ≡ pkt = ok_inj h9 in
      let (_, allowed, h10) = bind-eq-ok (v.check_policy user pkt) _ h3 in
      record {
        cert = cert;
        parsed = parsed ∙ ap ok (required-eq-ok _ found h2);
        extension = extension;
        smuggled = required-eq-ok _ _ smuggled;
        pkt = p;
        read = wrap_err-eq-ok _ _ h5;
        verified = verified;
        cic = cic;
        claims = claims;
        cert_key = cert_key;
        key_read = key_read;
        bound = require-eq-ok _ _ bound;
        allowed = ap (v.check_policy user) same ∙ allowed;
        answer = ok_inj h10;
      }

  IsAuthorized-authorized_keys_command :
      (v : VerifyCmd) (user typ cert_b64 line : Bytes)
      → IsAuthorized v user typ cert_b64 line
      → authorized_keys_command env v user typ cert_b64 ≡ ok line
  unfolding authorized_keys_command verify_ssh_pkt_cert get_pk_token new_from_authorized_key
  IsAuthorized-authorized_keys_command v user typ cert_b64 line a =
      rw (a.parsed, a.smuggled, a.read, a.verified, a.claims, a.key_read, a.bound, a.allowed)
        (ap ok a.answer)

  -- AuthorizedKeysCommand answers with a line exactly if the argument parses to a certificate; its
  -- extension holds a PK Token that verifyPKToken accepts for the configured issuer and client; the
  -- key in the client's claims is the key of the certificate; and the policy lets the PK Token in as
  -- the user. The line names the key that signed the certificate.
  pub authorized_keys_command_iff :
      (v : VerifyCmd) (user typ cert_b64 line : Bytes)
      → (authorized_keys_command env v user typ cert_b64 ≡ ok line)
        ↔ IsAuthorized v user typ cert_b64 line
  authorized_keys_command_iff v user typ cert_b64 line = (
    authorized_keys_command-IsAuthorized v user typ cert_b64 line,
    IsAuthorized-authorized_keys_command v user typ cert_b64 line,
  )
