-- ===== src/Opkssh/Verify.antt =====
-- opkssh/commands/verify.go: the command that sshd runs for a user who wants to log in.
pub mod Authorized
mod Tests
use openpubkey.Base.{
  required, required-eq-ok, ok_inj, ℕ, zero, suc, ◌+◌, ◌-◌, ◌*◌, ◌/◌, ◌%◌, ◌^◌, ◌≤◌, ◌<◌, String,
  Error, msg, wrapped, joined, permission, Result, ok, err, panic, require, wrap_err, is_permission,
  bind-eq-ok, bind_ok, wrap_err-eq-ok, require-eq-ok, continue, continue-keeps, continue-eq-ok,
  ◌>>=◌, ◌>>◌, ◌≡◌, ◌≢◌, refl, sym, ◌∙◌, ap, List, [], ◌∷◌, ◌++◌, map, arith, Option, none, some,
  Bool, true, false, ◌||◌, ◌&&◌, not, ltb, leb, ◌==◌, if◌then◌else◌, length, length-append,
  get_elem?, All, Bool-cases, Option-cases, inl, inr, ◌⊎◌, ◌↔◌, ==_iff, ltb→lt,
}
use openpubkey.Base.Bytes.{Bytes, str, content}
use openpubkey.Opkssh.SshCert.{
  SshCert, SshEnv, Config, new_from_authorized_key, verify_ssh_pkt_cert,
}
use openpubkey.PkToken.Token.{PkToken}
use openpubkey.Policy.Enforcer.{check_policy}
use openpubkey.Policy.Entries.{Policy}

-- PolicyEnforcerFunc
abbrev pub PolicyEnforcerFunc : Type 0
PolicyEnforcerFunc = Bytes → PkToken → Result (Unit {0})

pub record VerifyCmd : Type 0 where
  pub op_config : Config
  pub check_policy : PolicyEnforcerFunc

-- OpkPolicyEnforcerFunc, where `load` is `Load` of the loader of the user
unfoldable pub opk_policy_enforcer_func :
    (Bytes → Result Bytes) → (Bytes → Result (Policy × Bytes)) → Bytes → PolicyEnforcerFunc
opk_policy_enforcer_func unmarshal_email load username principal_desired pkt =
    check_policy unmarshal_email (load username) principal_desired (content pkt.payload)

module _ {Key Signer SshKey SshSigner : Type 0} (env : SshEnv Key Signer SshKey SshSigner) where
  -- (v *VerifyCmd) AuthorizedKeysCommand
  unfoldable pub authorized_keys_command : VerifyCmd → Bytes → Bytes → Bytes → Result Bytes
  authorized_keys_command v user_arg typ_arg cert_b64_arg = do
    cert ← new_from_authorized_key env typ_arg cert_b64_arg
    pkt ← verify_ssh_pkt_cert env cert v.op_config
    v.check_policy user_arg pkt
    ok (str "cert-authority " ++ env.marshal_authorized_key cert.signature_key)
