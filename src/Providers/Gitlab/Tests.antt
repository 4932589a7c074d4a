-- ===== src/Providers/Gitlab/Tests.antt =====
-- Runs and instances of a GitLab provider.
use openpubkey.Base.{msg, wrapped, err, ◌≡◌, refl, [], none}
use openpubkey.Base.Bytes.{str}
use openpubkey.PkToken.ClientInstance.{Claims}
use openpubkey.Providers.Verifier.Tests.{no_keys}
use openpubkey.Providers.Gitlab.{
  GitlabOp, get_env_var, new_gitlab_op, new_gitlab_op_from_environment,
  new_gitlab_op_from_environment_default, gitlab_id_token,
}

abbrev gitlab : GitlabOp
gitlab = record {
  issuer = str "https://gitlab.com";
  public_key_finder = no_keys;
  token_env_var = str "OPENPUBKEY_JWT";
  request_tokens_override = none;
}

default_run : new_gitlab_op_from_environment_default no_keys ≡ gitlab
unfolding new_gitlab_op_from_environment_default new_gitlab_op_from_environment new_gitlab_op
default_run = refl

abbrev cic : Claims (Unit {0})
cic = record { public_key = tt; protected = [] }

-- A job without the variable has no tokens.
unset_run :
    gitlab_id_token (λ name. none) (str "OPENPUBKEY_JWT") none
    ≡ err (wrapped "error requesting ID Token: %w" (msg "%q environment variable not set"))
unfolding gitlab_id_token get_env_var
unset_run = refl
