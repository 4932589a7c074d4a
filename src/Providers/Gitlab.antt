-- ===== src/Providers/Gitlab.antt =====
-- providers/gitlab_ci.go: the ID Tokens of a GitLab job, with the commitment in their GQ signature.
pub mod Bound
mod Tests
use openpubkey.Base.{
  required, required-eq-ok, ok_inj, ℕ, zero, suc, ◌+◌, ◌-◌, ◌*◌, ◌/◌, ◌%◌, ◌^◌, ◌≤◌, ◌<◌, String,
  Error, msg, wrapped, joined, permission, Result, ok, err, panic, require, wrap_err, is_permission,
  bind-eq-ok, bind_ok, wrap_err-eq-ok, require-eq-ok, continue, continue-keeps, continue-eq-ok,
  ◌>>=◌, ◌>>◌, ◌≡◌, ◌≢◌, refl, sym, ◌∙◌, ap, List, [], ◌∷◌, ◌++◌, map, arith, Option, none, some,
  Bool, true, false, ◌||◌, ◌&&◌, not, ltb, leb, ◌==◌, if◌then◌else◌, length, length-append,
  get_elem?, All, Bool-cases, Option-cases, inl, inr, ◌⊎◌, ◌↔◌, ==_iff, ltb→lt,
}
use openpubkey.Base.Bytes.{Bytes, str}
use openpubkey.PkToken.ClientInstance.{Claims, claims_hash}
use openpubkey.Discover.{PublicKeyRecord, PublicKeyFinder, by_token, by_key_id}
use openpubkey.Client.Opk.{Tokens}
use openpubkey.Providers.Expiration.{oidc_policy}
use openpubkey.Providers.Verifier.{
  Env, DefaultProviderVerifier, gq_bound, new_provider_verifier, verify_id_token,
}
use openpubkey.Providers.GqToken.{GqEnv, create_gq_bound_token}

pub record GitlabOp : Type 0 where
  pub issuer : Bytes
  pub public_key_finder : PublicKeyFinder
  pub token_env_var : Bytes
  pub request_tokens_override : Option (Bytes → Result Tokens)

-- getEnvVar of providers/op.go, with `os.LookupEnv` as a parameter
unfoldable pub get_env_var : (Bytes → Option Bytes) → Bytes → Result Bytes
get_env_var lookup_env name = required "%q environment variable not set" (lookup_env name)

abbrev pub gitlab_issuer : Bytes
gitlab_issuer = str "https://gitlab.com"

-- NewGitlabOp
unfoldable pub new_gitlab_op : PublicKeyFinder → Bytes → Bytes → GitlabOp
new_gitlab_op default_pubkey_finder issuer token_env_var = record {
  issuer = issuer;
  public_key_finder = default_pubkey_finder;
  token_env_var = token_env_var;
  request_tokens_override = none;
}

-- NewGitlabOpFromEnvironment
unfoldable pub new_gitlab_op_from_environment : PublicKeyFinder → Bytes → GitlabOp
new_gitlab_op_from_environment default_pubkey_finder token_env_var =
    new_gitlab_op default_pubkey_finder gitlab_issuer token_env_var

-- NewGitlabOpFromEnvironmentDefault
unfoldable pub new_gitlab_op_from_environment_default : PublicKeyFinder → GitlabOp
new_gitlab_op_from_environment_default default_pubkey_finder =
    new_gitlab_op_from_environment default_pubkey_finder (str "OPENPUBKEY_JWT")

-- where the ID Token comes from
unfoldable pub gitlab_id_token :
    (Bytes → Option Bytes) → Bytes → Option (Bytes → Result Tokens) → Result Bytes
gitlab_id_token lookup_env token_env_var (some request) =
    wrap_err "error requesting ID Token: %w" (request []) >>= λ tokens. ok tokens.id_token
gitlab_id_token lookup_env token_env_var none =
    wrap_err "error requesting ID Token: %w" (get_env_var lookup_env token_env_var)

module _ {H Key Signer : Type 0} (gq : GqEnv H Key) (env : Env Key Signer)
    (lookup_env : Bytes → Option Bytes) where
  -- (g *GitlabOp) PublicKeyByToken
  unfoldable pub gitlab_key_by_token : GitlabOp → Bytes → Result PublicKeyRecord
  gitlab_key_by_token g token = by_token env.jwx g.public_key_finder g.issuer token

  -- (g *GitlabOp) PublicKeyByKeyId
  unfoldable pub gitlab_key_by_key_id : GitlabOp → Bytes → Result PublicKeyRecord
  gitlab_key_by_key_id g key_id = by_key_id g.public_key_finder g.issuer key_id

  -- (g *GitlabOp) RequestTokens, with the numbers that the random source has left
  unfoldable pub gitlab_request_tokens : GitlabOp → Claims Key → List ℕ → Result (Tokens × List ℕ)
  gitlab_request_tokens g cic reader = do
    cic_hash ←
        wrap_err "error calculating client instance claim commitment: %w"
          (claims_hash env.jwx env.crypto cic)
    id_token ← gitlab_id_token lookup_env g.token_env_var g.request_tokens_override
    (gq_token, rest) ← create_gq_bound_token gq (gitlab_key_by_token g) id_token cic_hash reader
    ok (record { id_token = gq_token; refresh_token = none; access_token = none }, rest)

-- the verifier of a GitLab provider, with the finder of the package discover
unfoldable pub gitlab_verifier : PublicKeyFinder → GitlabOp → DefaultProviderVerifier
gitlab_verifier default_pubkey_finder g =
    new_provider_verifier default_pubkey_finder g.issuer (record {
      client_id = [];
      commit_type = gq_bound;
      skip_client_id_check = true;
      discover_public_key = none;
      expiration_policy = some oidc_policy;
      gq_only = true;
    })

-- (g *GitlabOp) VerifyIDToken
unfoldable pub gitlab_verify_id_token :
    {Key Signer : Type 0}
    → Env Key Signer
    → PublicKeyFinder
    → GitlabOp
    → Bytes
    → Claims Key
    → Result (Unit {0})
gitlab_verify_id_token env default_pubkey_finder g idt cic =
    verify_id_token env (gitlab_verifier default_pubkey_finder g) idt cic
