-- ===== src/Providers/Github/Tests.antt =====
-- Runs of a GitHub provider.
use openpubkey.Base.{ℕ, msg, ok, err, panic, ◌≡◌, refl, [], ◌∷◌, ◌++◌, none, some}
use openpubkey.Base.Bytes.{Bytes, str, eqb}
use openpubkey.Base.Bytes.BigEndian.{slice}
use openpubkey.Providers.Verifier.Tests.{no_keys}
use openpubkey.Providers.Gitlab.{get_env_var}
use openpubkey.Providers.Github.{
  GithubOp, Service, without_quotes, build_token_url, ask, new_github_op,
  new_github_op_from_environment,
}

-- The server answers with this body, and the JSON has this value.
abbrev service : ℕ → Bytes → Service Bytes
service status value = record {
  parse_url = λ url. ok url;
  with_query = λ url k v. url ++ str "?" ++ k ++ str "=" ++ v;
  get = λ url auth. ok (record { status_code = status; body = ok url });
  value_of = λ body. ok value;
}

abbrev github : GithubOp
github = record {
  issuer = str "https://token.actions.githubusercontent.com";
  raw_token_request_url = str "u";
  token_request_auth_token = str "t";
  public_key_finder = no_keys;
  request_tokens_override = none;
}

environment_run :
    new_github_op_from_environment (λ name. some (str "t")) no_keys
    ≡ ok (record github { raw_token_request_url = str "t" })
unfolding new_github_op_from_environment new_github_op get_env_var
environment_run = refl

url_run : build_token_url (service 200 []) (str "u") (str "c") ≡ ok (str "u?audience=c")
unfolding build_token_url eqb
url_run = refl

no_audience_run : build_token_url (service 200 []) (str "u") [] ≡ err (msg "audience is required")
unfolding build_token_url eqb
no_audience_run = refl

token_run : ask (service 200 (b'"' ∷ str "h.p.s" ++ b'"' ∷ [])) github (str "c") ≡ ok (str "h.p.s")
unfolding ask build_token_url eqb without_quotes slice
token_run = refl

refused_run : ask (service 403 []) github (str "c") ≡ err (msg "received non-200 from jwt api: %s")
unfolding ask build_token_url eqb
refused_run = refl

-- An answer without a value panics.
empty_run : ask (service 200 []) github (str "c") ≡ panic
unfolding ask build_token_url eqb without_quotes
empty_run = refl
