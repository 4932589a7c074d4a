-- ===== src/Providers/Github.antt =====
-- providers/github_actions.go: the ID Tokens of a GitHub workflow, with the commitment as audience.
mod Tests
use openpubkey.Base.{
  required, required-eq-ok, ok_inj, ℕ, zero, suc, ◌+◌, ◌-◌, ◌*◌, ◌/◌, ◌%◌, ◌^◌, ◌≤◌, ◌<◌, String,
  Error, msg, wrapped, joined, permission, Result, ok, err, panic, require, wrap_err, is_permission,
  bind-eq-ok, bind_ok, wrap_err-eq-ok, require-eq-ok, continue, continue-keeps, continue-eq-ok,
  ◌>>=◌, ◌>>◌, ◌≡◌, ◌≢◌, refl, sym, ◌∙◌, ap, List, [], ◌∷◌, ◌++◌, map, arith, Option, none, some,
  Bool, true, false, ◌||◌, ◌&&◌, not, ltb, leb, ◌==◌, if◌then◌else◌, length, length-append,
  get_elem?, All, Bool-cases, Option-cases, inl, inr, ◌⊎◌, ◌↔◌, ==_iff, ltb→lt,
}
use openpubkey.Base.Bytes.{Bytes, str, eqb}
use openpubkey.Base.Bytes.BigEndian.{slice}
use openpubkey.PkToken.ClientInstance.{Claims, claims_hash}
use openpubkey.Discover.{PublicKeyRecord, PublicKeyFinder, by_token, by_key_id}
use openpubkey.Client.Opk.{Tokens}
use openpubkey.Providers.Expiration.{oidc_policy}
use openpubkey.Providers.Verifier.{
  Env, DefaultProviderVerifier, aud_claim, new_provider_verifier, verify_id_token,
}
use openpubkey.Providers.GqToken.{GqEnv, create_gq_token}
use openpubkey.Providers.Gitlab.{get_env_var}

pub record GithubOp : Type 0 where
  pub issuer : Bytes
  pub raw_token_request_url : Bytes
  pub token_request_auth_token : Bytes
  pub public_key_finder : PublicKeyFinder
  pub request_tokens_override : Option (Bytes → Result Tokens)

-- An answer of the server: its status, and what reading its body gives
pub record Response : Type 0 where
  pub status_code : ℕ
  pub body : Result Bytes

-- What is called of other packages. `with_query` is `query.Set` of a parsed URL, printed again;
-- `get` is a GET request with the header Authorization; `value_of` is `json.Unmarshal` into the
-- struct with the field `Value`, a raw message, which is empty where the JSON has none.
pub record Service (U : Type 0) : Type 0 where
  pub parse_url : Bytes → Result U
  pub with_query : U → Bytes → Bytes → Bytes
  pub get : Bytes → Bytes → Result Response
  pub value_of : Bytes → Result Bytes

abbrev pub github_issuer : Bytes
github_issuer = str "https://token.actions.githubusercontent.com"

-- NewGithubOp
unfoldable pub new_github_op : PublicKeyFinder → Bytes → Bytes → GithubOp
new_github_op default_pubkey_finder token_url token = record {
  issuer = github_issuer;
  raw_token_request_url = token_url;
  token_request_auth_token = token;
  public_key_finder = default_pubkey_finder;
  request_tokens_override = none;
}

-- NewGithubOpFromEnvironment
unfoldable pub new_github_op_from_environment :
    (Bytes → Option Bytes) → PublicKeyFinder → Result GithubOp
new_github_op_from_environment lookup_env default_pubkey_finder = do
  token_url ← get_env_var lookup_env (str "ACTIONS_ID_TOKEN_REQUEST_URL")
  token ← get_env_var lookup_env (str "ACTIONS_ID_TOKEN_REQUEST_TOKEN")
  ok (new_github_op default_pubkey_finder token_url token)

-- `jwt.Value[1 : len(jwt.Value)-1]`, which panics on fewer than two bytes
unfoldable pub without_quotes : Bytes → Result Bytes
without_quotes [] = panic
without_quotes (quote ∷ rest) =
    if ltb 0 (length rest)
    then (slice (length rest - 1) rest >>= λ (token, last). ok token)
    else panic

-- buildTokenURL
unfoldable pub build_token_url : {U : Type 0} → Service U → Bytes → Bytes → Result Bytes
build_token_url service raw_token_url audience = do
  parsed_url ← wrap_err "failed to parse URL: %w" (service.parse_url raw_token_url)
  require (not (eqb audience [])) "audience is required"
  ok (service.with_query parsed_url (str "audience") audience)

-- the request to the server
unfoldable pub ask : {U : Type 0} → Service U → GithubOp → Bytes → Result Bytes
ask service g cic_hash = do
  token_url ← build_token_url service g.raw_token_request_url cic_hash
  response ← service.get token_url (str "Bearer " ++ g.token_request_auth_token)
  require (response.status_code == 200) "received non-200 from jwt api: %s"
  raw_body ← response.body
  value ← service.value_of raw_body
  without_quotes value

-- (g *GithubOp) requestTokens
unfoldable pub github_id_token :
    {U : Type 0} → Service U → GithubOp → Option (Bytes → Result Tokens) → Bytes → Result Bytes
github_id_token service g (some request) cic_hash =
    wrap_err "error requesting ID Token: %w" (request cic_hash) >>= λ tokens. ok tokens.id_token
github_id_token service g none cic_hash = ask service g cic_hash

-- the verifier of a GitHub provider, with the finder of the package discover
unfoldable pub github_verifier : PublicKeyFinder → GithubOp → DefaultProviderVerifier
github_verifier default_pubkey_finder g =
    new_provider_verifier default_pubkey_finder g.issuer (record {
      client_id = [];
      commit_type = aud_claim;
      skip_client_id_check = true;
      discover_public_key = none;
      expiration_policy = some oidc_policy;
      gq_only = true;
    })

module _ {H Key Signer : Type 0} (gq : GqEnv H Key) (env : Env Key Signer) where
  -- (g *GithubOp) PublicKeyByToken
  unfoldable pub github_key_by_token : GithubOp → Bytes → Result PublicKeyRecord
  github_key_by_token g token = by_token env.jwx g.public_key_finder g.issuer token

  -- (g *GithubOp) PublicKeyByKeyId
  unfoldable pub github_key_by_key_id : GithubOp → Bytes → Result PublicKeyRecord
  github_key_by_key_id g key_id = by_key_id g.public_key_finder g.issuer key_id

  -- (g *GithubOp) RequestTokens, with the numbers that the random source has left. The tokens that
  -- the code gives beside an error are left out.
  unfoldable pub github_request_tokens :
      {U : Type 0} → Service U → GithubOp → Claims Key → List ℕ → Result (Tokens × List ℕ)
  github_request_tokens service g cic reader = do
    commitment ←
        wrap_err "error calculating client instance claim commitment: %w"
          (claims_hash env.jwx env.crypto cic)
    id_token ←
        wrap_err "error requesting ID Token: %w"
          (github_id_token service g g.request_tokens_override commitment)
    (gq_token, rest) ← create_gq_token gq (github_key_by_token g) id_token reader
    ok (record { id_token = gq_token; refresh_token = none; access_token = none }, rest)

-- (g *GithubOp) VerifyIDToken
unfoldable pub github_verify_id_token :
    {Key Signer : Type 0}
    → Env Key Signer
    → PublicKeyFinder
    → GithubOp
    → Bytes
    → Claims Key
    → Result (Unit {0})
github_verify_id_token env default_pubkey_finder g idt cic =
    verify_id_token env (github_verifier default_pubkey_finder g) idt cic
