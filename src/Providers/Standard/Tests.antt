-- ===== src/Providers/Standard/Tests.antt =====
-- Runs and instances of a provider with a browser session.
use openpubkey.Base.{ok, ◌≡◌, refl, [], ◌∷◌, none, some, false}
use openpubkey.Base.Bytes.{str, eqb}
use openpubkey.Client.Opk.{OpkClient, refresh}
use openpubkey.Client.Opk.Kept.{IsGiven}
use openpubkey.Client.Opk.Tests.{env, client}
use openpubkey.Providers.GqToken.Tests.{gq_env}
use openpubkey.Providers.Verifier.Tests.{env_of, no_keys}
use openpubkey.Providers.Standard.{
  StandardOp, RelyingParty, RpTokens, keep_refresh_token, refresh_tokens, simple_tokens,
  standard_provider,
}
use openpubkey.Providers.Standard.Refreshed.{refresh-standard_provider}

abbrev google : StandardOp
google = record {
  client_id = str "client";
  client_secret = [];
  scopes = str "openid" ∷ [];
  redirect_uris = [];
  gq_sign = false;
  issuer = str "https://accounts.google.com";
  public_key_finder = no_keys;
  request_tokens_override = none;
}

abbrev answer : RpTokens
answer = record { id_token = str "h.p.s"; refresh_token = []; access_token = str "a" }

-- a provider that does not rotate its refresh tokens
abbrev party : RelyingParty (Unit {0})
party = record {
  browser_login = λ op nonce. ok answer;
  cookie_handler = ok tt;
  refresher = λ issuer id secret scopes. ok tt;
  checker = λ issuer id secret scopes. ok tt;
  refresh_tokens = λ p token. ok answer;
  verify_id_token = λ p token. ok tt;
}

refresh_run :
    refresh_tokens (gq_env (str "RS256")) (env_of (str "RS256")) party no_keys google (str "r")
    ≡ ok (simple_tokens (record answer { refresh_token = str "r" }))
unfolding refresh_tokens keep_refresh_token eqb
refresh_run = refl

abbrev standard_client : OpkClient (Unit {0}) (Unit {0})
standard_client = record client {
  op = standard_provider (gq_env (str "RS256")) (env_of (str "RS256")) party no_keys google [];
  refresh_token = some (str "r");
}

refresh-standard_provider_example : IsGiven (refresh env standard_client).1.refresh_token
refresh-standard_provider_example =
    refresh-standard_provider (gq_env (str "RS256")) (env_of (str "RS256")) party no_keys env google
      [] standard_client refl (str "r", refl, λ e. cc e)
