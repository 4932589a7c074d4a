-- ===== src/Providers/Standard.antt =====
-- providers/standard_provider.go: a provider with a browser session (Google, Azure), less the session.
pub mod Refreshed
mod Tests
use openpubkey.Base.{
  required, required-eq-ok, ok_inj, ℕ, zero, suc, ◌+◌, ◌-◌, ◌*◌, ◌/◌, ◌%◌, ◌^◌, ◌≤◌, ◌<◌, String,
  Error, msg, wrapped, joined, permission, Result, ok, err, panic, require, wrap_err, is_permission,
  bind-eq-ok, bind_ok, wrap_err-eq-ok, require-eq-ok, continue, continue-keeps, continue-eq-ok,
  ◌>>=◌, ◌>>◌, ◌≡◌, ◌≢◌, refl, sym, ◌∙◌, ap, List, [], ◌∷◌, ◌++◌, map, arith, Option, none, some,
  Bool, true, false, ◌||◌, ◌&&◌, not, ltb, leb, ◌==◌, if◌then◌else◌, length, length-append,
  get_elem?, All, Bool-cases, Option-cases, inl, inr, ◌⊎◌, ◌↔◌, ==_iff, ltb→lt,
}
use openpubkey.Base.Bytes.{Bytes, str, eqb}
use openpubkey.Oidc.Jwt.{same_identity, require_older}
use openpubkey.PkToken.ClientInstance.{Claims, claims_hash}
use openpubkey.Discover.{PublicKeyRecord, PublicKeyFinder, by_token, by_key_id}
use openpubkey.Client.Opk.{Tokens, OpenIdProvider}
use openpubkey.Providers.Expiration.{max_age_24hours}
use openpubkey.Providers.Verifier.{Env, nonce_claim, new_provider_verifier, verify_id_token}
use openpubkey.Providers.GqToken.{GqEnv, create_gq_token}

-- StandardOp, less what only the browser session reads. `requestTokensOverrideFunc` may be nil.
pub record StandardOp : Type 0 where
  pub client_id : Bytes
  pub client_secret : Bytes
  pub scopes : List Bytes
  pub redirect_uris : List Bytes
  pub gq_sign : Bool
  pub issuer : Bytes
  pub public_key_finder : PublicKeyFinder
  pub request_tokens_override : Option (Bytes → Result Tokens)

-- The tokens of the package oidc, which are strings.
pub record RpTokens : Type 0 where
  pub id_token : Bytes
  pub refresh_token : Bytes
  pub access_token : Bytes

-- The package rp, at the issuer, the client, its secret and its scopes: a relying party for the
-- refresh of tokens, one for the verification of a token, and what they are asked for.
-- `browser_login` is the login in a browser, with the redirect URIs and the nonce.
pub record RelyingParty (P : Type 0) : Type 0 where
  pub browser_login : StandardOp → Bytes → Result RpTokens
  pub cookie_handler : Result (Unit {0})
  pub refresher : Bytes → Bytes → Bytes → List Bytes → Result P
  pub checker : Bytes → Bytes → Bytes → List Bytes → Result P
  pub refresh_tokens : P → Bytes → Result RpTokens
  pub verify_id_token : P → Bytes → Result (Unit {0})

-- the struct of oidc/tokens.go
abbrev pub simple_tokens : RpTokens → Tokens
simple_tokens t = record {
  id_token = t.id_token;
  refresh_token = some t.refresh_token;
  access_token = some t.access_token;
}

-- `retTokens`, where the provider does not rotate its refresh tokens
unfoldable pub keep_refresh_token : Bytes → RpTokens → RpTokens
keep_refresh_token refresh_token t =
    if eqb t.refresh_token [] then record t { refresh_token = refresh_token } else t

module _ {H Key Signer P : Type 0} (gq : GqEnv H Key) (env : Env Key Signer) (rp : RelyingParty P)
    (default_pubkey_finder : PublicKeyFinder) where
  overridden : Option (Bytes → Result Tokens) → StandardOp → Bytes → Result Tokens
  overridden (some request) s cic_hash = request cic_hash
  overridden none s cic_hash = rp.browser_login s cic_hash >>= λ t. ok (simple_tokens t)

  -- (s *StandardOp) PublicKeyByToken
  unfoldable pub public_key_by_token : StandardOp → Bytes → Result PublicKeyRecord
  public_key_by_token s token = by_token env.jwx s.public_key_finder s.issuer token

  -- (s *StandardOp) PublicKeyByKeyId
  unfoldable pub public_key_by_key_id : StandardOp → Bytes → Result PublicKeyRecord
  public_key_by_key_id s key_id = by_key_id s.public_key_finder s.issuer key_id

  -- (s *StandardOp) RequestTokens, with the numbers that the random source has left
  unfoldable pub request_tokens : StandardOp → Claims Key → List ℕ → Result (Tokens × List ℕ)
  unfolding overridden
  request_tokens s cic reader = do
    cic_hash ←
        wrap_err "error calculating client instance claim commitment: %w"
          (claims_hash env.jwx env.crypto cic)
    tokens ← overridden s.request_tokens_override s cic_hash
    (if s.gq_sign
        then (create_gq_token gq (public_key_by_token s) tokens.id_token reader
            >>= λ (gq_token, rest). ok (record tokens { id_token = gq_token }, rest))
        else ok (tokens, reader))

  -- (s *StandardOp) RefreshTokens
  unfoldable pub refresh_tokens : StandardOp → Bytes → Result Tokens
  refresh_tokens s refresh_token = do
    rp.cookie_handler
    relying_party ←
        wrap_err "failed to create RP to verify token: %w"
          (rp.refresher s.issuer s.client_id s.client_secret s.scopes)
    ret_tokens ← rp.refresh_tokens relying_party refresh_token
    ok (simple_tokens (keep_refresh_token refresh_token ret_tokens))

  -- (s *StandardOp) VerifyIDToken
  unfoldable pub standard_verify_id_token : StandardOp → Bytes → Claims Key → Result (Unit {0})
  standard_verify_id_token s idt cic =
      verify_id_token env
        (new_provider_verifier default_pubkey_finder s.issuer (record {
          client_id = s.client_id;
          commit_type = nonce_claim;
          skip_client_id_check = false;
          discover_public_key = some s.public_key_finder;
          expiration_policy = some max_age_24hours;
          gq_only = false;
        }))
        idt cic

  -- (s *StandardOp) VerifyRefreshedIDToken
  unfoldable pub verify_refreshed_id_token : StandardOp → Bytes → Bytes → Result (Unit {0})
  verify_refreshed_id_token s orig_idt re_idt = do
    wrap_err "refreshed ID Token is for different subject than original ID Token: %w"
        (same_identity env.json orig_idt re_idt)
    wrap_err "refreshed ID Token should not be issued before original ID Token: %w"
        (require_older env.json orig_idt re_idt)
    relying_party ←
        wrap_err "failed to create RP to verify token: %w"
          (rp.checker s.issuer s.client_id s.client_secret s.scopes)
    rp.verify_id_token relying_party re_idt

  -- A StandardOp as the provider of a client, at the numbers of the random source
  unfoldable pub standard_provider : StandardOp → List ℕ → OpenIdProvider Key
  standard_provider s reader = record {
    request_tokens = λ cic. request_tokens s cic reader >>= λ (tokens, rest). ok tokens;
    refresh_tokens = some (refresh_tokens s);
    is_browser = true;
    verifier = record {
      issuer = s.issuer;
      verify_id_token = standard_verify_id_token s;
      verify_refreshed_id_token = some (verify_refreshed_id_token s);
    };
  }
