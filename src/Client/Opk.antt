-- ===== src/Client/Opk.antt =====
-- client/client.go: a client that authenticates to an OpenID Provider, keeps its PK Token, and
-- refreshes it.
pub mod Stored
pub mod Kept
pub mod Tests
use openpubkey.Base.{
  required, required-eq-ok, ok_inj, ℕ, zero, suc, ◌+◌, ◌-◌, ◌*◌, ◌/◌, ◌%◌, ◌^◌, ◌≤◌, ◌<◌, String,
  Error, msg, wrapped, joined, permission, Result, ok, err, panic, require, wrap_err, is_permission,
  bind-eq-ok, bind_ok, wrap_err-eq-ok, require-eq-ok, continue, continue-keeps, continue-eq-ok,
  ◌>>=◌, ◌>>◌, ◌≡◌, ◌≢◌, refl, sym, ◌∙◌, ap, List, [], ◌∷◌, ◌++◌, map, arith, Option, none, some,
  Bool, true, false, ◌||◌, ◌&&◌, not, ltb, leb, ◌==◌, if◌then◌else◌, length, length-append,
  get_elem?, All, Bool-cases, Option-cases, inl, inr, ◌⊎◌, ◌↔◌, ==_iff, ltb→lt,
}
use openpubkey.Base.Assoc.{insert}
use openpubkey.Base.Bytes.{Bytes, str}
use openpubkey.Client.Request.{CosignerProvider, World, request_token}
use openpubkey.Oidc.Claims.{Any, text}
use openpubkey.PkToken.ClientInstance.{Claims, new_claims, claims_sign}
use openpubkey.PkToken.Serial.{JwsJson, deep_copy}
use openpubkey.PkToken.Token.{PkToken, new_pk_token}
use openpubkey.Verifier.{ProviderVerifier, Verifier, Reader, new_verifier, verify_pk_token}

-- Tokens of oidc/tokens.go; a slice may be nil.
pub record Tokens : Type 0 where
  pub id_token : Bytes
  pub refresh_token : Option Bytes
  pub access_token : Option Bytes

-- What a client calls of its OpenID Provider: `RefreshTokens`, where it is a RefreshableOpenIdProvider;
-- and whether it is a BrowserOpenIdProvider, whose session can be hooked.
pub record OpenIdProvider (Key : Type 0) : Type 0 where
  pub request_tokens : Claims Key → Result Tokens
  pub refresh_tokens : Option (Bytes → Result Tokens)
  pub is_browser : Bool
  pub verifier : ProviderVerifier Key

-- OpkClient as `New` leaves it: with a signer and its algorithm.
pub record OpkClient (Key Signer : Type 0) : Type 0 where
  pub op : OpenIdProvider Key
  pub cos_p : Option CosignerProvider
  pub signer : Signer
  pub alg : Bytes
  pub pk_token : Option PkToken
  pub refresh_token : Option Bytes
  pub access_token : Option Bytes

-- What the options set.
pub record ClientSetup (Signer : Type 0) : Type 0 where
  pub cos_p : Option CosignerProvider
  pub signer : Option Signer
  pub alg : Option Bytes

-- The parts of the repository that a client calls, `jwk.PublicKeyOf` with `Set` of the algorithm, and
-- util.GenKeyPair.
pub record ClientEnv (Key Signer : Type 0) : Type 0 where
  pub reader : Reader Key Signer
  pub world : World Key Signer
  pub json : JwsJson
  pub public_key_of : Signer → Result Key
  pub set_alg : Bytes → Key → Result Key
  pub gen_key_pair : Bytes → Result Signer

-- WithSigner
unfoldable pub with_signer :
    {Signer : Type 0} → Signer → Option Bytes → ClientSetup Signer → ClientSetup Signer
with_signer signer alg o = record o { signer = some signer; alg = alg }

-- WithCosignerProvider
unfoldable pub with_cosigner_provider :
    {Signer : Type 0} → CosignerProvider → ClientSetup Signer → ClientSetup Signer
with_cosigner_provider cos_p o = record o { cos_p = some cos_p }

abbrev pub apply_setup : {A : Type 0} → List (A → A) → A → A
apply_setup [] a = a
apply_setup (opt ∷ opts) a = apply_setup opts (opt a)

-- WithExtraClaim
unfoldable pub with_extra_claim : Bytes → Bytes → List (Bytes × Any) → List (Bytes × Any)
with_extra_claim k v claims = insert k (text v) claims

-- `o.pkToken.DeepCopy()`, where a nil PK Token is dereferenced
abbrev copy_of : JwsJson → Option PkToken → Result PkToken
copy_of json none = panic
copy_of json (some p) = deep_copy json p

module _ {Key Signer : Type 0} (env : ClientEnv Key Signer) where
  -- the signer and the algorithm that `New` settles on
  choose_signer : Option Signer → Option Bytes → Result (Signer × Bytes)
  choose_signer (some signer) none =
      err (msg "signer specified but alg is nil, must specify alg of signer")
  choose_signer (some signer) (some alg) = ok (signer, alg)
  choose_signer none none =
      wrap_err "failed to create key pair for client: %w " (env.gen_key_pair (str "ES256"))
      >>= λ signer. ok (signer, str "ES256")
  choose_signer none (some alg) =
      wrap_err "failed to create key pair for client: %w " (env.gen_key_pair alg) >>= λ signer.
      ok (signer, alg)

  -- New
  unfoldable pub new_client :
      OpenIdProvider Key
      → List (ClientSetup Signer → ClientSetup Signer)
      → Result (OpkClient Key Signer)
  unfolding choose_signer
  new_client op opts = do
    let client = apply_setup opts (record { cos_p = none; signer = none; alg = none })
    (signer, alg) ← choose_signer client.signer client.alg
    ok (record {
      op = op;
      cos_p = client.cos_p;
      signer = signer;
      alg = alg;
      pk_token = none;
      refresh_token = none;
      access_token = none;
    })

  -- the client instance claims of `oidcAuth`
  unfoldable pub client_claims : OpkClient Key Signer → List (Bytes × Any) → Result (Claims Key)
  client_claims o extra_claims = do
    key ← env.public_key_of o.signer
    jwk_key ← env.set_alg o.alg key
    wrap_err "failed to instantiate client instance claims: %w"
        (new_claims env.reader.jwx env.reader.crypto jwk_key extra_claims)

  -- `oidcAuth` once it has the tokens: the PK Token is made and verified.
  unfoldable pub pk_token_of : OpkClient Key Signer → Claims Key → Bytes → Result PkToken
  pk_token_of o cic id_token = do
    cic_token ←
        wrap_err "error creating cic token: %w"
          (claims_sign env.reader.jwx env.reader.crypto cic o.signer o.alg id_token)
    pkt ← wrap_err "error creating PK Token: %w" (new_pk_token env.reader.jwx id_token cic_token)
    pkt_verifier ← new_verifier o.op.verifier []
    wrap_err "error verifying PK Token: %w" (verify_pk_token env.reader pkt_verifier pkt [])
    ok pkt

  -- (o *OpkClient) oidcAuth
  unfoldable pub oidc_auth :
      OpkClient Key Signer → List (Bytes × Any) → Result PkToken × OpkClient Key Signer
  unfolding client_claims
  oidc_auth o extra_claims =
      continue (client_claims o extra_claims, o)
        λ cic o1.
          continue
            (
              wrap_err "error requesting OIDC tokens from OpenID Provider: %w"
                  (o1.op.request_tokens cic),
              o1,
            )
            λ tokens o2. (
              pk_token_of o2 cic tokens.id_token,
              record o2 {
                refresh_token = tokens.refresh_token;
                access_token = tokens.access_token;
              },
            )

  -- `o.pkToken = pkt`, and the copy that is returned
  unfoldable pub keep : PkToken → OpkClient Key Signer → Result PkToken × OpkClient Key Signer
  keep pkt o = (deep_copy env.json pkt, record o { pk_token = some pkt })

  unfoldable pub auth_with :
      Option CosignerProvider
      → OpkClient Key Signer
      → List (Bytes × Any)
      → Result PkToken × OpkClient Key Signer
  auth_with none o extra_claims = continue (oidc_auth o extra_claims) keep
  auth_with (some c) o extra_claims =
      if o.op.is_browser
      then (continue (oidc_auth o extra_claims)
          λ pkt o1. continue ((request_token env.world c o1.signer pkt).0, o1) keep)
      else (err (msg "OP supplied does not have support for MFA Cosigner"), o)

  -- (o *OpkClient) Auth
  unfoldable pub auth :
      OpkClient Key Signer
      → List (List (Bytes × Any) → List (Bytes × Any))
      → Result PkToken × OpkClient Key Signer
  unfolding auth_with
  auth o opts = auth_with o.cos_p o (apply_setup opts [])

  unfoldable pub refreshed :
      (Bytes → Result Tokens)
      → Option Bytes
      → Option PkToken
      → OpkClient Key Signer
      → Result PkToken × OpkClient Key Signer
  refreshed refresh_tokens none pkt o = (err (msg "no refresh token set"), o)
  refreshed refresh_tokens (some t) none o =
      (err (msg "no PK Token set, run Auth() to create a PK Token first"), o)
  refreshed refresh_tokens (some t) (some pkt) o =
      continue (wrap_err "error requesting ID token: %w" (refresh_tokens t), o)
        λ tokens o1.
          keep (record pkt { fresh_id_token = some tokens.id_token })
            (record o1 { refresh_token = tokens.refresh_token; access_token = tokens.access_token })

  unfoldable pub refresh_with :
      Option (Bytes → Result Tokens) → OpkClient Key Signer → Result PkToken × OpkClient Key Signer
  refresh_with none o = (err (msg "OP (issuer=%s) does not support OIDC refresh requests"), o)
  refresh_with (some refresh_tokens) o = refreshed refresh_tokens o.refresh_token o.pk_token o

  -- (o *OpkClient) Refresh
  unfoldable pub refresh : OpkClient Key Signer → Result PkToken × OpkClient Key Signer
  unfolding refreshed refresh_with
  refresh o = refresh_with o.op.refresh_tokens o

  -- (o *OpkClient) SetPKToken
  unfoldable pub set_pk_token : Option PkToken → OpkClient Key Signer → OpkClient Key Signer
  set_pk_token pkt o = record o { pk_token = pkt }

  -- (o *OpkClient) GetPKToken
  unfoldable pub get_pk_token : OpkClient Key Signer → Result PkToken
  get_pk_token o = copy_of env.json o.pk_token
