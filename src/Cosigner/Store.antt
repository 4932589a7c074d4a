-- ===== src/Cosigner/Store.antt =====
-- cosigner/authstate.go and the store of cosigner/mocks/authstatestore.go: the sessions of a
-- cosigner and their codes.
pub mod Valid
pub mod Steps
pub mod Once
pub mod Held
mod Tests
use openpubkey.Base.{
  ok_inj, ℕ, zero, suc, ◌+◌, ◌-◌, ◌*◌, ◌/◌, ◌%◌, ◌^◌, ◌≤◌, ◌<◌, String, Error, msg, wrapped, joined,
  permission, Result, ok, err, panic, require, wrap_err, is_permission, bind-eq-ok, bind_ok,
  wrap_err-eq-ok, require-eq-ok, continue, continue-keeps, continue-eq-ok, ◌>>=◌, ◌>>◌, ◌≡◌, ◌≢◌,
  refl, sym, ◌∙◌, ap, List, [], ◌∷◌, ◌++◌, map, arith, Option, none, some, Bool, true, false, ◌||◌,
  ◌&&◌, not, ltb, leb, ◌==◌, if◌then◌else◌, length, length-append, get_elem?, All, Bool-cases,
  Option-cases, inl, inr, ◌⊎◌, ◌↔◌, ==_iff, ltb→lt,
}
use openpubkey.Base.Bytes.{Bytes, str, eqb, content, split}
use openpubkey.Base.Assoc.{lookup, insert}
use openpubkey.Oidc.Claims.{Any, text, items, algorithm, other, audience_of}
use openpubkey.PkToken.Token.{PkToken}
use openpubkey.PkToken.ClientInstance.{encode_hex}
use openpubkey.Cosigner.AuthIdIssuer.{AuthIdIssuer, create_auth_id}

pub record AuthState : Type 0 where
  pub pkt : PkToken
  pub issuer : Bytes
  pub aud : Bytes
  pub sub : Bytes
  pub username : Bytes
  pub display_name : Bytes
  pub redirect_uri : Bytes
  pub nonce : Bytes
  pub authcode_issued : Bool
  pub authcode_redeemed : Bool

-- the claims that are read of a payload
pub record AuthClaims : Type 0 where
  pub issuer : Bytes
  pub aud : Any
  pub sub : Bytes
  pub email : Bytes

-- the type switch on the audience
auth_audience : Any → Result Bytes
auth_audience (text t) = ok t
auth_audience (items l) = audience_of (items l)
auth_audience (algorithm a) = err (msg "failed to deserialize aud (audience) claim in ID Token: %T")
auth_audience (other json) = err (msg "failed to deserialize aud (audience) claim in ID Token: %T")

abbrev first_part : List Bytes → Bytes
first_part [] = []
first_part (part ∷ parts) = part

-- NewAuthState, and the same lines of `CreateNewAuthSession`; `json.Unmarshal` is a parameter
unfoldable pub new_auth_state :
    (Bytes → Result AuthClaims) → PkToken → Bytes → Bytes → Result AuthState
unfolding auth_audience
new_auth_state unmarshal p ruri nonce = do
  claims ← wrap_err "failed to unmarshal PK Token: %w" (unmarshal (content p.payload))
  audience ← auth_audience claims.aud
  ok (record {
    pkt = p;
    issuer = claims.issuer;
    aud = audience;
    sub = claims.sub;
    username = claims.email;
    display_name = first_part (split b'@' claims.email);
    redirect_uri = ruri;
    nonce = nonce;
    authcode_issued = false;
    authcode_redeemed = false;
  })

pub record UserKey : Type 0 where
  pub issuer : Bytes
  pub aud : Bytes
  pub sub : Bytes

-- (as AuthState) UserKey
unfoldable pub user_key : AuthState → UserKey
user_key a = record { issuer = a.issuer; aud = a.aud; sub = a.sub }

-- The two maps, the issuer of the identifiers, and whether the write lock of the first map has been
-- taken and will not be released. The locks that an operation takes and releases make it one step.
pub record Store : Type 0 where
  pub auth_id_issuer : AuthIdIssuer
  pub auth_state_map : List (Bytes × AuthState)
  pub auth_code_map : List (Bytes × Bytes)
  pub held : Bool

-- An operation that waits for a lock that is held does not return.
pub data Outcome (A : Type 0) : Type 0 where
  blocks : Outcome A
  returns : Result A → Outcome A

-- NewAuthStateInMemoryStore
unfoldable pub new_store : Bytes → Store
new_store hmac_key = record {
  auth_id_issuer = record { auth_id_iter = 0; hmac_key = hmac_key };
  auth_state_map = [];
  auth_code_map = [];
  held = false;
}

pub unless_held : {A : Type 0} → Store → Outcome A × Store → Outcome A × Store
unless_held s r = if s.held then (blocks, s) else r

-- (s *AuthStateInMemoryStore) LookupAuthState
unfoldable pub lookup_auth_state : Bytes → Store → Outcome (Option AuthState) × Store
unfolding unless_held
lookup_auth_state auth_id s = unless_held s (returns (ok (lookup auth_id s.auth_state_map)), s)

pub update_found : Option AuthState → Bytes → AuthState → Store → Outcome (Unit {0}) × Store
update_found none auth_id auth_state s = (
  returns (err (msg "failed to upload auth session because authID specified matches no session")),
  s,
)
update_found (some old) auth_id auth_state s =
    (returns (ok tt), record s { auth_state_map = insert auth_id auth_state s.auth_state_map })

-- (s *AuthStateInMemoryStore) UpdateAuthState
unfoldable pub update_auth_state : Bytes → AuthState → Store → Outcome (Unit {0}) × Store
unfolding update_found unless_held
update_auth_state auth_id auth_state s =
    unless_held s (update_found (lookup auth_id s.auth_state_map) auth_id auth_state s)

-- The lock is not released on the way out with an error.
pub add_session : Option AuthState → Bytes → AuthState → Store → Outcome Bytes × Store
add_session (some used) auth_id auth_state s =
    (returns (err (msg "specified authID is already in use")), record s { held = true })
add_session none auth_id auth_state s =
    (returns (ok auth_id), record s { auth_state_map = insert auth_id auth_state s.auth_state_map })

-- `CreateNewAuthSession` once the state has been made
pub new_session : (Bytes → Bytes → Bytes) → ℕ → Result AuthState → Store → Outcome Bytes × Store
new_session hmac now (err e) s = (returns (err e), s)
new_session hmac now panic s = (returns panic, s)
new_session hmac now (ok auth_state) s =
    let (auth_id, i) = create_auth_id hmac now s.auth_id_issuer in
    let s1 = record s { auth_id_issuer = i } in
    unless_held s1 (add_session (lookup auth_id s1.auth_state_map) auth_id auth_state s1)

-- (s *AuthStateInMemoryStore) CreateNewAuthSession, at a time in seconds
unfoldable pub create_new_auth_session :
    (Bytes → Bytes → Bytes)
    → (Bytes → Result AuthClaims)
    → ℕ
    → PkToken
    → Bytes
    → Bytes
    → Store
    → Outcome Bytes × Store
unfolding new_session add_session unless_held
create_new_auth_session hmac unmarshal now p ruri nonce s =
    new_session hmac now (new_auth_state unmarshal p ruri nonce) s

pub issue_code : Option Bytes → Bytes → Bytes → AuthState → Store → Outcome Bytes × Store
issue_code (some used) authcode auth_id auth_state s =
    (returns (err (msg "authcode collision implies randomness failure in RNG")), s)
issue_code none authcode auth_id auth_state s = (
  returns (ok authcode),
  record s {
    auth_state_map = insert auth_id (record auth_state { authcode_issued = true }) s.auth_state_map;
    auth_code_map = insert authcode auth_id s.auth_code_map;
  },
)

pub issue_found : Option AuthState → Bytes → Bytes → Store → Outcome Bytes × Store
issue_found none authcode auth_id s = (returns (err (msg "no such authID")), s)
issue_found (some auth_state) authcode auth_id s =
    if auth_state.authcode_issued
    then (returns (err (msg "authcode already issued for this authID")), s)
    else issue_code (lookup authcode s.auth_code_map) authcode auth_id auth_state s

-- (s *AuthStateInMemoryStore) CreateAuthcode, with what `rand.Read` gives
unfoldable pub create_authcode : Result Bytes → Bytes → Store → Outcome Bytes × Store
unfolding issue_code issue_found unless_held
create_authcode (err e) auth_id s = (returns (err e), s)
create_authcode panic auth_id s = (returns panic, s)
create_authcode (ok bytes) auth_id s =
    unless_held s (issue_found (lookup auth_id s.auth_state_map) (encode_hex bytes) auth_id s)

pub redeem_state : Option AuthState → Bytes → Store → Outcome (AuthState × Bytes) × Store
redeem_state none auth_id s = (returns panic, s)
redeem_state (some auth_state) auth_id s =
    let redeemed = record auth_state { authcode_redeemed = true } in
    if not auth_state.authcode_issued
    then (returns (err (msg "no authcode issued for this authID")), s)
    else if auth_state.authcode_redeemed
    then (returns (err (msg "authcode has already been redeemed")), s)
    else (
      returns (ok (redeemed, auth_id)),
      record s { auth_state_map = insert auth_id redeemed s.auth_state_map },
    )

pub redeem_found : Option Bytes → Store → Outcome (AuthState × Bytes) × Store
redeem_found none s = (returns (err (msg "invalid authcode")), s)
redeem_found (some auth_id) s =
    unless_held s (redeem_state (lookup auth_id s.auth_state_map) auth_id s)

-- (s *AuthStateInMemoryStore) RedeemAuthcode
unfoldable pub redeem_authcode : Bytes → Store → Outcome (AuthState × Bytes) × Store
unfolding redeem_state redeem_found unless_held
redeem_authcode authcode s = redeem_found (lookup authcode s.auth_code_map) s
