-- ===== src/Cosigner/AuthCosigner.antt =====
-- cosigner/authcosigner.go and cosigner/cosigner.go: the handlers of a cosigner over its store.
pub mod Redeemed
pub mod Started
mod Tests
use openpubkey.Base.{
  required, required-eq-ok, ok_inj, ℕ, zero, suc, ◌+◌, ◌-◌, ◌*◌, ◌/◌, ◌%◌, ◌^◌, ◌≤◌, ◌<◌, String,
  Error, msg, wrapped, joined, permission, Result, ok, err, panic, require, wrap_err, is_permission,
  bind-eq-ok, bind_ok, wrap_err-eq-ok, require-eq-ok, continue, continue-keeps, continue-eq-ok,
  ◌>>=◌, ◌>>◌, ◌≡◌, ◌≢◌, refl, sym, ◌∙◌, ap, List, [], ◌∷◌, ◌++◌, map, arith, Option, none, some,
  Bool, true, false, ◌||◌, ◌&&◌, not, ltb, leb, ◌==◌, if◌then◌else◌, length, length-append,
  get_elem?, All, Bool-cases, Option-cases, inl, inr, ◌⊎◌, ◌↔◌, ==_iff, ltb→lt,
}
use openpubkey.Base.Int.{ℤ, pos, negsuc, ltz}
use openpubkey.Base.Bytes.{Bytes, str, eqb, eqb_iff, content}
use openpubkey.Oidc.Claims.{Any}
use openpubkey.PkToken.Jwx.{Jwx, Message}
use openpubkey.PkToken.ClientInstance.{Crypto}
use openpubkey.PkToken.CosignerClaims.{CosignerClaims}
use openpubkey.PkToken.SignatureType
use openpubkey.PkToken.SignedMessage.{verify_signed_message}
use openpubkey.PkToken.Token.{PkToken}
use openpubkey.Providers.Expiration.{Time, unix, unix_to_internal}
use openpubkey.Cosigner.Store.{
  AuthState, AuthClaims, Store, Outcome, blocks, returns, create_new_auth_session, create_authcode,
  redeem_authcode,
}

pub record InitMfaAuth : Type 0 where
  pub issuer : Bytes
  pub redirect_uri : Bytes
  pub time_signed : ℤ
  pub nonce : Bytes

pub record AuthCosigner (Signer : Type 0) : Type 0 where
  pub alg : Bytes
  pub signer : Signer
  pub issuer : Bytes
  pub key_id : Bytes

-- What a handler reads beside its arguments: the packages jws and jwk, the hash of a PK Token, JSON,
-- HMAC, and the clock, which stands still during a call.
pub record Env (Key Signer : Type 0) : Type 0 where
  pub jwx : Jwx Key
  pub crypto : Crypto Key Signer
  pub hash : PkToken → Result Bytes
  pub init_message : Bytes → Result InitMfaAuth
  pub auth_claims : Bytes → Result AuthClaims
  pub headers_of : CosignerClaims → Result (List (Bytes × Any))
  pub hmac : Bytes → Bytes → Bytes
  pub now : Time

-- z + n
abbrev pub plus : ℤ → ℕ → ℤ
plus (pos m) n = pos (m + n)
plus (negsuc m) n = if ltb m n then pos (n - m - 1) else negsuc (m - n)

-- `time.Now().Unix()`, from the seconds of the clock
abbrev unix_of : ℤ → ℤ
unix_of (pos n) =
    if ltb n unix_to_internal then negsuc (unix_to_internal - n - 1) else pos (n - unix_to_internal)
unix_of (negsuc n) = negsuc (n + unix_to_internal)

-- `time.Since(time.Unix(t, 0)).Minutes() > 2`
abbrev pub too_old : Time → ℤ → Bool
too_old now t =
    ltz (plus (unix t) 120) now.sec || (not (ltz now.sec (plus (unix t) 120)) && ltb 0 now.nsec)

-- `time.Until(time.Unix(t, 0)).Minutes() > 2`
abbrev pub too_early : Time → ℤ → Bool
too_early now t = ltz (plus now.sec 120) (unix t)

-- the results of a store and of a function in a row
abbrev pub answer : {A B : Type 0} → Outcome A → (A → Result B) → Outcome B
answer blocks k = blocks
answer (returns r) k = returns (r >>= k)

module _ {Key Signer : Type 0} (env : Env Key Signer) where
  -- the checks of `InitAuth`
  pub check_init : AuthCosigner Signer → PkToken → Bytes → Result InitMfaAuth
  check_init c p sig = do
    m ←
        wrap_err "failed to verify sig: %w"
          (verify_signed_message env.jwx env.crypto env.hash p sig)
    init ← wrap_err "failed to parse InitMFAAuth message: %w" (env.init_message m)
    require (eqb init.issuer c.issuer)
        "signed message is for wrong cosigner, got issuer=(%s), expected issuer=(%s)"
    require (not (too_old env.now init.time_signed))
        "timestamp (%d) in InitMFAAuth message too old, current time is (%d)"
    require (not (too_early env.now init.time_signed))
        "timestamp (%d) in InitMFAAuth message too far in the future, current time is (%d)"
    ok init

  pub start_session : Result InitMfaAuth → PkToken → ℕ → Store → Outcome Bytes × Store
  start_session (err e) p seconds s = (returns (err e), s)
  start_session panic p seconds s = (returns panic, s)
  start_session (ok init) p seconds s =
      create_new_auth_session env.hmac env.auth_claims seconds p init.redirect_uri init.nonce s

  -- (c *AuthCosigner) InitAuth; the store reads the clock as `uint64` seconds
  unfoldable pub init_auth :
      AuthCosigner Signer → PkToken → Bytes → ℕ → Store → Outcome Bytes × Store
  unfolding check_init start_session
  init_auth c p sig seconds s = start_session (check_init c p sig) p seconds s

  -- (p *PKToken) SignToken
  unfoldable pub sign_token : PkToken → Signer → Bytes → List (Bytes × Any) → Result Bytes
  sign_token p signer alg protected =
      wrap_err "malformatted headers: %w" (env.crypto.set_headers protected)
      >>= env.crypto.sign (content p.payload) alg signer

  -- (c *Cosigner) Cosign
  unfoldable pub cosign : AuthCosigner Signer → PkToken → CosignerClaims → Result Bytes
  cosign c p claims = env.headers_of claims >>= sign_token p c.signer c.alg

  -- the claims that `IssueSignature` makes
  abbrev pub issued_claims : AuthCosigner Signer → AuthState → Bytes → CosignerClaims
  issued_claims c a auth_id = record {
    issuer = c.issuer;
    key_id = c.key_id;
    algorithm = c.alg;
    auth_id = auth_id;
    auth_time = unix_of env.now.sec;
    issued_at = unix_of env.now.sec;
    expiration = plus (unix_of env.now.sec) (60 * 60);
    redirect_uri = a.redirect_uri;
    nonce = a.nonce;
    typ = SignatureType.cos;
  }

  -- (c *AuthCosigner) IssueSignature
  unfoldable pub issue_signature : AuthCosigner Signer → PkToken → AuthState → Bytes → Result Bytes
  issue_signature c p a auth_id = cosign c p (issued_claims c a auth_id)

  -- the rest of `RedeemAuthcode` once the code is spent
  abbrev pub after_redeem : AuthCosigner Signer → Bytes → AuthState × Bytes → Result Bytes
  after_redeem c sig (a, auth_id) =
      wrap_err "error verifying sig: %w"
        (verify_signed_message env.jwx env.crypto env.hash a.pkt sig)
      >>= λ _. issue_signature c a.pkt a auth_id

  redeem_message : AuthCosigner Signer → Bytes → Result Message → Store → Outcome Bytes × Store
  redeem_message c sig (err e) s = (returns (err (msg "failed to parse sig: %s")), s)
  redeem_message c sig panic s = (returns panic, s)
  redeem_message c sig (ok m) s =
      let (outcome, t) = redeem_authcode (content m.payload) s in
      (answer outcome (after_redeem c sig), t)

  -- (c *AuthCosigner) RedeemAuthcode
  unfoldable pub redeem_signed : AuthCosigner Signer → Bytes → Store → Outcome Bytes × Store
  unfolding redeem_message
  redeem_signed c sig s = redeem_message c sig (env.jwx.parse sig) s

-- (c *AuthCosigner) NewAuthcode
abbrev pub new_authcode : Result Bytes → Bytes → Store → Outcome Bytes × Store
new_authcode = create_authcode
