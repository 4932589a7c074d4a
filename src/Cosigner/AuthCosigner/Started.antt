-- ===== src/Cosigner/AuthCosigner/Started.antt =====
-- When a cosigner starts a session.
use openpubkey.Base.{
  ◌<◌, ok_inj, ℕ, ◌+◌, ◌^◌, Result, ok, err, panic, require, wrap_err, bind-eq-ok, wrap_err-eq-ok,
  require-eq-ok, ◌≡◌, refl, arith, true, not,
}
use mathlib.Core.Path.{subst}
use openpubkey.Base.Int.{ℤ, pos, negsuc, ◌<ℤ◌}
use openpubkey.Base.Bytes.{Bytes, eqb, eqb_iff}
use openpubkey.PkToken.Token.{PkToken}
use openpubkey.PkToken.SignedMessage.{verify_signed_message}
use openpubkey.PkToken.SignedMessage.Verified.{IsSignedMessage, verify_signed_message_iff}
use openpubkey.Providers.Expiration.{Time, unix_to_internal}
use openpubkey.Cosigner.Store.{Store, returns}
use openpubkey.Cosigner.AuthCosigner.{
  InitMfaAuth, AuthCosigner, Env, plus, too_old, too_early, check_init, start_session, init_auth,
}

returns_inj : {A : Type 0} {r q : Result A} → returns r ≡ returns q → r ≡ q
returns_inj h = cc h

-- the clock shows this second since 1970, at any nanosecond of it
abbrev pub IsAtSecond : Time → ℕ → Type 0
IsAtSecond now s = now.sec ≡ pos (s + unix_to_internal)

-- a number of the type `int64`
abbrev pub IsInt64 : ℤ → Type 0
IsInt64 (pos n) = n < 2 ^ 63
IsInt64 (negsuc n) = n < 2 ^ 63

-- A time that is neither too old nor too early is within two minutes of the clock. One whose sum with
-- the seconds before 1970 wraps around is too old.
within_two_minutes :
    (now : Time) (s : ℕ) (z : ℤ)
    → IsAtSecond now s
    → IsInt64 z
    → not (too_old now z) ≡ true
    → not (too_early now z) ≡ true
    → (¬ (plus z 120 <ℤ pos s)) × (¬ (pos (s + 120) <ℤ z))
within_two_minutes now s (pos t) sec bound old early =
    let old' = rw sec at old in let early' = rw sec at early in ground (arith, old', early')
within_two_minutes now s (negsuc t) sec bound old early =
    let old' = rw sec at old in let early' = rw sec at early in ground (arith, old', early')

module _ {Key Signer : Type 0} (env : Env Key Signer) where
  -- what `InitAuth` has checked of a message
  pub record IsStart (c : AuthCosigner Signer) (p : PkToken) (sig : Bytes) (init : InitMfaAuth)
      : Type 0 where
    pub text : Bytes
    pub client : IsSignedMessage env.jwx env.crypto env.hash p sig text
    pub read : env.init_message text ≡ ok init
    pub issuer : init.issuer ≡ c.issuer
    pub recent : not (too_old env.now init.time_signed) ≡ true
    pub past : not (too_early env.now init.time_signed) ≡ true

  check_init-eq-ok :
      (c : AuthCosigner Signer) (p : PkToken) (sig : Bytes) (init : InitMfaAuth)
      → check_init env c p sig ≡ ok init
      → IsStart c p sig init
  unfolding check_init
  check_init-eq-ok c p sig init h =
      let (m, verified, h1) =
        bind-eq-ok (wrap_err _ (verify_signed_message env.jwx env.crypto env.hash p sig)) _ h in
      let (i, read, h2) = bind-eq-ok (wrap_err _ (env.init_message m)) _ h1 in
      let (_, issuer, h3) = bind-eq-ok (require (eqb i.issuer c.issuer) _) _ h2 in
      let (_, recent, h4) = bind-eq-ok (require (not (too_old env.now i.time_signed)) _) _ h3 in
      let (_, past, h5) = bind-eq-ok (require (not (too_early env.now i.time_signed)) _) _ h4 in
      subst (IsStart c p sig) (ok_inj h5) (record {
        text = m;
        client =
            (verify_signed_message_iff env.jwx env.crypto env.hash p sig m).0
              (wrap_err-eq-ok _ _ verified);
        read = wrap_err-eq-ok _ _ read;
        issuer = (eqb_iff _ _).0 (require-eq-ok _ _ issuer);
        recent = require-eq-ok _ _ recent;
        past = require-eq-ok _ _ past;
      })

  start_session-eq-ok :
      (r : Result InitMfaAuth) (p : PkToken) (seconds : ℕ) (s : Store) (id : Bytes)
      → (start_session env r p seconds s).0 ≡ returns (ok id)
      → (init : InitMfaAuth) × (r ≡ ok init)
  unfolding start_session
  start_session-eq-ok (err e) p seconds s id h = absurd (cc (returns_inj h))
  start_session-eq-ok panic p seconds s id h = absurd (cc (returns_inj h))
  start_session-eq-ok (ok init) p seconds s id h = (init, refl)

  -- A cosigner starts a session only for a message that the client of the PK Token has signed, that
  -- names the cosigner, and whose time is within two minutes of the second that the clock shows. The
  -- clock is not before 1970, and json.Unmarshal gives numbers of int64.
  pub init_auth-IsStart :
      (c : AuthCosigner Signer) (p : PkToken) (sig : Bytes) (seconds : ℕ) (s : Store) (id : Bytes)
      (at_second : ℕ)
      → IsAtSecond env.now at_second
      → ((m : Bytes) (init : InitMfaAuth) → env.init_message m ≡ ok init → IsInt64 init.time_signed)
      → (init_auth env c p sig seconds s).0 ≡ returns (ok id)
      → (init : InitMfaAuth) × IsStart c p sig init
        × (¬ (plus init.time_signed 120 <ℤ pos at_second))
        × (¬ (pos (at_second + 120) <ℤ init.time_signed))
  unfolding init_auth
  init_auth-IsStart c p sig seconds s id at_second clock bounded h =
      let (init, checked) = start_session-eq-ok (check_init env c p sig) p seconds s id h in
      let start = check_init-eq-ok c p sig init checked in
      let bound = bounded start.text init start.read in
      let (recent, past) =
        within_two_minutes env.now at_second init.time_signed clock bound start.recent start.past in
      (init, start, recent, past)
