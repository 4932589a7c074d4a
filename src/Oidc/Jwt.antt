-- ===== src/Oidc/Jwt.antt =====
-- oidc/jwt.go: a token with its claims, and the comparison of two tokens.
pub mod Laws
mod Tests
use openpubkey.Base.{
  ℕ, zero, suc, ◌+◌, ◌-◌, ◌*◌, ◌/◌, ◌%◌, ◌^◌, ◌≤◌, ◌<◌, String, Error, msg, wrapped, joined,
  permission, Result, ok, err, panic, require, wrap_err, is_permission, bind-eq-ok, wrap_err-eq-ok,
  ◌>>=◌, ◌>>◌, ◌≡◌, ◌≢◌, refl, sym, ◌∙◌, ap, List, [], ◌∷◌, ◌++◌, map, arith, Option, none, some,
  Bool, true, false, ◌||◌, ◌&&◌, not, ltb, leb, ◌==◌, if◌then◌else◌, length, length-append,
  get_elem?, All, Bool-cases, Option-cases, inl, inr, ◌⊎◌, ◌↔◌, ==_iff, ltb→lt,
}
use openpubkey.Base.Int.{ℤ, ltz, ◌<ℤ◌}
use openpubkey.Base.Bytes.{Bytes, eqb}
use openpubkey.Oidc.Compact.{split_compact}
use openpubkey.Oidc.Claims.{OidcClaims, ProtectedClaims, Json, parse_protected, parse_claims}

-- The fields of `signature` that `NewJwt` sets stand beside the others. A nil pointer is `none`.
pub record Jwt : Type 0 where
  pub payload : Bytes
  pub payload_claims : Option OidcClaims
  pub protected : Bytes
  pub protected_claims : Option ProtectedClaims
  pub signature : Bytes
  pub raw : Bytes

-- a field read through a pointer, which panics at nil
abbrev pub deref {ℓ} : {A : Type ℓ} → Option A → Result A
deref none = panic
deref (some a) = ok a

module _ (json : Json) where
  -- NewJwt
  unfoldable pub new_jwt : Bytes → Result Jwt
  new_jwt token = do
    (protected, payload, signature) ← split_compact token
    protected_claims ← wrap_err "error parsing protected: %w" (parse_protected json protected)
    payload_claims ← wrap_err "error parsing payload: %w" (parse_claims json payload)
    ok (record {
      payload = payload;
      payload_claims = payload_claims;
      protected = protected;
      protected_claims = protected_claims;
      signature = signature;
      raw = token;
    })

  -- SameIdentity
  unfoldable pub same_identity : Bytes → Bytes → Result (Unit {0})
  same_identity t1 t2 = do
    token1 ← new_jwt t1
    token2 ← new_jwt t2
    c1 ← deref token1.payload_claims
    c2 ← deref token2.payload_claims
    require (eqb c1.issuer c2.issuer) "tokens have different issuers"
    require (eqb c1.subject c2.subject) "token have a different subject claims"

  -- RequireOlder
  unfoldable pub require_older : Bytes → Bytes → Result (Unit {0})
  require_older t1 t2 = do
    token1 ← new_jwt t1
    token2 ← new_jwt t2
    c1 ← deref token1.payload_claims
    c2 ← deref token2.payload_claims
    require (not (ltz c2.issued_at c1.issued_at)) "tokens not issued in correct order"
