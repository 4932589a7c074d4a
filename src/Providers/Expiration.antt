-- ===== src/Providers/Expiration.antt =====
-- providers/expiration.go: when a token has expired.
pub mod Fresh
mod Tests
use openpubkey.Base.{
  ℕ, zero, suc, ◌+◌, ◌-◌, ◌*◌, ◌/◌, ◌%◌, ◌^◌, ◌≤◌, ◌<◌, String, Error, msg, wrapped, joined,
  permission, Result, ok, err, panic, require, wrap_err, is_permission, bind-eq-ok, wrap_err-eq-ok,
  require-eq-ok, continue, continue-keeps, continue-eq-ok, ◌>>=◌, ◌>>◌, ◌≡◌, ◌≢◌, refl, sym, ◌∙◌,
  ap, List, [], ◌∷◌, ◌++◌, map, arith, Option, none, some, Bool, true, false, ◌||◌, ◌&&◌, not, ltb,
  leb, ◌==◌, if◌then◌else◌, length, length-append, get_elem?, All, Bool-cases, Option-cases, inl,
  inr, ◌⊎◌, ◌↔◌, ==_iff, ltb→lt,
}
use openpubkey.Base.Int.{ℤ, pos, negsuc, ltz, add64}
use openpubkey.Oidc.Claims.{OidcClaims}

-- A wall clock time: the seconds since the year 1, which is how the package time holds it, and the
-- nanoseconds of the second.
pub record Time : Type 0 where
  pub sec : ℤ
  pub nsec : ℕ

-- the seconds between the year 1 and 1970
abbrev pub unix_to_internal : ℕ
unix_to_internal = 62135596800

-- the seconds of `time.Unix(t, 0)`, a sum of `int64`
abbrev pub unix : ℤ → ℤ
unix (pos n) = add64 n unix_to_internal
unix (negsuc n) =
    if ltb n unix_to_internal then pos (unix_to_internal - n - 1) else negsuc (n - unix_to_internal)

-- `now.Before(time.Unix(t, 0))`
abbrev pub before_unix : Time → ℤ → Bool
before_unix now t = ltz now.sec (unix t)

-- `now.After(time.Unix(t, 0))`
abbrev pub after_unix : Time → ℤ → Bool
after_unix now t = ltz (unix t) now.sec || (not (ltz now.sec (unix t)) && ltb 0 now.nsec)

-- `max_age` is in seconds, as the policies of the program are.
pub record ExpirationPolicy : Type 0 where
  pub max_age : ℤ
  pub check_max_age : Bool
  pub check_exp_claim : Bool

abbrev hour : ℕ
hour = 60 * 60

-- ExpirationPolicies.OIDC, .MAX_AGE_24HOURS, .MAX_AGE_48HOURS, .MAX_AGE_1WEEK and .NEVER_EXPIRE
abbrev pub oidc_policy : ExpirationPolicy
oidc_policy = record { max_age = pos 0; check_max_age = false; check_exp_claim = true }

abbrev pub max_age_24hours : ExpirationPolicy
max_age_24hours = record {
  max_age = pos (24 * hour);
  check_max_age = true;
  check_exp_claim = false;
}

abbrev pub max_age_48hours : ExpirationPolicy
max_age_48hours = record {
  max_age = pos (2 * 24 * hour);
  check_max_age = true;
  check_exp_claim = false;
}

abbrev pub max_age_1week : ExpirationPolicy
max_age_1week = record {
  max_age = pos (7 * 24 * hour);
  check_max_age = true;
  check_exp_claim = false;
}

abbrev pub never_expire : ExpirationPolicy
never_expire = record { max_age = pos 0; check_max_age = false; check_exp_claim = false }

-- verifyNotExpired
verify_not_expired : Time → ℤ → Result (Unit {0})
verify_not_expired now (pos zero) = err (msg "missing expiration claim")
verify_not_expired now (pos (suc n)) =
    require (before_unix now (pos (suc n))) "the ID token has expired (exp = %v)"
verify_not_expired now (negsuc n) =
    err (msg "expiration must be must be greater than zero (issuedAt = %v)")

-- the sum of two positive `int64` and its test for an overflow
within_age : Time → ℕ → ℕ → Result (Unit {0})
within_age now issued_at max_age =
    require (not (ltz (add64 issued_at max_age) (pos issued_at)))
      "invalid values (issuedAt = %v, maxAge = %v)"
    >>= λ _.
        require (before_unix now (add64 issued_at max_age))
          "the PK token has expired based on maxAge (issuedAt = %v, maxAge = %v, expiratedAt = %v)"

-- checkMaxAge
check_max_age : Time → ℤ → ℤ → Result (Unit {0})
check_max_age now (pos zero) max_age = err (msg "missing issuedAt claim")
check_max_age now (pos (suc n)) (pos zero) =
    err (msg "maxAge configuration must be greater than zero (maxAge = %v)")
check_max_age now (pos (suc n)) (pos (suc m)) = within_age now (suc n) (suc m)
check_max_age now (pos (suc n)) (negsuc m) =
    err (msg "maxAge configuration must be greater than zero (maxAge = %v)")
check_max_age now (negsuc n) max_age =
    err (msg "issuedAt must be must be greater than zero (issuedAt = %v)")

-- (ep ExpirationPolicy) CheckExpiration
unfoldable pub check_expiration : Time → ExpirationPolicy → OidcClaims → Result (Unit {0})
unfolding verify_not_expired check_max_age within_age
check_expiration now ep claims =
    (if ep.check_exp_claim then verify_not_expired now claims.expiration else ok tt) >>= λ _.
    if ep.check_max_age then check_max_age now claims.issued_at ep.max_age else ok tt
