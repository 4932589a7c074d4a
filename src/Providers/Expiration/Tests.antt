-- ===== src/Providers/Expiration/Tests.antt =====
-- Runs and instances of the expiration of tokens.
use openpubkey.Base.{ℕ, ◌+◌, msg, ok, err, ◌≡◌, refl, [], arith, ◌↔◌}
use openpubkey.Base.Int.{pos}
use openpubkey.Base.Bytes.{str}
use openpubkey.Oidc.Claims.{OidcClaims}
use openpubkey.Providers.Expiration.{
  Time, unix_to_internal, oidc_policy, max_age_24hours, max_age_48hours, max_age_1week,
  never_expire, check_expiration,
}
use openpubkey.Providers.Expiration.Fresh.{IsFresh, check_expiration_iff}

abbrev claims : OidcClaims
claims = record {
  issuer = str "iss";
  subject = str "me";
  audience = [];
  expiration = pos 4000;
  issued_at = pos 1000;
  email = [];
  nonce = [];
  username = [];
  first_name = [];
  last_name = [];
}

abbrev at_second : ℕ → Time
at_second s = record { sec = pos (s + unix_to_internal); nsec = 0 }

fresh_run : check_expiration (at_second 3999) oidc_policy claims ≡ ok tt
unfolding check_expiration
fresh_run = refl

expired_run :
    check_expiration (at_second 4000) oidc_policy claims
    ≡ err (msg "the ID token has expired (exp = %v)")
unfolding check_expiration
expired_run = refl

-- The age replaces the `exp` claim.
aged_run : check_expiration (at_second 4000) max_age_24hours claims ≡ ok tt
unfolding check_expiration
aged_run = refl

too_old_run :
    check_expiration (at_second 87400) max_age_24hours claims
    ≡ err (
        msg
          "the PK token has expired based on maxAge (issuedAt = %v, maxAge = %v, expiratedAt = %v)")
unfolding check_expiration
too_old_run = refl

older_run : check_expiration (at_second 87400) max_age_48hours claims ≡ ok tt
unfolding check_expiration
older_run = refl

week_run : check_expiration (at_second 604999) max_age_1week claims ≡ ok tt
unfolding check_expiration
week_run = refl

never_run : check_expiration (at_second 87400) never_expire claims ≡ ok tt
unfolding check_expiration
never_run = refl

-- A sum that leaves the range of `int64` is refused.
overflow_run :
    check_expiration
      (at_second 5)
      max_age_24hours
      (record claims { issued_at = pos 9223372036854775807 })
    ≡ err (msg "invalid values (issuedAt = %v, maxAge = %v)")
unfolding check_expiration
overflow_run = refl

check_expiration_iff_example :
    (check_expiration (at_second 3999) oidc_policy claims ≡ ok tt) ↔ IsFresh 3999 oidc_policy claims
check_expiration_iff_example =
    check_expiration_iff (at_second 3999) 3999 oidc_policy claims refl (omega arith) (omega arith)
      (omega arith)
