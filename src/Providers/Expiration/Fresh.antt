-- ===== src/Providers/Expiration/Fresh.antt =====
-- Which tokens have not expired, in whole seconds since 1970.
use openpubkey.Base.{
  ℕ, zero, suc, ◌+◌, ◌^◌, ◌<◌, Result, ok, require, bind-eq-ok, require-eq-ok, ◌≡◌, refl, sym, ◌∙◌,
  ap, arith, Bool, true, false, not, if◌then◌else◌, ◌↔◌,
}
use openpubkey.Base.Int.{ℤ, pos, negsuc, pos_part, ltz, add64, ◌<ℤ◌}
use openpubkey.Oidc.Claims.{OidcClaims}
use openpubkey.Providers.Expiration.{
  Time, unix_to_internal, unix, before_unix, ExpirationPolicy, verify_not_expired, within_age,
  check_max_age, check_expiration,
}

-- The clock shows this many seconds since 1970.
abbrev pub IsAt : Time → ℕ → Type 0
IsAt now s = now.sec ≡ pos (s + unix_to_internal)

-- a positive time or duration that is over after the second `s`
abbrev Later : ℕ → ℤ → Type 0
Later s t = (pos 0 <ℤ t) × (pos s <ℤ t)

before_unix_iff :
    (now : Time) (s n : ℕ) → IsAt now s → n < 2 ^ 61 → (before_unix now (pos n) ≡ true) ↔ (s < n)
before_unix_iff now s n at bound = rw at (ground arith)

verify_not_expired_iff :
    (now : Time) (s : ℕ) (t : ℤ)
    → IsAt now s
    → (t <ℤ pos (2 ^ 61))
    → (verify_not_expired now t ≡ ok tt) ↔ Later s t
unfolding verify_not_expired
verify_not_expired_iff now s (pos zero) at bound =
    (λ h. absurd (cc h), λ (h, _). absurd (omega arith))
verify_not_expired_iff now s (pos (suc n)) at bound =
    let iff = before_unix_iff now s (suc n) at (omega arith) in
    (
      λ h. (omega arith, omega (arith, iff.0 (require-eq-ok _ _ h))),
      λ (_, h). rw (iff.1 (omega arith)) refl,
    )
verify_not_expired_iff now s (negsuc n) at bound =
    (λ h. absurd (cc h), λ (h, _). absurd (omega arith))

within_age_iff :
    (now : Time) (s i m : ℕ)
    → IsAt now s
    → i < 2 ^ 61
    → m < 2 ^ 61
    → (within_age now i m ≡ ok tt) ↔ (s < i + m)
unfolding within_age
within_age_iff now s i m at bi bm =
    let sum : add64 i m ≡ pos (i + m) = ground arith in
    let no_overflow : not (ltz (pos (i + m)) (pos i)) ≡ true = ground arith in
    let soon : unix (pos (i + m)) ≡ pos (i + m + unix_to_internal) = ground arith in
    let iff : (before_unix now (pos (i + m)) ≡ true) ↔ (s < i + m) = rw (at, soon) (ground arith) in
    (
      λ h.
          let (_, _, h1) = bind-eq-ok (require (not (ltz (add64 i m) (pos i))) _) _ h in
          iff.0 (ap (before_unix now) (sym sum) ∙ require-eq-ok _ _ h1),
      λ h. rw (sum, no_overflow, iff.1 h) refl,
    )

check_max_age_iff :
    (now : Time) (s : ℕ) (issued_at max_age : ℤ)
    → IsAt now s
    → (issued_at <ℤ pos (2 ^ 61))
    → (max_age <ℤ pos (2 ^ 61))
    → (check_max_age now issued_at max_age ≡ ok tt)
      ↔ ((pos 0 <ℤ issued_at) × (pos 0 <ℤ max_age) × (s < pos_part issued_at + pos_part max_age))
unfolding check_max_age
check_max_age_iff now s (pos zero) m at bi bm =
    (λ h. absurd (cc h), λ (h, _, _). absurd (omega arith))
check_max_age_iff now s (pos (suc n)) (pos zero) at bi bm =
    (λ h. absurd (cc h), λ (_, h, _). absurd (omega arith))
check_max_age_iff now s (pos (suc n)) (pos (suc m)) at bi bm =
    let iff = within_age_iff now s (suc n) (suc m) at (omega arith) (omega arith) in
    (λ h. (omega arith, omega arith, iff.0 h), λ (_, _, h). iff.1 h)
check_max_age_iff now s (pos (suc n)) (negsuc m) at bi bm =
    (λ h. absurd (cc h), λ (_, h, _). absurd (omega arith))
check_max_age_iff now s (negsuc n) m at bi bm =
    (λ h. absurd (cc h), λ (h, _, _). absurd (omega arith))

-- what a policy asks of the claims at the second `s`
pub record IsFresh (s : ℕ) (ep : ExpirationPolicy) (c : OidcClaims) : Type 0 where
  pub exp_claim : ep.check_exp_claim ≡ true → (pos 0 <ℤ c.expiration) × (pos s <ℤ c.expiration)
  pub age :
      ep.check_max_age ≡ true
      → (pos 0 <ℤ c.issued_at)
        × (pos 0 <ℤ ep.max_age)
        × (s < pos_part c.issued_at + pos_part ep.max_age)

if_iff :
    (b : Bool) (r : Result (Unit {0})) (P : Type 0)
    → (r ≡ ok tt) ↔ P
    → ((if b then r else ok tt) ≡ ok tt) ↔ (b ≡ true → P)
if_iff true r P iff = (λ h e. iff.0 h, λ f. iff.1 (f refl))
if_iff false r P iff = (λ h e. absurd (cc e), λ f. refl)

-- A token passes the check exactly if it has not expired under the policy: where the policy reads
-- the `exp` claim it is positive and later than the clock, and where it reads the age, the time of
-- issue and the greatest age are positive and their sum is later than the clock. The times are below
-- 2^61, in seconds.
pub check_expiration_iff :
    (now : Time) (s : ℕ) (ep : ExpirationPolicy) (c : OidcClaims)
    → IsAt now s
    → (c.expiration <ℤ pos (2 ^ 61))
    → (c.issued_at <ℤ pos (2 ^ 61))
    → (ep.max_age <ℤ pos (2 ^ 61))
    → (check_expiration now ep c ≡ ok tt) ↔ IsFresh s ep c
unfolding check_expiration
check_expiration_iff now s ep c at be bi bm =
    let exp = if_iff ep.check_exp_claim _ _ (verify_not_expired_iff now s c.expiration at be) in
    let age =
      if_iff ep.check_max_age _ _ (check_max_age_iff now s c.issued_at ep.max_age at bi bm) in
    (
      λ h.
          let (_, h1, h2) =
            bind-eq-ok (if ep.check_exp_claim then verify_not_expired now c.expiration else ok tt) _
              h in
          record { exp_claim = exp.0 h1; age = age.0 h2 },
      λ fresh. rw (exp.1 fresh.exp_claim) (age.1 fresh.age),
    )
