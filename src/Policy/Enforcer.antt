-- ===== src/Policy/Enforcer.antt =====
-- opkssh/policy/enforcer.go: the check of a policy. `unmarshal_email` is `json.Unmarshal` at the
-- struct that holds the email alone.
pub mod Access
mod Tests
use openpubkey.Base.{
  ℕ, zero, suc, ◌+◌, ◌-◌, ◌*◌, ◌/◌, ◌%◌, ◌^◌, ◌≤◌, ◌<◌, String, Error, msg, wrapped, joined,
  permission, Result, ok, err, panic, require, wrap_err, is_permission, bind-eq-ok, wrap_err-eq-ok,
  require-eq-ok, ◌>>=◌, ◌>>◌, ◌≡◌, ◌≢◌, refl, sym, ◌∙◌, ap, List, [], ◌∷◌, ◌++◌, map, arith, Option,
  none, some, Bool, true, false, ◌||◌, ◌&&◌, not, ltb, leb, ◌==◌, if◌then◌else◌, length,
  length-append, get_elem?, All, Bool-cases, Option-cases, inl, inr, ◌⊎◌, ◌↔◌, ==_iff, ltb→lt,
}
use openpubkey.Base.Bytes.{Bytes, eqb}
use openpubkey.Policy.Entries.{User, Policy, contains}

-- the loop over the entries
granted : Bytes → Bytes → List User → Bool
granted email principal [] = false
granted email principal (user ∷ users) =
    let rest = granted email principal users in
    if eqb email user.email && contains user.principals principal then true else rest

-- (p *Enforcer) CheckPolicy, with what the loader has given
unfoldable pub check_policy :
    (Bytes → Result Bytes) → Result (Policy × Bytes) → Bytes → Bytes → Result (Unit {0})
unfolding granted
check_policy unmarshal_email loaded principal_desired payload = do
  (policy, source) ← wrap_err "error loading policy: %w" loaded
  email ← wrap_err "error unmarshalling pk token payload: %w" (unmarshal_email payload)
  require (granted email principal_desired policy.users)
      "no policy to allow %s to assume %s, check policy config at %s"
