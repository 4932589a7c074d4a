-- ===== src/Policy/Enforcer/Access.antt =====
-- Who gets access.
use openpubkey.Base.{
  Result, ok, wrap_err, bind-eq-ok, wrap_err-eq-ok, require-eq-ok, ◌≡◌, List, [], ◌∷◌, arith, true,
  ◌↔◌,
}
use openpubkey.Base.Bytes.{Bytes, eqb_iff}
use openpubkey.Policy.Entries.{User, Policy}
use openpubkey.Policy.Entries.Laws.{Allowed, contains_iff}
use openpubkey.Policy.Enforcer.{granted, check_policy}

granted_iff :
    (email principal : Bytes) (users : List User)
    → (granted email principal users ≡ true) ↔ Allowed email principal users
unfolding granted
granted_iff email principal [] = (λ h. cc h, λ h. absurd h)
granted_iff email principal (user ∷ users) = ground (
  arith,
  eqb_iff email user.email,
  contains_iff user.principals principal,
  granted_iff email principal users,
)

-- Access is granted exactly if a policy was loaded, the payload holds an email, and an entry of the
-- policy with that email lists the principal.
pub check_policy_iff :
    (unmarshal_email : Bytes → Result Bytes) (loaded : Result (Policy × Bytes))
    (principal payload : Bytes)
    → (check_policy unmarshal_email loaded principal payload ≡ ok tt) ↔ (
        (r : Policy × Bytes) × (email : Bytes) × (loaded ≡ ok r)
        × (unmarshal_email payload ≡ ok email)
        × Allowed email principal r.0.users)
unfolding check_policy
check_policy_iff unmarshal_email loaded principal payload = (
  λ h.
      let (r, l, h1) = bind-eq-ok (wrap_err _ loaded) _ h in
      let (email, e, h2) = bind-eq-ok (wrap_err _ (unmarshal_email payload)) _ h1 in
      (
        r,
        email,
        wrap_err-eq-ok _ _ l,
        wrap_err-eq-ok _ _ e,
        (granted_iff email principal r.0.users).0 (require-eq-ok _ _ h2),
      ),
  λ (r, email, l, e, a). rw (l, e, (granted_iff email principal r.0.users).1 a),
)
