-- ===== src/Policy/Enforcer/Tests.antt =====
-- Runs and instances of the check of a policy.
use openpubkey.Base.{msg, Result, ok, err, ◌≡◌, refl, [], ◌∷◌, ◌↔◌}
use openpubkey.Base.Bytes.{Bytes, str, eqb}
use openpubkey.Policy.Entries.{Policy, contains}
use openpubkey.Policy.Entries.Laws.{Allowed}
use openpubkey.Policy.Enforcer.{check_policy}
use openpubkey.Policy.Enforcer.Access.{check_policy_iff}

abbrev loaded_policy : Result (Policy × Bytes)
loaded_policy =
    ok (
      record { users = record { email = str "alice"; principals = str "root" ∷ [] } ∷ [] },
      str "/p",
    )

granted_run : check_policy (λ b. ok b) loaded_policy (str "root") (str "alice") ≡ ok tt
unfolding check_policy contains eqb
granted_run = refl

refused_run :
    check_policy (λ b. ok b) loaded_policy (str "dev") (str "alice")
    ≡ err (msg "no policy to allow %s to assume %s, check policy config at %s")
unfolding check_policy contains eqb
refused_run = refl

check_policy_iff_example :
    (check_policy (λ b. ok b) loaded_policy (str "root") (str "alice") ≡ ok tt) ↔ (
      (r : Policy × Bytes) × (email : Bytes) × (loaded_policy ≡ ok r)
      × (ok (str "alice") ≡ ok email)
      × Allowed email (str "root") r.0.users)
check_policy_iff_example = check_policy_iff (λ b. ok b) loaded_policy (str "root") (str "alice")
