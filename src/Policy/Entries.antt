-- ===== src/Policy/Entries.antt =====
-- opkssh/policy/policy.go: the entries of a policy, and the addition of a principal.
pub mod Laws
mod Tests
use openpubkey.Base.{
  ℕ, zero, suc, ◌+◌, ◌-◌, ◌*◌, ◌/◌, ◌%◌, ◌^◌, ◌≤◌, ◌<◌, String, Error, msg, wrapped, joined,
  permission, Result, ok, err, panic, require, wrap_err, is_permission, bind-eq-ok, wrap_err-eq-ok,
  require-eq-ok, ◌>>=◌, ◌>>◌, ◌≡◌, ◌≢◌, refl, sym, ◌∙◌, ap, List, [], ◌∷◌, ◌++◌, map, arith, Option,
  none, some, Bool, true, false, ◌||◌, ◌&&◌, not, ltb, leb, ◌==◌, if◌then◌else◌, length,
  length-append, get_elem?, All, Bool-cases, Option-cases, inl, inr, ◌⊎◌, ◌↔◌, ==_iff, ltb→lt,
}
use openpubkey.Base.Bytes.{Bytes, eqb}

pub record User : Type 0 where
  pub email : Bytes
  pub principals : List Bytes

pub record Policy : Type 0 where
  pub users : List User

-- `slices.Contains`, and the loop over `user.Principals`
unfoldable pub contains : List Bytes → Bytes → Bool
contains [] v = false
contains (p ∷ ps) v = eqb p v || contains ps v

-- one round of the loop over the users, at an entry with the email
add_to_user : Bytes → User → User
add_to_user principal user =
    if contains user.principals principal
    then user
    else record user { principals = user.principals ++ principal ∷ [] }

-- The loop over the users, with `userExists` at the end.
add_to_users : Bytes → Bytes → List User → List User × Bool
add_to_users principal user_email [] = ([], false)
add_to_users principal user_email (user ∷ users) =
    let (rest, exists) = add_to_users principal user_email users in
    if eqb user.email user_email
    then (add_to_user principal user ∷ rest, true)
    else (user ∷ rest, exists)

-- `len(p.Users) == 0`
unfoldable pub is_empty : List User → Bool
is_empty [] = true
is_empty (user ∷ users) = false

-- (p *Policy) AddAllowedPrincipal
unfoldable pub add_allowed_principal : Bytes → Bytes → Policy → Policy
unfolding contains add_to_user add_to_users
add_allowed_principal principal user_email p =
    let (users, user_exists) = add_to_users principal user_email p.users in
    if is_empty users || not user_exists
    then record { users = users ++ record { email = user_email; principals = principal ∷ [] } ∷ [] }
    else record { users = users }
