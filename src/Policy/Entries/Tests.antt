-- ===== src/Policy/Entries/Tests.antt =====
-- Runs and instances of the addition of a principal.
use openpubkey.Base.{◌≡◌, refl, [], ◌∷◌, ◌⊎◌, ◌↔◌}
use openpubkey.Base.Bytes.{str, eqb}
use openpubkey.Policy.Entries.{User, Policy, add_allowed_principal, is_empty}
use openpubkey.Policy.Entries.Laws.{Allowed, IsAsked, Allowed-add_allowed_principal}

abbrev alice : User
alice = record { email = str "alice"; principals = str "root" ∷ [] }

abbrev only_alice : Policy
only_alice = record { users = alice ∷ [] }

add_new :
    (add_allowed_principal (str "dev") (str "bob") only_alice).users
    ≡ alice ∷ record { email = str "bob"; principals = str "dev" ∷ [] } ∷ []
unfolding add_allowed_principal is_empty eqb
add_new = refl

add_known :
    (add_allowed_principal (str "dev") (str "alice") only_alice).users
    ≡ record { email = str "alice"; principals = str "root" ∷ str "dev" ∷ [] } ∷ []
unfolding add_allowed_principal is_empty eqb
add_known = refl

Allowed-add_allowed_principal_example :
    Allowed (str "bob") (str "dev") (add_allowed_principal (str "dev") (str "bob") only_alice).users
    ↔ (Allowed (str "bob") (str "dev") only_alice.users
        ⊎ IsAsked (str "dev") (str "bob") (str "bob") (str "dev"))
Allowed-add_allowed_principal_example =
    Allowed-add_allowed_principal (str "dev") (str "bob") only_alice (str "bob") (str "dev")
