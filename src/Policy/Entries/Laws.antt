-- ===== src/Policy/Entries/Laws.antt =====
-- What a policy allows, before and after an addition.
use openpubkey.Base.{
  ◌≡◌, refl, sym, ◌∙◌, ap, List, [], ◌∷◌, ◌++◌, arith, Bool, true, false, ◌||◌, Bool-cases, inl,
  inr, ◌⊎◌, ◌↔◌,
}
use mathlib.Core.Path.{subst}
use openpubkey.Base.Bytes.{Bytes, eqb, eqb_iff, eqb_refl}
use openpubkey.Policy.Entries.{
  User, Policy, contains, add_to_user, add_to_users, is_empty, add_allowed_principal,
}

-- The text stands in the list.
abbrev pub In : Bytes → List Bytes → Type 0
In v [] = ⊥
In v (p ∷ ps) = (p ≡ v) ⊎ In v ps

-- The entry lets the email log in as the principal.
abbrev pub Grants : Bytes → Bytes → User → Type 0
Grants email principal user = (user.email ≡ email) × In principal user.principals

-- Some entry does.
abbrev pub Allowed : Bytes → Bytes → List User → Type 0
Allowed email principal [] = ⊥
Allowed email principal (user ∷ users) = Grants email principal user ⊎ Allowed email principal users

pub contains_iff : (ps : List Bytes) (v : Bytes) → (contains ps v ≡ true) ↔ In v ps
unfolding contains
contains_iff [] v = (λ h. cc h, λ h. absurd h)
contains_iff (p ∷ ps) v = ground (arith, eqb_iff p v, contains_iff ps v)

In-append : (v w : Bytes) (ps : List Bytes) → In v (ps ++ w ∷ []) ↔ (In v ps ⊎ (w ≡ v))
In-append v w [] = ground arith
In-append v w (p ∷ ps) = ground (arith, In-append v w ps)

Allowed-append :
    (email principal : Bytes) (users : List User) (u : User)
    → Allowed email principal (users ++ u ∷ [])
      ↔ (Allowed email principal users ⊎ Grants email principal u)
Allowed-append email principal [] u = ground arith
Allowed-append email principal (v ∷ users) u =
    ground (arith, Allowed-append email principal users u)

-- What is asked for: this email and this principal.
abbrev pub IsAsked : Bytes → Bytes → Bytes → Bytes → Type 0
IsAsked principal user_email email wanted = (user_email ≡ email) × (principal ≡ wanted)

Grants-add_to_user :
    (principal email wanted : Bytes) (user : User)
    → Grants email wanted (add_to_user principal user)
      ↔ (Grants email wanted user ⊎ IsAsked principal user.email email wanted)
unfolding add_to_user
Grants-add_to_user principal email wanted user =
    elim (Bool-cases (contains user.principals principal)) [
      | inl old ↦
          let here : In principal user.principals = (contains_iff _ _).0 old in
          rw old (
            λ g. inl g,
            λ k. elim k [
              | inl g ↦ g
              | inr (same, eq) ↦ (same, subst (λ v. In v user.principals) eq here)
            ],
          )
      | inr new ↦ rw new (ground (arith, In-append wanted principal user.principals))
    ]

-- The loop adds what is asked for exactly if it has met an entry with the email.
Allowed-add_to_users :
    (principal user_email email wanted : Bytes) (users : List User)
    → Allowed email wanted (add_to_users principal user_email users).0 ↔ (
        Allowed email wanted users
        ⊎ (((add_to_users principal user_email users).1 ≡ true)
            × IsAsked principal user_email email wanted))
unfolding add_to_users
Allowed-add_to_users principal user_email email wanted [] = ground arith
Allowed-add_to_users principal user_email email wanted (user ∷ users) =
    let ih = Allowed-add_to_users principal user_email email wanted users in
    let step = Grants-add_to_user principal email wanted user in
    elim (Bool-cases (eqb user.email user_email)) [
      | inl same ↦
          let eq = (eqb_iff user.email user_email).0 same in rw same (ground (arith, step, ih, eq))
      | inr differ ↦ rw differ (ground (arith, ih))
    ]

-- the loop over no entries meets none
is_empty-met :
    (principal user_email : Bytes) (users : List User)
    → (add_to_users principal user_email users).1 ≡ true
    → is_empty (add_to_users principal user_email users).0 ≡ false
unfolding add_to_users is_empty
is_empty-met principal user_email [] h = cc h
is_empty-met principal user_email (user ∷ users) h = ground arith

or_true : (b : Bool) → (b || true) ≡ true
or_true true = refl
or_true false = refl

abbrev new_entry : Bytes → Bytes → User
new_entry principal user_email = record { email = user_email; principals = principal ∷ [] }

-- the two ways in which an addition ends
module _ (principal user_email : Bytes) (p : Policy) where
  add_met :
      (add_to_users principal user_email p.users).1 ≡ true
      → (add_allowed_principal principal user_email p).users
        ≡ (add_to_users principal user_email p.users).0
  unfolding add_allowed_principal
  add_met met = rw (is_empty-met principal user_email p.users met, met)

  add_unmet :
      (add_to_users principal user_email p.users).1 ≡ false
      → (add_allowed_principal principal user_email p).users
        ≡ (add_to_users principal user_email p.users).0 ++ new_entry principal user_email ∷ []
  unfolding add_allowed_principal
  add_unmet unmet = rw (unmet, or_true (is_empty (add_to_users principal user_email p.users).0))

-- After an addition a pair of an email and a principal is allowed exactly if it was allowed before
-- or is the pair that was asked for: nothing else is granted, and nothing is revoked.
pub Allowed-add_allowed_principal :
    (principal user_email : Bytes) (p : Policy) (email wanted : Bytes)
    → Allowed email wanted (add_allowed_principal principal user_email p).users
      ↔ (Allowed email wanted p.users ⊎ IsAsked principal user_email email wanted)
Allowed-add_allowed_principal principal user_email p email wanted =
    let step = Allowed-add_to_users principal user_email email wanted p.users in
    elim (Bool-cases (add_to_users principal user_email p.users).1) [
      | inl met ↦ rw (add_met principal user_email p met) (ground (arith, step))
      | inr unmet ↦
          let users = (add_to_users principal user_email p.users).0 in
          rw (add_unmet principal user_email p unmet) (
            ground
              (arith, step, Allowed-append email wanted users (new_entry principal user_email)))
    ]

add_to_user_idem :
    (principal : Bytes) (user : User)
    → add_to_user principal (add_to_user principal user) ≡ add_to_user principal user
unfolding add_to_user
add_to_user_idem principal user = elim (Bool-cases (contains user.principals principal)) [
  | inl old ↦ rw old (rw old)
  | inr new ↦
      let here : contains (user.principals ++ principal ∷ []) principal ≡ true =
        (contains_iff _ _).1 ((In-append principal principal user.principals).1 (inr refl)) in
      rw new (rw here)
]

email-add_to_user :
    (principal : Bytes) (user : User) → (add_to_user principal user).email ≡ user.email
unfolding add_to_user
email-add_to_user principal user = ground arith

-- what the loop makes of its own result followed by more entries, once it has met an entry
met_again :
    (principal user_email : Bytes) (users : List User)
    → add_to_users principal user_email (add_to_users principal user_email users).0
      ≡ add_to_users principal user_email users
unfolding add_to_users
met_again principal user_email [] = refl
met_again principal user_email (user ∷ users) =
    let ih = met_again principal user_email users in
    elim (Bool-cases (eqb user.email user_email)) [
      | inl same ↦ simp (same, email-add_to_user, add_to_user_idem, ih)
      | inr differ ↦ simp (differ, ih)
    ]

add_to_user-new_entry :
    (principal user_email : Bytes)
    → add_to_user principal (new_entry principal user_email) ≡ new_entry principal user_email
unfolding add_to_user
add_to_user-new_entry principal user_email =
    let here : contains (principal ∷ []) principal ≡ true = (contains_iff _ _).1 (inl refl) in
    rw here

-- a loop that meets no entry with the email leaves the entries, and meets one put behind them
unmet_then :
    (principal user_email : Bytes) (users : List User)
    → (add_to_users principal user_email users).1 ≡ false
    → add_to_users principal user_email
        ((add_to_users principal user_email users).0 ++ new_entry principal user_email ∷ [])
      ≡ ((add_to_users principal user_email users).0 ++ new_entry principal user_email ∷ [], true)
unfolding add_to_users
unmet_then principal user_email [] h =
    rw (eqb_refl user_email, add_to_user-new_entry principal user_email)
unmet_then principal user_email (user ∷ users) h = elim (Bool-cases (eqb user.email user_email)) [
  | inl same ↦ cc (rw same at h)
  | inr differ ↦
      let ih = unmet_then principal user_email users (rw differ at h) in
      rw differ (rw differ (ap (λ (r : List User × Bool). (user ∷ r.0, r.1)) ih))
]

-- Adding the same pair again changes nothing.
pub add_allowed_principal_idem :
    (principal user_email : Bytes) (p : Policy)
    → (add_allowed_principal principal user_email
        (add_allowed_principal principal user_email p)).users
      ≡ (add_allowed_principal principal user_email p).users
add_allowed_principal_idem principal user_email p =
    let q = add_allowed_principal principal user_email p in
    elim (Bool-cases (add_to_users principal user_email p.users).1) [
      | inl met ↦
          let eq = add_met principal user_email p met in
          let again : add_to_users principal user_email q.users
              ≡ add_to_users principal user_email p.users =
            ap (add_to_users principal user_email) eq ∙ met_again principal user_email p.users in
          add_met principal user_email q (ap (λ (r : List User × Bool). r.1) again ∙ met)
          ∙ ap (λ (r : List User × Bool). r.0) again
          ∙ sym eq
      | inr unmet ↦
          let eq = add_unmet principal user_email p unmet in
          let again =
            ap (add_to_users principal user_email) eq
            ∙ unmet_then principal user_email p.users unmet in
          add_met principal user_email q (ap (λ (r : List User × Bool). r.1) again)
          ∙ ap (λ (r : List User × Bool). r.0) again
          ∙ sym eq
    ]
