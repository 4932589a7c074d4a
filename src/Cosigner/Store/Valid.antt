-- ===== src/Cosigner/Store/Valid.antt =====
-- The invariant of the store, and the ways in which its operations change it.
use openpubkey.Base.{◌≡◌, ◌≢◌, refl, sym, ◌∙◌, ap, List, none, some, true, false, inl, inr, ◌⊎◌}
use mathlib.Core.Path.{subst}
use openpubkey.Base.Bytes.{Bytes}
use openpubkey.Base.Assoc.{lookup, insert, lookup-insert, lookup-insert_cases, some_inj}
use openpubkey.Cosigner.Store.{AuthState, Store}

-- Each code belongs to a session that has been issued one, and no session has two codes.
pub record IsValid (s : Store) : Type 0 where
  pub issued :
      (code id : Bytes)
      → lookup code s.auth_code_map ≡ some id
      → (a : AuthState) × (lookup id s.auth_state_map ≡ some a) × (a.authcode_issued ≡ true)
  pub one_code :
      (c d id : Bytes)
      → lookup c s.auth_code_map ≡ some id
      → lookup d s.auth_code_map ≡ some id
      → c ≡ d

-- The session has had its code redeemed.
pub record IsSpent (code : Bytes) (s : Store) : Type 0 where
  pub id : Bytes
  pub state : AuthState
  pub coded : lookup code s.auth_code_map ≡ some id
  pub found : lookup id s.auth_state_map ≡ some state
  pub redeemed : state.authcode_redeemed ≡ true

-- What may happen to the flags of a session: none is taken back.
pub record KeepsFlags (a b : AuthState) : Type 0 where
  pub issued : a.authcode_issued ≡ true → b.authcode_issued ≡ true
  pub redeemed : a.authcode_redeemed ≡ true → b.authcode_redeemed ≡ true

-- A change of a store: only the issuer and the lock; a session that is new or keeps its flags; or a
-- code for a session that has none.
pub data Change : Store → Store → Type 0 where
  same :
      (s t : Store)
      → s.auth_state_map ≡ t.auth_state_map
      → s.auth_code_map ≡ t.auth_code_map
      → Change s t
  session :
      (s t : Store) (id : Bytes) (a : AuthState)
      → ((old : AuthState) → lookup id s.auth_state_map ≡ some old → KeepsFlags old a)
      → insert id a s.auth_state_map ≡ t.auth_state_map
      → s.auth_code_map ≡ t.auth_code_map
      → Change s t
  code :
      (s t : Store) (code id : Bytes) (a : AuthState)
      → lookup id s.auth_state_map ≡ some a
      → a.authcode_issued ≡ false
      → lookup code s.auth_code_map ≡ none
      → insert id (record a { authcode_issued = true }) s.auth_state_map ≡ t.auth_state_map
      → insert code id s.auth_code_map ≡ t.auth_code_map
      → Change s t

-- the session at a key after the assignment of one that keeps its flags
session_after :
    (m : List (Bytes × AuthState)) (id k : Bytes) (a old : AuthState)
    → ((b : AuthState) → lookup id m ≡ some b → KeepsFlags b a)
    → lookup k m ≡ some old
    → (b : AuthState) × (lookup k (insert id a m) ≡ some b) × KeepsFlags old b
session_after m id k a old keeps h = elim (lookup-insert_cases k id a m) [
  | inl (e, found) ↦ (a, found, keeps old (subst (λ i. lookup i m ≡ some old) e h))
  | inr e ↦ (old, e ∙ h, record { issued = λ i. i; redeemed = λ r. r })
]

issue_keeps :
    (s : Store) (id : Bytes) (a : AuthState)
    → lookup id s.auth_state_map ≡ some a
    → (b : AuthState) → lookup id s.auth_state_map ≡ some b
    → KeepsFlags b (record a { authcode_issued = true })
issue_keeps s id a h b e =
    let eq : a ≡ b = some_inj (sym h ∙ e) in
    record {
      issued = λ _. refl;
      redeemed = λ r. ap (λ (c : AuthState). c.authcode_redeemed) eq ∙ r;
    }

-- the code at a key after the assignment of a new one
code_after :
    (m : List (Bytes × Bytes)) (new id c i : Bytes)
    → lookup c (insert new id m) ≡ some i
    → ((c ≡ new) × (i ≡ id)) ⊎ (lookup c m ≡ some i)
code_after m new id c i h = elim (lookup-insert_cases c new id m) [
  | inl (e, found) ↦ inl (e, some_inj (sym h ∙ found))
  | inr e ↦ inr (sym e ∙ h)
]

-- a session that has no code yet is none of the sessions with a code
not_coded :
    (s : Store) (id c : Bytes) (a : AuthState)
    → IsValid s
    → lookup id s.auth_state_map ≡ some a
    → a.authcode_issued ≡ false
    → lookup c s.auth_code_map ≢ some id
not_coded s id c a v found fresh coded =
    let (b, at_id, issued) = v.issued c id coded in
    let eq : a ≡ b = some_inj (sym found ∙ at_id) in
    cc (ap (λ (x : AuthState). x.authcode_issued) eq, issued, fresh)

pub Change-IsValid : (s t : Store) → Change s t → IsValid s → IsValid t
Change-IsValid _ _ (same s t states codes) v = record {
  issued = λ c id h.
      subst (λ m. (a : AuthState) × (lookup id m ≡ some a) × (a.authcode_issued ≡ true)) states
        (v.issued c id (ap (lookup c) codes ∙ h));
  one_code = λ c d id h k. v.one_code c d id (ap (lookup c) codes ∙ h) (ap (lookup d) codes ∙ k);
}
Change-IsValid _ _ (session s t id a keeps states codes) v = record {
  issued = λ c i h.
      let (old, found, issued) = v.issued c i (ap (lookup c) codes ∙ h) in
      let (b, after, flags) = session_after s.auth_state_map id i a old keeps found in
      (b, ap (lookup i) (sym states) ∙ after, flags.issued issued);
  one_code = λ c d i h k. v.one_code c d i (ap (lookup c) codes ∙ h) (ap (lookup d) codes ∙ k);
}
Change-IsValid _ _ (code s t new id a found fresh free states codes) v = record {
  issued = λ c i h. elim (code_after s.auth_code_map new id c i (ap (lookup c) codes ∙ h)) [
    | inl (_, e) ↦ (
      record a { authcode_issued = true },
      ap (lookup i) (sym states)
          ∙ subst
              (λ k.
                lookup k (insert id (record a { authcode_issued = true }) s.auth_state_map)
                ≡ some (record a { authcode_issued = true }))
              (sym e) (lookup-insert id (record a { authcode_issued = true }) s.auth_state_map),
      refl,
    )
    | inr old ↦
        let (b, at_i, issued) = v.issued c i old in
        let (d, after, flags) =
          session_after s.auth_state_map id i (record a { authcode_issued = true }) b
            (issue_keeps s id a found) at_i in
        (d, ap (lookup i) (sym states) ∙ after, flags.issued issued)
  ];
  one_code = λ c d i h k. elim (code_after s.auth_code_map new id c i (ap (lookup c) codes ∙ h)) [
    | inl (ec, ei) ↦ elim (code_after s.auth_code_map new id d i (ap (lookup d) codes ∙ k)) [
      | inl (ed, _) ↦ ec ∙ sym ed
      | inr old ↦ absurd (not_coded s id d a v found fresh (old ∙ ap some ei))
    ]
    | inr old ↦ elim (code_after s.auth_code_map new id d i (ap (lookup d) codes ∙ k)) [
      | inl (_, ei) ↦ absurd (not_coded s id c a v found fresh (old ∙ ap some ei))
      | inr other ↦ v.one_code c d i old other
    ]
  ];
}

pub Change-IsSpent : (c : Bytes) (s t : Store) → Change s t → IsSpent c s → IsSpent c t
Change-IsSpent c _ _ (same s t states codes) p = record {
  id = p.id;
  state = p.state;
  coded = ap (lookup c) (sym codes) ∙ p.coded;
  found = ap (lookup p.id) (sym states) ∙ p.found;
  redeemed = p.redeemed;
}
Change-IsSpent c _ _ (session s t id a keeps states codes) p =
    let (b, after, flags) = session_after s.auth_state_map id p.id a p.state keeps p.found in
    record {
      id = p.id;
      state = b;
      coded = ap (lookup c) (sym codes) ∙ p.coded;
      found = ap (lookup p.id) (sym states) ∙ after;
      redeemed = flags.redeemed p.redeemed;
    }
Change-IsSpent c _ _ (code s t new id a found fresh free states codes) p =
    let (b, after, flags) =
      session_after s.auth_state_map id p.id (record a { authcode_issued = true }) p.state
        (issue_keeps s id a found) p.found in
    let kept : lookup c (insert new id s.auth_code_map) ≡ some p.id =
      elim (lookup-insert_cases c new id s.auth_code_map) [
        | inl (e, _) ↦ absurd (cc (ap (λ k. lookup k s.auth_code_map) e, free, p.coded))
        | inr e ↦ e ∙ p.coded
      ] in
    record {
      id = p.id;
      state = b;
      coded = ap (lookup c) (sym codes) ∙ kept;
      found = ap (lookup p.id) (sym states) ∙ after;
      redeemed = flags.redeemed p.redeemed;
    }
