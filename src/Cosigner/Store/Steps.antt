-- ===== src/Cosigner/Store/Steps.antt =====
-- Each operation of the store as a change of it.
use openpubkey.Base.{
  ℕ, Result, ok, err, panic, ◌≡◌, refl, sym, ◌∙◌, ap, Option, none, some, Bool, true, false, not,
  if◌then◌else◌, Bool-cases, Option-cases, inl, inr,
}
use openpubkey.Base.Bytes.{Bytes}
use openpubkey.Base.Assoc.{lookup, insert, some_inj}
use openpubkey.PkToken.Token.{PkToken}
use openpubkey.PkToken.ClientInstance.{encode_hex}
use openpubkey.Cosigner.AuthIdIssuer.{create_auth_id}
use openpubkey.Cosigner.Store.{
  AuthState, AuthClaims, new_auth_state, Store, Outcome, blocks, unless_held, update_found,
  update_auth_state, add_session, new_session, create_new_auth_session, issue_code, issue_found,
  create_authcode, redeem_state, redeem_found, redeem_authcode,
}
use openpubkey.Cosigner.Store.Valid.{KeepsFlags, Change, same, session, code}

if_keeps :
    {A : Type 0} (Q : Store → Type 0) (b : Bool) (x y : Outcome A × Store)
    → Q x.1
    → Q y.1
    → Q (if b then x else y).1
if_keeps Q true x y p q = p
if_keeps Q false x y p q = q

unless_held-Change :
    {A : Type 0} (s t : Store) (r : Outcome A × Store)
    → Change s t
    → Change s r.1
    → Change s (unless_held t r).1
unfolding unless_held
unless_held-Change s t r c d = if_keeps (Change s) t.held (blocks, t) r c d

pub update_auth_state-Change :
    (id : Bytes) (a : AuthState) (s : Store)
    → ((old : AuthState) → lookup id s.auth_state_map ≡ some old → KeepsFlags old a)
    → Change s (update_auth_state id a s).1
unfolding update_auth_state update_found
update_auth_state-Change id a s keeps =
    unless_held-Change s s _ (same s s refl refl)
      (elim (Option-cases (lookup id s.auth_state_map)) [
        | inl e ↦ rw e (same s s refl refl)
        | inr (old, e) ↦ rw e (session s _ id a keeps refl refl)
      ])

add_session-Change :
    (o : Option AuthState) (id : Bytes) (a : AuthState) (s t : Store)
    → s.auth_state_map ≡ t.auth_state_map
    → s.auth_code_map ≡ t.auth_code_map
    → lookup id s.auth_state_map ≡ o
    → Change s (add_session o id a t).1
unfolding add_session
add_session-Change (some used) id a s t states codes h = same s _ states codes
add_session-Change none id a s t states codes h =
    session s _ id a (λ old found. absurd (cc (h, found))) (ap (insert id a) states) codes

new_session-Change :
    (hmac : Bytes → Bytes → Bytes) (now : ℕ) (r : Result AuthState) (s : Store)
    → Change s (new_session hmac now r s).1
unfolding new_session add_session
new_session-Change hmac now (err e) s = same s s refl refl
new_session-Change hmac now panic s = same s s refl refl
new_session-Change hmac now (ok a) s =
    let (auth_id, i) = create_auth_id hmac now s.auth_id_issuer in
    let s1 = record s { auth_id_issuer = i } in
    unless_held-Change s s1 _ (same s s1 refl refl)
      (add_session-Change (lookup auth_id s.auth_state_map) auth_id a s s1 refl refl refl)

pub create_new_auth_session-Change :
    (hmac : Bytes → Bytes → Bytes) (unmarshal : Bytes → Result AuthClaims) (now : ℕ) (p : PkToken)
    (ruri nonce : Bytes) (s : Store)
    → Change s (create_new_auth_session hmac unmarshal now p ruri nonce s).1
unfolding create_new_auth_session
create_new_auth_session-Change hmac unmarshal now p ruri nonce s =
    new_session-Change hmac now (new_auth_state unmarshal p ruri nonce) s

issue_found-Change :
    (o : Option AuthState) (c id : Bytes) (s : Store)
    → lookup id s.auth_state_map ≡ o
    → Change s (issue_found o c id s).1
unfolding issue_found issue_code
issue_found-Change none c id s h = same s s refl refl
issue_found-Change (some a) c id s h = elim (Bool-cases a.authcode_issued) [
  | inl e ↦ rw e (same s s refl refl)
  | inr e ↦ rw e (elim (Option-cases (lookup c s.auth_code_map)) [
    | inl free ↦ rw free (code s _ c id a h e free refl refl)
    | inr (used, f) ↦ rw f (same s s refl refl)
  ])
]

pub create_authcode-Change :
    (rand : Result Bytes) (id : Bytes) (s : Store) → Change s (create_authcode rand id s).1
unfolding create_authcode
create_authcode-Change (err e) id s = same s s refl refl
create_authcode-Change panic id s = same s s refl refl
create_authcode-Change (ok bytes) id s =
    unless_held-Change s s _ (same s s refl refl)
      (issue_found-Change (lookup id s.auth_state_map) (encode_hex bytes) id s refl)

redeem_keeps :
    (s : Store) (id : Bytes) (a : AuthState)
    → lookup id s.auth_state_map ≡ some a
    → (b : AuthState) → lookup id s.auth_state_map ≡ some b
    → KeepsFlags b (record a { authcode_redeemed = true })
redeem_keeps s id a h b e =
    let eq : a ≡ b = some_inj (sym h ∙ e) in
    record { issued = λ i. ap (λ (c : AuthState). c.authcode_issued) eq ∙ i; redeemed = λ _. refl }

redeem_state-Change :
    (o : Option AuthState) (id : Bytes) (s : Store)
    → lookup id s.auth_state_map ≡ o
    → Change s (redeem_state o id s).1
unfolding redeem_state
redeem_state-Change none id s h = same s s refl refl
redeem_state-Change (some a) id s h =
    if_keeps (Change s) (not a.authcode_issued) _ _ (same s s refl refl) (
      if_keeps (Change s) a.authcode_redeemed _ _ (same s s refl refl)
        (session s _ id (record a { authcode_redeemed = true }) (redeem_keeps s id a h) refl refl))

redeem_found-Change : (o : Option Bytes) (s : Store) → Change s (redeem_found o s).1
unfolding redeem_found
redeem_found-Change none s = same s s refl refl
redeem_found-Change (some id) s =
    unless_held-Change s s _ (same s s refl refl)
      (redeem_state-Change (lookup id s.auth_state_map) id s refl)

pub redeem_authcode-Change : (c : Bytes) (s : Store) → Change s (redeem_authcode c s).1
unfolding redeem_authcode
redeem_authcode-Change c s = redeem_found-Change (lookup c s.auth_code_map) s
