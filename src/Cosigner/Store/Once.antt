-- ===== src/Cosigner/Store/Once.antt =====
-- The runs of a store, what holds in each, and that a code is redeemed once.
use openpubkey.Base.{
  ℕ, Error, Result, ok, err, ◌≡◌, ◌≢◌, refl, sym, ◌∙◌, ap, some, Bool, true, false, not,
  if◌then◌else◌, Option-cases, inl, inr,
}
use mathlib.Core.Path.{subst}
use openpubkey.Base.Bytes.{Bytes}
use openpubkey.Base.Assoc.{lookup, insert, lookup-insert, some_inj}
use openpubkey.PkToken.Token.{PkToken}
use openpubkey.Cosigner.Store.{
  AuthState, AuthClaims, Store, Outcome, blocks, returns, new_store, unless_held, update_auth_state,
  create_new_auth_session, create_authcode, redeem_state, redeem_found, redeem_authcode,
}
use openpubkey.Cosigner.Store.Valid.{
  IsValid, IsSpent, KeepsFlags, Change, Change-IsValid, Change-IsSpent,
}
use openpubkey.Cosigner.Store.Steps.{
  update_auth_state-Change, create_new_auth_session-Change, create_authcode-Change,
  redeem_authcode-Change,
}

-- A call of an operation, however it ends. An update does not take back the flags of a session.
pub data Step : Store → Store → Type 0 where
  create :
      (hmac : Bytes → Bytes → Bytes) (unmarshal : Bytes → Result AuthClaims) (now : ℕ) (p : PkToken)
      (ruri nonce : Bytes) (s : Store)
      → Step s (create_new_auth_session hmac unmarshal now p ruri nonce s).1
  issue : (rand : Result Bytes) (id : Bytes) (s : Store) → Step s (create_authcode rand id s).1
  redeem : (code : Bytes) (s : Store) → Step s (redeem_authcode code s).1
  update :
      (id : Bytes) (a : AuthState) (s : Store)
      → ((old : AuthState) → lookup id s.auth_state_map ≡ some old → KeepsFlags old a)
      → Step s (update_auth_state id a s).1

pub data Reaches : Store → Store → Type 0 where
  here : (s : Store) → Reaches s s
  step : (s t u : Store) → Step s t → Reaches t u → Reaches s u

Step-Change : (s t : Store) → Step s t → Change s t
Step-Change _ _ (create hmac unmarshal now p ruri nonce s) =
    create_new_auth_session-Change hmac unmarshal now p ruri nonce s
Step-Change _ _ (issue rand id s) = create_authcode-Change rand id s
Step-Change _ _ (redeem code s) = redeem_authcode-Change code s
Step-Change _ _ (update id a s keeps) = update_auth_state-Change id a s keeps

new_store-IsValid : (hmac_key : Bytes) → IsValid (new_store hmac_key)
unfolding new_store lookup
new_store-IsValid hmac_key = record {
  issued = λ c id h. absurd (cc h);
  one_code = λ c d id h k. absurd (cc h);
}

Reaches-IsValid : (s t : Store) → Reaches s t → IsValid s → IsValid t
Reaches-IsValid _ _ (here s) v = v
Reaches-IsValid _ _ (step s t u first rest) v =
    Reaches-IsValid t u rest (Change-IsValid s t (Step-Change s t first) v)

Reaches-IsSpent : (c : Bytes) (s t : Store) → Reaches s t → IsSpent c s → IsSpent c t
Reaches-IsSpent c _ _ (here s) p = p
Reaches-IsSpent c _ _ (step s t u first rest) p =
    Reaches-IsSpent c t u rest (Change-IsSpent c s t (Step-Change s t first) p)

-- In every store that a new one reaches by operations of which no update takes back the flags of a
-- session, each code belongs to a session that has been issued one, and no session has two codes.
pub Reaches-new_store-IsValid :
    (hmac_key : Bytes) (s : Store) → Reaches (new_store hmac_key) s → IsValid s
Reaches-new_store-IsValid hmac_key s r =
    Reaches-IsValid (new_store hmac_key) s r (new_store-IsValid hmac_key)

if_free :
    {A : Type 0} (b : Bool) (s : Store) (r : Outcome A × Store) (x : Result A)
    → (if b then (blocks, s) else r).0 ≡ returns x
    → (b ≡ false) × (r.0 ≡ returns x)
if_free true s r x h = absurd (cc h)
if_free false s r x h = (refl, h)

if_redeemed :
    (issued redeemed : Bool) (x y z : Outcome (AuthState × Bytes) × Store) (e f : Error)
    (r : AuthState × Bytes)
    → x.0 ≡ returns (err e)
    → y.0 ≡ returns (err f)
    → (if not issued then x else if redeemed then y else z).0 ≡ returns (ok r)
    → (issued ≡ true) × (redeemed ≡ false)
if_redeemed false redeemed x y z e f r hx hy h = absurd (cc (sym hx ∙ h))
if_redeemed true true x y z e f r hx hy h = absurd (cc (sym hy ∙ h))
if_redeemed true false x y z e f r hx hy h = (refl, refl)

-- the session that a redemption finds and marks
record IsRedeemed (c : Bytes) (s : Store) : Type 0 where
  id : Bytes
  state : AuthState
  coded : lookup c s.auth_code_map ≡ some id
  found : lookup id s.auth_state_map ≡ some state
  issued : state.authcode_issued ≡ true
  unspent : state.authcode_redeemed ≡ false
  free : s.held ≡ false

IsRedeemed-from :
    (c : Bytes) (s : Store) (r : AuthState × Bytes)
    → (redeem_authcode c s).0 ≡ returns (ok r)
    → IsRedeemed c s
unfolding redeem_authcode redeem_found redeem_state unless_held
IsRedeemed-from c s r h = elim (Option-cases (lookup c s.auth_code_map)) [
  | inl e ↦ absurd (cc (sym (ap (λ o. (redeem_found o s).0) e) ∙ h))
  | inr (id, e) ↦
      let (free, h1) = if_free s.held s _ _ (sym (ap (λ o. (redeem_found o s).0) e) ∙ h) in
      elim (Option-cases (lookup id s.auth_state_map)) [
        | inl f ↦ absurd (cc (sym (ap (λ o. (redeem_state o id s).0) f) ∙ h1))
        | inr (a, f) ↦
            let (issued, unspent) =
              if_redeemed a.authcode_issued a.authcode_redeemed _ _ _ _ _ r refl refl
                (sym (ap (λ o. (redeem_state o id s).0) f) ∙ h1) in
            record {
              id = id;
              state = a;
              coded = e;
              found = f;
              issued = issued;
              unspent = unspent;
              free = free;
            }
      ]
]

-- the store after a redemption
if_marked :
    (issued redeemed : Bool) (x y z : Outcome (AuthState × Bytes) × Store)
    → issued ≡ true
    → redeemed ≡ false
    → (if not issued then x else if redeemed then y else z).1 ≡ z.1
if_marked issued redeemed x y z i u = rw (i, u) refl

redeem-IsSpent : (c : Bytes) (s : Store) → IsRedeemed c s → IsSpent c (redeem_authcode c s).1
unfolding redeem_authcode redeem_found redeem_state unless_held
redeem-IsSpent c s i =
    let spent = record i.state { authcode_redeemed = true } in
    let after : (redeem_authcode c s).1
        ≡ record s { auth_state_map = insert i.id spent s.auth_state_map } =
      ap (λ o. (redeem_found o s).1) i.coded
      ∙ ap (λ b. (if b then (blocks, s) else redeem_state (lookup i.id s.auth_state_map) i.id s).1)
          i.free
      ∙ ap (λ o. (redeem_state o i.id s).1) i.found
      ∙ if_marked i.state.authcode_issued i.state.authcode_redeemed _ _ _ i.issued i.unspent in
    subst (IsSpent c) (sym after) (record {
      id = i.id;
      state = spent;
      coded = i.coded;
      found = lookup-insert i.id spent s.auth_state_map;
      redeemed = refl;
    })

-- A code that has been redeemed is not redeemed again, whatever operations the store has in between,
-- where no update takes back the flags of a session.
pub redeem_authcode_once :
    (c : Bytes) (s t : Store) (r q : AuthState × Bytes)
    → (redeem_authcode c s).0 ≡ returns (ok r)
    → Reaches (redeem_authcode c s).1 t
    → (redeem_authcode c t).0 ≢ returns (ok q)
redeem_authcode_once c s t r q first later again =
    let spent = Reaches-IsSpent c _ t later (redeem-IsSpent c s (IsRedeemed-from c s r first)) in
    let i = IsRedeemed-from c t q again in
    let id : spent.id ≡ i.id = some_inj (sym spent.coded ∙ i.coded) in
    let state : spent.state ≡ i.state =
      some_inj (sym spent.found ∙ ap (λ k. lookup k t.auth_state_map) id ∙ i.found) in
    cc (ap (λ (a : AuthState). a.authcode_redeemed) state, spent.redeemed, i.unspent)
