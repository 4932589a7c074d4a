-- ===== src/Cosigner/Store/Tests.antt =====
-- Runs and instances of the store.
use openpubkey.Base.{ℕ, msg, Result, ok, err, ◌≡◌, ◌≢◌, refl, [], ◌∷◌, some, true, false}
use openpubkey.Base.Bytes.{Bytes, str, eqb, split}
use openpubkey.Base.Assoc.{lookup, insert}
use openpubkey.Oidc.Claims.{text}
use openpubkey.PkToken.ClientInstance.{encode_hex}
use openpubkey.PkToken.Token.{PkToken, empty_pk_token}
use openpubkey.Cosigner.AuthIdIssuer.{create_auth_id}
use openpubkey.Cosigner.Store.{
  AuthState, AuthClaims, new_auth_state, Store, blocks, returns, new_store, lookup_auth_state,
  update_auth_state, create_new_auth_session, create_authcode, redeem_authcode,
}
use openpubkey.Cosigner.Store.Valid.{IsValid}
use openpubkey.Cosigner.Store.Once.{
  create, issue, here, step, Reaches-new_store-IsValid, redeem_authcode_once,
}
use openpubkey.Cosigner.Store.Held.{create_new_auth_session_held}

abbrev claims_of : Bytes → Result AuthClaims
claims_of payload =
    ok (record { issuer = str "iss"; aud = text (str "aud"); sub = str "me"; email = str "me@x" })

-- a code that forgets its input, so that two sessions collide
abbrev hmac : Bytes → Bytes → Bytes
hmac key bytes = 171 ∷ []

abbrev auth_state : AuthState
auth_state = record {
  pkt = empty_pk_token;
  issuer = str "iss";
  aud = str "aud";
  sub = str "me";
  username = str "me@x";
  display_name = str "me";
  redirect_uri = str "uri";
  nonce = str "n";
  authcode_issued = false;
  authcode_redeemed = false;
}

abbrev with_session : Store
with_session =
    (create_new_auth_session hmac claims_of 7 empty_pk_token (str "uri") (str "n") (new_store [])).1

session_run : with_session ≡ record (new_store []) {
  auth_id_issuer = record { auth_id_iter = 1; hmac_key = [] };
  auth_state_map = (str "ab", auth_state) ∷ [];
}
unfolding create_new_auth_session new_auth_state new_store create_auth_id encode_hex lookup insert
    split
session_run = refl

abbrev with_code : Store
with_code = (create_authcode (ok (18 ∷ [])) (str "ab") with_session).1

code_run : (create_authcode (ok (18 ∷ [])) (str "ab") with_session).0 ≡ returns (ok (str "12"))
unfolding create_authcode create_new_auth_session new_auth_state new_store create_auth_id encode_hex
    lookup insert split eqb
code_run = refl

second_code_run :
    (create_authcode (ok (19 ∷ [])) (str "ab") with_code).0
    ≡ returns (err (msg "authcode already issued for this authID"))
unfolding create_authcode create_new_auth_session new_auth_state new_store create_auth_id encode_hex
    lookup insert split eqb
second_code_run = refl

abbrev redeemed_state : AuthState
redeemed_state = record auth_state { authcode_issued = true; authcode_redeemed = true }

redeem_run : (redeem_authcode (str "12") with_code).0 ≡ returns (ok (redeemed_state, str "ab"))
unfolding redeem_authcode create_authcode create_new_auth_session new_auth_state new_store
    create_auth_id encode_hex lookup insert split eqb
redeem_run = refl

abbrev after : Store
after = (redeem_authcode (str "12") with_code).1

redeem_again :
    (redeem_authcode (str "12") after).0 ≡ returns (err (msg "authcode has already been redeemed"))
unfolding redeem_authcode create_authcode create_new_auth_session new_auth_state new_store
    create_auth_id encode_hex lookup insert split eqb
redeem_again = refl

Reaches-new_store-IsValid_example : IsValid with_code
Reaches-new_store-IsValid_example = Reaches-new_store-IsValid [] with_code (
    step (new_store []) with_session with_code
      (create hmac claims_of 7 empty_pk_token (str "uri") (str "n") (new_store []))
      (step with_session with_code with_code (issue (ok (18 ∷ [])) (str "ab") with_session)
        (here with_code)))

redeem_authcode_once_example :
    (redeem_authcode (str "12") after).0 ≢ returns (ok (redeemed_state, str "ab"))
redeem_authcode_once_example =
    redeem_authcode_once (str "12") with_code after (redeemed_state, str "ab")
      (redeemed_state, str "ab") redeem_run (here after)

made_run : new_auth_state claims_of empty_pk_token (str "uri") (str "n") ≡ ok auth_state
unfolding new_auth_state split
made_run = refl

taken_run :
    lookup (create_auth_id hmac 8 with_code.auth_id_issuer).0 with_code.auth_state_map
    ≡ some (record auth_state { authcode_issued = true })
unfolding create_authcode create_new_auth_session new_auth_state new_store create_auth_id encode_hex
    lookup insert split eqb
taken_run = refl

free_run : with_code.held ≡ false
unfolding create_authcode create_new_auth_session new_auth_state new_store create_auth_id encode_hex
    lookup insert split eqb
free_run = refl

coded_run : lookup (str "12") with_code.auth_code_map ≡ some (str "ab")
unfolding create_authcode create_new_auth_session new_auth_state new_store create_auth_id encode_hex
    lookup insert split eqb
coded_run = refl

-- the store after the second session
abbrev collided : Store
collided =
    (create_new_auth_session hmac claims_of 8 empty_pk_token (str "uri") (str "n") with_code).1

create_new_auth_session_held_example :
    ((create_new_auth_session hmac claims_of 8 empty_pk_token (str "uri") (str "n") with_code).0
      ≡ returns (err (msg "specified authID is already in use")))
    × ((later : ℕ) (q : PkToken) (uri other : Bytes) (b : AuthState)
        → new_auth_state claims_of q uri other ≡ ok b
        → (create_new_auth_session hmac claims_of later q uri other collided).0 ≡ blocks)
    × ((bytes id : Bytes) → (create_authcode (ok bytes) id collided).0 ≡ blocks)
    × ((id : Bytes) → (lookup_auth_state id collided).0 ≡ blocks)
    × ((id : Bytes) (b : AuthState) → (update_auth_state id b collided).0 ≡ blocks)
    × ((redeem_authcode (str "12") collided).0 ≡ blocks)
create_new_auth_session_held_example =
    create_new_auth_session_held hmac claims_of 8 empty_pk_token (str "uri") (str "n") with_code
      auth_state (record auth_state { authcode_issued = true }) (str "12") (str "ab") free_run
      made_run taken_run coded_run
