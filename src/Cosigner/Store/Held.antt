-- ===== src/Cosigner/Store/Held.antt =====
-- What an identifier that is in use does to a store.
use openpubkey.Base.{ℕ, msg, Result, ok, err, ◌≡◌, refl, some, false}
use openpubkey.Base.Bytes.{Bytes}
use openpubkey.Base.Assoc.{lookup}
use openpubkey.PkToken.Token.{PkToken}
use openpubkey.Cosigner.AuthIdIssuer.{create_auth_id}
use openpubkey.Cosigner.Store.{
  AuthState, AuthClaims, new_auth_state, Store, blocks, returns, unless_held, lookup_auth_state,
  update_auth_state, add_session, new_session, create_new_auth_session, create_authcode,
  redeem_found, redeem_authcode,
}

-- Where `CreateNewAuthSession` draws an identifier that is in use it returns an error and keeps the
-- write lock. After that these calls block: the making of a session for any PK Token whose claims can
-- be read, the issue of a code where random bytes are given, the reading and the update of any
-- session, and the redemption of a code that is in the store.
pub create_new_auth_session_held :
    (hmac : Bytes → Bytes → Bytes) (unmarshal : Bytes → Result AuthClaims) (now : ℕ) (p : PkToken)
    (ruri nonce : Bytes) (s : Store) (a used : AuthState) (code id : Bytes)
    → s.held ≡ false
    → new_auth_state unmarshal p ruri nonce ≡ ok a
    → lookup (create_auth_id hmac now s.auth_id_issuer).0 s.auth_state_map ≡ some used
    → lookup code s.auth_code_map ≡ some id
    → let t = (create_new_auth_session hmac unmarshal now p ruri nonce s).1 in
      ((create_new_auth_session hmac unmarshal now p ruri nonce s).0
        ≡ returns (err (msg "specified authID is already in use")))
      × ((later : ℕ) (q : PkToken) (uri other : Bytes) (b : AuthState)
          → new_auth_state unmarshal q uri other ≡ ok b
          → (create_new_auth_session hmac unmarshal later q uri other t).0 ≡ blocks)
      × ((bytes id : Bytes) → (create_authcode (ok bytes) id t).0 ≡ blocks)
      × ((id : Bytes) → (lookup_auth_state id t).0 ≡ blocks)
      × ((id : Bytes) (b : AuthState) → (update_auth_state id b t).0 ≡ blocks)
      × ((redeem_authcode code t).0 ≡ blocks)
unfolding create_new_auth_session new_session add_session unless_held create_authcode
    lookup_auth_state update_auth_state redeem_authcode redeem_found
create_new_auth_session_held hmac unmarshal now p ruri nonce s a used code id free made taken
      coded =
    rw (made, free, taken)
      (
        refl,
        λ later q uri other b read. rw read refl,
        λ bytes id. refl,
        λ id. refl,
        λ id b. refl,
        rw coded refl,
      )
