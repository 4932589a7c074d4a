-- ===== src/Client/Opk/Stored.antt =====
-- `Auth` of client/client.go: which PK Token a client keeps.
use openpubkey.Base.{
  ok_inj, Error, msg, Result, ok, err, panic, wrap_err, bind-eq-ok, wrap_err-eq-ok, continue,
  continue_cases, ◌≡◌, ◌≢◌, refl, sym, ◌∙◌, ap, List, [], Option, none, some, Bool, true, false,
  if◌then◌else◌,
}
use mathlib.Core.Path.{subst}
use openpubkey.Base.Bytes.{Bytes}
use openpubkey.Client.Opk.{
  OpkClient, ClientEnv, pk_token_of, client_claims, oidc_auth, apply_setup, keep, auth_with, auth,
}
use openpubkey.Client.Request.{CosignerProvider, request_token}
use openpubkey.Oidc.Claims.{Any}
use openpubkey.PkToken.ClientInstance.{Claims, claims_sign}
use openpubkey.PkToken.Serial.{deep_copy}
use openpubkey.PkToken.Token.{PkToken, new_pk_token}
use openpubkey.Verifier.{Verifier, new_verifier, verify_pk_token}

module _ {Key Signer : Type 0} (env : ClientEnv Key Signer) (o : OpkClient Key Signer) where
  abbrev pub Outcome : Type 0
  Outcome = Result PkToken × OpkClient Key Signer

  -- VerifyPKToken accepts the PK Token, with the verifier of the client's provider and no other check.
  abbrev pub IsVerified : PkToken → Type 0
  IsVerified p =
      (v : Verifier Key) × (new_verifier o.op.verifier [] ≡ ok v)
      × (verify_pk_token env.reader v p [] ≡ ok tt)

  abbrev pub IsFailed : Result PkToken → Type 0
  IsFailed r = (p : PkToken) → r ≢ ok p

  no_err : (e : Error) → IsFailed (err e)
  no_err e p h = absurd (cc h)

  no_panic : IsFailed panic
  no_panic p h = absurd (cc h)

  pub data Authenticated (x : Outcome) : Type 0 where
    failed : IsFailed x.0 → x.1.pk_token ≡ o.pk_token → Authenticated x
    verified :
        (p : PkToken)
        → o.cos_p ≡ none
        → IsVerified p
        → x.0 ≡ deep_copy env.json p
        → x.1.pk_token ≡ some p
        → Authenticated x
    cosigned :
        (c : CosignerProvider) (p q : PkToken)
        → o.cos_p ≡ some c
        → IsVerified p
        → (request_token env.world c o.signer p).0 ≡ ok q
        → x.0 ≡ deep_copy env.json q
        → x.1.pk_token ≡ some q
        → Authenticated x

  pk_token_of-IsVerified :
      (o1 : OpkClient Key Signer) (cic : Claims Key) (id_token : Bytes) {p : PkToken}
      → o1.op ≡ o.op
      → pk_token_of env o1 cic id_token ≡ ok p
      → IsVerified p
  unfolding pk_token_of
  pk_token_of-IsVerified o1 cic id_token {p} same h =
      let (t, _, h1) =
        bind-eq-ok
          (wrap_err _ (claims_sign env.reader.jwx env.reader.crypto cic o1.signer o1.alg id_token))
          _ h in
      let (q, _, h2) = bind-eq-ok (wrap_err _ (new_pk_token env.reader.jwx id_token t)) _ h1 in
      let (v, made, h3) = bind-eq-ok (new_verifier o1.op.verifier []) _ h2 in
      let (_, checked, h4) = bind-eq-ok (wrap_err _ (verify_pk_token env.reader v q [])) _ h3 in
      subst IsVerified (ok_inj h4)
        (v, ap (λ op. new_verifier op.verifier []) (sym same) ∙ made, wrap_err-eq-ok _ _ checked)

  -- What `oidcAuth` leaves of the client, and the PK Token that it gives.
  record Asked (x : Outcome) : Type 0 where
    kept : x.1.pk_token ≡ o.pk_token
    op_kept : x.1.op ≡ o.op
    signer_kept : x.1.signer ≡ o.signer
    given : (p : PkToken) → x.0 ≡ ok p → IsVerified p

  oidc_auth-Asked : (extra : List (Bytes × Any)) → Asked (oidc_auth env o extra)
  unfolding oidc_auth
  oidc_auth-Asked extra =
      continue_cases Asked (client_claims env o extra) o _ (λ e. stop (err e) (no_err e))
        (stop panic no_panic)
        λ cic made.
          continue_cases Asked (wrap_err _ (o.op.request_tokens cic)) o _
            (λ e. stop (err e) (no_err e)) (stop panic no_panic)
            λ tokens received. record {
              kept = refl;
              op_kept = refl;
              signer_kept = refl;
              given = λ p h. pk_token_of-IsVerified o cic tokens.id_token refl h;
            }
    where
      stop : (r : Result PkToken) → IsFailed r → Asked (r, o)
      stop r bad = record {
        kept = refl;
        op_kept = refl;
        signer_kept = refl;
        given = λ p h. absurd (bad p h);
      }

  kept-Authenticated :
      (x : Outcome) → Asked x → o.cos_p ≡ none → Authenticated (continue x (keep env))
  unfolding keep
  kept-Authenticated (err e, o1) a none_set = failed (no_err e) a.kept
  kept-Authenticated (panic, o1) a none_set = failed no_panic a.kept
  kept-Authenticated (ok p, o1) a none_set = verified p none_set (a.given p refl) refl refl

  cosigned-Authenticated :
      (c : CosignerProvider) (x : Outcome)
      → Asked x
      → o.cos_p ≡ some c
      → Authenticated (
          continue x
            λ pkt o1. continue ((request_token env.world c o1.signer pkt).0, o1) (keep env))
  unfolding keep
  cosigned-Authenticated c (err e, o1) a set = failed (no_err e) a.kept
  cosigned-Authenticated c (panic, o1) a set = failed no_panic a.kept
  cosigned-Authenticated c (ok p, o1) a set =
      continue_cases Authenticated (request_token env.world c o1.signer p).0 o1 (keep env)
        (λ e. failed (no_err e) a.kept) (failed no_panic a.kept)
        λ q cosigned_by.
          cosigned c p q set (a.given p refl)
            (ap (λ signer. (request_token env.world c signer p).0) (sym a.signer_kept)
              ∙ cosigned_by)
            refl refl

  on_both :
      (b : Bool) {x y : Outcome}
      → Authenticated x
      → Authenticated y
      → Authenticated (if b then x else y)
  on_both true h k = h
  on_both false h k = k

  auth_with-Authenticated :
      (cos_p : Option CosignerProvider) (extra : List (Bytes × Any))
      → o.cos_p ≡ cos_p
      → Authenticated (auth_with env cos_p o extra)
  unfolding auth_with
  auth_with-Authenticated none extra e =
      kept-Authenticated (oidc_auth env o extra) (oidc_auth-Asked extra) e
  auth_with-Authenticated (some c) extra e =
      on_both o.op.is_browser
        (cosigned-Authenticated c (oidc_auth env o extra) (oidc_auth-Asked extra) e)
        (failed (no_err (msg "OP supplied does not have support for MFA Cosigner")) refl)

  -- Auth fails and leaves the client's PK Token as it was; or it keeps a PK Token that VerifyPKToken
  -- accepts with the verifier of the client's provider; or, where the client has a cosigner, it
  -- keeps what RequestToken of that cosigner makes of such a PK Token with the client's signer. In
  -- the last two cases it returns a copy of what it keeps, or the error of the copy.
  pub auth-Authenticated :
      (opts : List (List (Bytes × Any) → List (Bytes × Any))) → Authenticated (auth env o opts)
  unfolding auth
  auth-Authenticated opts = auth_with-Authenticated o.cos_p (apply_setup opts []) refl
