-- ===== src/Cosigner/AuthCosigner/Redeemed.antt =====
-- When a cosigner signs, and that it does so once for a code.
use openpubkey.Base.{
  ok_inj, Result, ok, err, panic, wrap_err, bind-eq-ok, bind_ok, wrap_err-eq-ok, ◌≡◌, ◌≢◌, refl,
  sym, ◌∙◌, ap, ◌↔◌,
}
use mathlib.Core.Path.{subst}
use openpubkey.Base.Bytes.{Bytes, content}
use openpubkey.PkToken.Jwx.{Message}
use openpubkey.PkToken.SignedMessage.{verify_signed_message}
use openpubkey.Cosigner.Store.{AuthState, Store, Outcome, blocks, returns, redeem_authcode}
use openpubkey.PkToken.SignedMessage.Verified.{IsSignedMessage, verify_signed_message_iff}
use openpubkey.Cosigner.Store.Once.{Reaches, redeem_authcode_once}
use openpubkey.Cosigner.AuthCosigner.{
  AuthCosigner, Env, answer, issue_signature, after_redeem, redeem_message, redeem_signed,
}

returns_inj : {A : Type 0} {r q : Result A} → returns r ≡ returns q → r ≡ q
returns_inj h = cc h

answer-eq-ok :
    {A B : Type 0} (o : Outcome A) (k : A → Result B) {b : B}
    → answer o k ≡ returns (ok b)
    → (a : A) × (o ≡ returns (ok a)) × (k a ≡ ok b)
answer-eq-ok blocks k h = absurd (cc h)
answer-eq-ok (returns r) k h =
    let (a, e, f) = bind-eq-ok r k (returns_inj h) in (a, ap returns e, f)

module _ {Key Signer : Type 0} (env : Env Key Signer) where
  -- The text is a message signed by the client of the session whose code it holds, and the signature
  -- is that of the cosigner on the PK Token of the session.
  pub record IsRedeemedBy (c : AuthCosigner Signer) (sig : Bytes) (s : Store) (signature : Bytes)
      : Type 0 where
    pub message : Message
    pub parsed : env.jwx.parse sig ≡ ok message
    pub state : AuthState
    pub auth_id : Bytes
    pub redeemed : (redeem_authcode (content message.payload) s).0 ≡ returns (ok (state, auth_id))
    pub text : Bytes
    pub client : IsSignedMessage env.jwx env.crypto env.hash state.pkt sig text
    pub issued : issue_signature env c state.pkt state auth_id ≡ ok signature

  redeem_message-eq-ok :
      (c : AuthCosigner Signer) (sig : Bytes) (r : Result Message) (s : Store) (signature : Bytes)
      → (redeem_message env c sig r s).0 ≡ returns (ok signature)
      → (m : Message) × (r ≡ ok m)
        × (answer (redeem_authcode (content m.payload) s).0 (after_redeem env c sig)
            ≡ returns (ok signature))
  unfolding redeem_message
  redeem_message-eq-ok c sig (err e) s signature h = absurd (cc h)
  redeem_message-eq-ok c sig panic s signature h = absurd (cc h)
  redeem_message-eq-ok c sig (ok m) s signature h = (m, refl, h)

  -- A cosigner returns a signature exactly if the text holds a code that the store redeems, and is
  -- signed by the client of that session; it is the signature that is issued for the session.
  pub redeem_signed_iff :
      (c : AuthCosigner Signer) (sig : Bytes) (s : Store) (signature : Bytes)
      → ((redeem_signed env c sig s).0 ≡ returns (ok signature)) ↔ IsRedeemedBy c sig s signature
  unfolding redeem_signed redeem_message
  redeem_signed_iff c sig s signature = (
    λ h.
        let (m, parsed, h1) = redeem_message-eq-ok c sig (env.jwx.parse sig) s signature h in
        let ((a, auth_id), redeemed, h2) =
          answer-eq-ok (redeem_authcode (content m.payload) s).0 (after_redeem env c sig) h1 in
        let (text, verified, issued) =
          bind-eq-ok (wrap_err _ (verify_signed_message env.jwx env.crypto env.hash a.pkt sig)) _
            h2 in
        record {
          message = m;
          parsed = parsed;
          state = a;
          auth_id = auth_id;
          redeemed = redeemed;
          text = text;
          client =
              (verify_signed_message_iff env.jwx env.crypto env.hash a.pkt sig text).0
                (wrap_err-eq-ok _ _ verified);
          issued = issued;
        },
    λ i.
        let verified =
          (verify_signed_message_iff env.jwx env.crypto env.hash i.state.pkt sig i.text).1
            i.client in
        let signed : after_redeem env c sig (i.state, i.auth_id) ≡ ok signature =
          bind_ok (wrap_err _ (verify_signed_message env.jwx env.crypto env.hash i.state.pkt sig)) _
            (ap (wrap_err _) verified) i.issued in
        ap (λ r. (redeem_message env c sig r s).0) i.parsed
        ∙ (ap (λ o. answer o (after_redeem env c sig)) i.redeemed ∙ ap returns signed),
  )

  -- A code of which a cosigner has returned a signature gives no second one, whatever operations the
  -- store has in between, where no update takes back the flags of a session, and whoever signs the
  -- text.
  pub redeem_signed_once :
      (c : AuthCosigner Signer) (sig other : Bytes) (s t : Store) (first second : Bytes)
      (m n : Message)
      → env.jwx.parse sig ≡ ok m
      → env.jwx.parse other ≡ ok n
      → content n.payload ≡ content m.payload
      → (redeem_signed env c sig s).0 ≡ returns (ok first)
      → Reaches (redeem_signed env c sig s).1 t
      → (redeem_signed env c other t).0 ≢ returns (ok second)
  unfolding redeem_signed redeem_message
  redeem_signed_once c sig other s t first second m n parsed parsed_other same h later again =
      let i = (redeem_signed_iff c sig s first).0 h in
      let j = (redeem_signed_iff c other t second).0 again in
      let code_i : content i.message.payload ≡ content m.payload =
        ap (λ (x : Message). content x.payload) (ok_inj (sym i.parsed ∙ parsed)) in
      let code_j : content j.message.payload ≡ content m.payload =
        ap (λ (x : Message). content x.payload) (ok_inj (sym j.parsed ∙ parsed_other)) ∙ same in
      let at_m =
        subst (λ k. (redeem_authcode k s).0 ≡ returns (ok (i.state, i.auth_id))) code_i
          i.redeemed in
      let at_t =
        subst (λ k. (redeem_authcode k t).0 ≡ returns (ok (j.state, j.auth_id))) code_j
          j.redeemed in
      let after : (redeem_signed env c sig s).1 ≡ (redeem_authcode (content m.payload) s).1 =
        ap (λ r. (redeem_message env c sig r s).1) parsed in
      redeem_authcode_once (content m.payload) s t (i.state, i.auth_id) (j.state, j.auth_id) at_m
        (subst (λ u. Reaches u t) after later) at_t
