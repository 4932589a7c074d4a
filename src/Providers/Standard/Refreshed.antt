-- ===== src/Providers/Standard/Refreshed.antt =====
-- What a refreshed ID Token has to be, and that a client keeps a refresh token.
use openpubkey.Base.{
  ok_inj, ℕ, ok, wrap_err, bind-eq-ok, wrap_err-eq-ok, ◌≡◌, ◌≢◌, refl, sym, ◌∙◌, ap, List, [],
  Bool-cases, inl, inr, ◌↔◌,
}
use mathlib.Core.Path.{subst}
use openpubkey.Client.Opk.{OpkClient, ClientEnv, refresh}
use openpubkey.Client.Opk.Kept.{IsGiven, Renews, refresh-IsGiven}
use openpubkey.Providers.GqToken.{GqEnv}
use openpubkey.Base.Assoc.{some_inj}
use openpubkey.Base.Bytes.{Bytes, eqb, empty_iff}
use openpubkey.Oidc.Jwt.{same_identity, require_older}
use openpubkey.Discover.{PublicKeyFinder}
use openpubkey.Providers.Verifier.{Env}
use openpubkey.Providers.Standard.{
  StandardOp, RpTokens, RelyingParty, keep_refresh_token, refresh_tokens, verify_refreshed_id_token,
  standard_provider,
}

-- A refresh never gives an empty refresh token where the one that was sent is not empty.
keep_refresh_token-keeps :
    (r : Bytes) (t : RpTokens) → r ≢ [] → (keep_refresh_token r t).refresh_token ≢ []
unfolding keep_refresh_token
keep_refresh_token-keeps r t given = elim (Bool-cases (eqb t.refresh_token [])) [
  | inl e ↦ rw e given
  | inr e ↦ rw e ((empty_iff _).0 e)
]

module _ {H Key Signer P : Type 0} (gq : GqEnv H Key) (env : Env Key Signer) (rp : RelyingParty P)
    (finder : PublicKeyFinder) where
  refresh_tokens-Renews : (s : StandardOp) → Renews (refresh_tokens gq env rp finder s)
  unfolding refresh_tokens
  refresh_tokens-Renews s r given t h =
      let (_, _, h1) = bind-eq-ok rp.cookie_handler _ h in
      let (party, _, h2) = bind-eq-ok (wrap_err _ (rp.refresher _ _ _ _)) _ h1 in
      let (ret, _, h3) = bind-eq-ok (rp.refresh_tokens party r) _ h2 in
      subst (λ q. IsGiven q.refresh_token) (ok_inj h3)
        ((keep_refresh_token r ret).refresh_token, refl, keep_refresh_token-keeps r ret given)

  -- A client of a StandardOp that has a refresh token which is not empty has such a token after
  -- Refresh, whether Refresh succeeds or fails, also where the provider does not rotate its tokens.
  pub refresh-standard_provider :
      (client : ClientEnv Key Signer) (s : StandardOp) (reader : List ℕ) (o : OpkClient Key Signer)
      → o.op ≡ standard_provider gq env rp finder s reader
      → IsGiven o.refresh_token
      → IsGiven (refresh client o).1.refresh_token
  unfolding standard_provider
  refresh-standard_provider client s reader o is_standard given =
      refresh-IsGiven client o
        (λ g same.
          subst Renews (some_inj (ap (λ op. op.refresh_tokens) (sym is_standard) ∙ same))
            (refresh_tokens-Renews s))
        given

  -- A StandardOp accepts a refreshed ID Token exactly if it parses to claims of the issuer and the
  -- subject of the original one, was not issued before it, and the relying party accepts it.
  verify_refreshed_id_token_iff :
      (s : StandardOp) (orig_idt re_idt : Bytes)
      → (verify_refreshed_id_token gq env rp finder s orig_idt re_idt ≡ ok tt) ↔ (
          (same_identity env.json orig_idt re_idt ≡ ok tt)
          × (require_older env.json orig_idt re_idt ≡ ok tt)
          × ((party : P) × (rp.checker s.issuer s.client_id s.client_secret s.scopes ≡ ok party)
              × (rp.verify_id_token party re_idt ≡ ok tt)))
  unfolding verify_refreshed_id_token
  verify_refreshed_id_token_iff s orig_idt re_idt = (
    λ h.
        let (_, same, h1) = bind-eq-ok (wrap_err _ (same_identity env.json orig_idt re_idt)) _ h in
        let (_, older, h2) =
          bind-eq-ok (wrap_err _ (require_older env.json orig_idt re_idt)) _ h1 in
        let (party, made, accepts) = bind-eq-ok (wrap_err _ (rp.checker _ _ _ _)) _ h2 in
        (
          wrap_err-eq-ok _ _ same,
          wrap_err-eq-ok _ _ older,
          (party, wrap_err-eq-ok _ _ made, accepts),
        ),
    λ (same, older, (party, made, accepts)). rw (same, older, made) accepts,
  )
