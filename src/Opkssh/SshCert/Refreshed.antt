-- ===== src/Opkssh/SshCert/Refreshed.antt =====
-- What `verifyPKToken` of opkssh/sshcert/sshcert.go asks of a refreshed ID Token.
use openpubkey.Base.{
  ok_inj, Result, ok, wrap_err, bind-eq-ok, bind_ok, ◌≡◌, refl, sym, ◌∙◌, ap, [], ◌∷◌, some, Bool,
  true, false, if◌then◌else◌,
}
use openpubkey.Base.Bytes.{Bytes, content}
use openpubkey.Base.Int.{ℤ}
use openpubkey.Providers.Expiration.{after_unix}
use openpubkey.Opkssh.SshCert.{SshEnv, Config, OidcProvider, verify_fresh, verify_ssh_pk_token}
use openpubkey.PkToken.Token.{PkToken}
use openpubkey.Verifier.{
  ProviderVerifier, Verifier, Reader, new_verifier, verify_pk_token, verify_cic_signature, issuer,
}
use openpubkey.PkToken.Cic.{get_cic_values}

-- the PK Token with another refreshed ID Token
abbrev pub with_fresh : Bytes → PkToken → PkToken
with_fresh other p = record p { fresh_id_token = some other }

-- the verifier that `New` makes of a provider alone
abbrev sole_verifier : {Key : Type 0} → ProviderVerifier Key → Verifier Key
sole_verifier w = record {
  providers = (w.issuer, w) ∷ [];
  cosigners = [];
  require_refreshed_id_token = false;
}

-- Such a verifier does not look at the refreshed ID Token.
verify_pk_token-with_fresh :
    {Key Signer : Type 0} (r : Reader Key Signer) (w : ProviderVerifier Key) (p : PkToken)
    (other : Bytes)
    → verify_pk_token r (sole_verifier w) (with_fresh other p) []
      ≡ verify_pk_token r (sole_verifier w) p []
unfolding verify_pk_token verify_cic_signature issuer get_cic_values
verify_pk_token-with_fresh r w p other = refl

either_way : (b : Bool) {r : Result (Unit {0})} → r ≡ ok tt → (if b then r else ok tt) ≡ ok tt
either_way true h = h
either_way false h = refl

module _ {Key Signer SshKey SshSigner : Type 0} (env : SshEnv Key Signer SshKey SshSigner) where
  -- verifyPKToken of sshcert accepts a PK Token that it accepts with any other refreshed ID Token in
  -- place of its own, provided that go-oidc verifies the other for the issuer and the client: whose
  -- identity it has is not asked.
  pub verify_ssh_pk_token-with_fresh :
      (config : Config) (p : PkToken) (other : Bytes) {provider : OidcProvider} {expiry : ℤ}
      → env.new_provider config.issuer ≡ ok provider
      → provider.verify config.client_id false other ≡ ok expiry
      → verify_ssh_pk_token env config p ≡ ok tt
      → verify_ssh_pk_token env config (with_fresh other p) ≡ ok tt
  unfolding verify_ssh_pk_token verify_fresh new_verifier
  verify_ssh_pk_token-with_fresh config p other {provider} made verified h =
      let (found, opened, h1) = bind-eq-ok (env.new_provider config.issuer) _ h in
      let same : found ≡ provider = ok_inj (sym opened ∙ made) in
      let (expiry, checked, h2) =
        bind-eq-ok (wrap_err _ (found.verify config.client_id true (content p.op_token))) _ h1 in
      let (_, fresh, h3) =
        bind-eq-ok
          (if after_unix env.now expiry
            then verify_fresh env found config p.fresh_id_token
            else ok tt)
          _ h2 in
      bind_ok (env.new_provider config.issuer) _ opened (
        bind_ok (wrap_err _ (found.verify config.client_id true (content p.op_token))) _ checked (
          bind_ok
            (if after_unix env.now expiry
              then verify_fresh env found config (some other)
              else ok tt)
            _
            (either_way (after_unix env.now expiry)
              (ap (λ o. verify_fresh env o config (some other)) same ∙ taken))
            (ap (wrap_err _) (verify_pk_token-with_fresh env.reader (env.google_op config) p other)
              ∙ h3)))
    where
      taken : verify_fresh env provider config (some other) ≡ ok tt
      taken = bind_ok (provider.verify config.client_id false other) _ verified refl
