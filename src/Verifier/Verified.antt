-- ===== src/Verifier/Verified.antt =====
-- What the acceptance of a PK Token says of it, and that nothing else is asked.
use openpubkey.Base.{
  Result, ok, wrap_err, bind-eq-ok, bind_ok, wrap_err-eq-ok, ◌≡◌, ◌≢◌, refl, ap, List, [], ◌∷◌,
  none, some, true, All, Bool-cases, inl, inr, ◌↔◌,
}
use openpubkey.Base.Bytes.{Bytes, content}
use openpubkey.Base.Assoc.{lookup}
use openpubkey.PkToken.Jwx.{JwsSignature}
use openpubkey.PkToken.ClientInstance.{Claims}
use openpubkey.PkToken.Token.{PkToken}
use openpubkey.PkToken.Cic.{get_cic_values}
use openpubkey.Verifier.{
  ProviderVerifier, Verifier, Reader, found, issuer, verify_cic_signature, verify_refreshed,
  verify_cosigners, run_checks, verify_pk_token,
}
use openpubkey.Verifier.Cosigned.{found-eq-ok, IsLax, IsCosigned, verify_cosigners_iff}

module _ {Key Signer : Type 0} (r : Reader Key Signer) where
  -- the client's signature verifies with the key in its own headers
  pub record IsClientSigned (p : PkToken) (cic : Claims Key) : Type 0 where
    pub values : get_cic_values r.jwx r.crypto p ≡ ok cic
    pub signed :
        r.jwx.verify (content p.cic_token) (r.jwx.key_algorithm cic.public_key) cic.public_key
        ≡ ok tt

  client_signed :
      (p : PkToken) (cic : Claims Key)
      → get_cic_values r.jwx r.crypto p ≡ ok cic
      → verify_cic_signature r p ≡ ok tt
      → r.jwx.verify (content p.cic_token) (r.jwx.key_algorithm cic.public_key) cic.public_key
        ≡ ok tt
  unfolding verify_cic_signature
  client_signed p cic values h = rw values at h

  signed_client :
      (p : PkToken) (cic : Claims Key) → IsClientSigned p cic → verify_cic_signature r p ≡ ok tt
  unfolding verify_cic_signature
  signed_client p cic i = bind_ok (get_cic_values r.jwx r.crypto p) _ i.values i.signed

  -- the provider's verifier accepts the refreshed ID Token
  pub record IsRefreshed (w : ProviderVerifier Key) (p : PkToken) : Type 0 where
    pub verify : Bytes → Bytes → Result (Unit {0})
    pub supported : w.verify_refreshed_id_token ≡ some verify
    pub fresh : Bytes
    pub given : p.fresh_id_token ≡ some fresh
    pub accepted : verify (content p.op_token) fresh ≡ ok tt

  verify_refreshed_iff :
      (v : Verifier Key) (w : ProviderVerifier Key) (p : PkToken)
      → (verify_refreshed r v w p ≡ ok tt) ↔ (v.require_refreshed_id_token ≡ true → IsRefreshed w p)
  unfolding verify_refreshed
  verify_refreshed_iff v w p = elim (Bool-cases v.require_refreshed_id_token) [
    | inl e ↦ (
      λ h0 _.
          let h = rw e at h0 in
          let (verify, supported, h1) = bind-eq-ok (found _ w.verify_refreshed_id_token) _ h in
          let (fresh, given, h2) = bind-eq-ok (found _ p.fresh_id_token) _ h1 in
          record {
            verify = verify;
            supported = found-eq-ok _ _ supported;
            fresh = fresh;
            given = found-eq-ok _ _ given;
            accepted = h2;
          },
      λ f. let i = f e in rw (e, i.supported, i.given) i.accepted,
    )
    | inr e ↦ (λ h t. absurd (cc (e, t)), λ f. rw e refl)
  ]

  run_checks_iff :
      (checks : List (Verifier Key → PkToken → Result (Unit {0}))) (v : Verifier Key) (p : PkToken)
      → (run_checks r checks v p ≡ ok tt) ↔ All (λ check. check v p ≡ ok tt) checks
  unfolding run_checks
  run_checks_iff [] v p = (λ h. tt, λ h. refl)
  run_checks_iff (check ∷ checks) v p = (
    λ h.
        let (_, first, h1) = bind-eq-ok (check v p) _ h in
        (first, (run_checks_iff checks v p).0 h1),
    λ (first, rest). bind_ok (check v p) _ first ((run_checks_iff checks v p).1 rest),
  )

  pub record IsVerified (v : Verifier Key) (p : PkToken)
      (checks : List (Verifier Key → PkToken → Result (Unit {0}))) : Type 0 where
    pub cic : Claims Key
    pub client : IsClientSigned p cic
    pub iss : Bytes
    pub issued : issuer r p ≡ ok iss
    pub provider : ProviderVerifier Key
    pub known : lookup iss v.providers ≡ some provider
    pub id_token : provider.verify_id_token (content p.op_token) cic ≡ ok tt
    pub refreshed : v.require_refreshed_id_token ≡ true → IsRefreshed provider p
    pub not_cosigned : p.cos ≡ none → All (IsLax none) v.cosigners
    pub cosigned : (s : JwsSignature) → p.cos ≡ some s → v.cosigners ≢ [] → IsCosigned r v p
    pub checked : All (λ check. check v p ≡ ok tt) checks

  -- A PK Token is accepted exactly if the client's signature verifies with the key in its headers;
  -- the verifier of the issuer in the payload is known and accepts the ID Token for the client's
  -- claims, and the refreshed one where that is required; a PK Token without a cosigner's signature
  -- meets no strict cosigner, and where there is a signature and cosigners are known, its cosigner
  -- accepts it and no other is strict; and each further check passes.
  pub verify_pk_token_iff :
      (v : Verifier Key) (p : PkToken) (checks : List (Verifier Key → PkToken → Result (Unit {0})))
      → (verify_pk_token r v p checks ≡ ok tt) ↔ IsVerified v p checks
  unfolding verify_pk_token
  verify_pk_token_iff v p checks = (
    λ h.
        let (_, client, h1) = bind-eq-ok (wrap_err _ (verify_cic_signature r p)) _ h in
        let (iss, issued, h2) = bind-eq-ok (issuer r p) _ h1 in
        let (w, known, h3) = bind-eq-ok (found _ (lookup iss v.providers)) _ h2 in
        let (cic, values, h4) = bind-eq-ok (get_cic_values r.jwx r.crypto p) _ h3 in
        let (_, id_token, h5) = bind-eq-ok (w.verify_id_token (content p.op_token) cic) _ h4 in
        let (_, refreshed, h6) = bind-eq-ok (verify_refreshed r v w p) _ h5 in
        let (_, cosigned, h7) = bind-eq-ok (verify_cosigners r v p) _ h6 in
        let (none_signed, one_signed) = (verify_cosigners_iff r v p).0 cosigned in
        record {
          cic = cic;
          client = record {
            values = values;
            signed = client_signed p cic values (wrap_err-eq-ok _ _ client);
          };
          iss = iss;
          issued = issued;
          provider = w;
          known = found-eq-ok _ _ known;
          id_token = id_token;
          refreshed = (verify_refreshed_iff v w p).0 refreshed;
          not_cosigned = none_signed;
          cosigned = one_signed;
          checked = (run_checks_iff checks v p).0 h7;
        },
    λ i.
        let signed : verify_cic_signature r p ≡ ok tt = signed_client p i.cic i.client in
        bind_ok (wrap_err _ (verify_cic_signature r p)) _ (ap (wrap_err _) signed) (
          bind_ok (issuer r p) _ i.issued (
            bind_ok (found _ (lookup i.iss v.providers)) _ (ap (found _) i.known) (
              bind_ok (get_cic_values r.jwx r.crypto p) _ i.client.values (
                bind_ok (i.provider.verify_id_token (content p.op_token) i.cic) _ i.id_token (
                  bind_ok (verify_refreshed r v i.provider p) _
                    ((verify_refreshed_iff v i.provider p).1 i.refreshed)
                    (bind_ok (verify_cosigners r v p) _
                      ((verify_cosigners_iff r v p).1 (i.not_cosigned, i.cosigned))
                      ((run_checks_iff checks v p).1 i.checked))))))),
  )
