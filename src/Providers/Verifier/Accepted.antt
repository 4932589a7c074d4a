-- ===== src/Providers/Verifier/Accepted.antt =====
-- What the acceptance of an ID Token says of it, and that nothing else is asked.
use openpubkey.Base.{
  Result, ok, require, wrap_err, bind-eq-ok, bind_ok, require-eq-ok, ◌>>=◌, ◌>>◌, ◌≡◌, ◌≢◌, sym, ap,
  [], some, true, false, ◌||◌, not, if◌then◌else◌, ◌↔◌,
}
use mathlib.Core.Path.{subst}
use openpubkey.Base.Bytes.{Bytes, eqb, nonempty_iff}
use openpubkey.Oidc.Claims.{OidcClaims, ProtectedClaims, parse_protected, parse_claims}
use openpubkey.Oidc.Compact.{split_compact}
use openpubkey.Oidc.Jwt.{Jwt, deref, new_jwt}
use openpubkey.Oidc.Jwt.Laws.{deref-eq-ok}
use openpubkey.PkToken.ClientInstance.{Claims}
use openpubkey.Discover.{gq256}
use openpubkey.Providers.Expiration.{check_expiration}
use openpubkey.Providers.Verifier.{
  DefaultProviderVerifier, Env, check_config, verify_audience, verify_op_sig, verify_commitment,
  verify_id_token,
}
use openpubkey.Providers.Verifier.Options.{
  IsAudience, IsBound, verify_audience_iff, check_config_iff, unless_iff, gq_or_any, ok_raw,
}
use openpubkey.Providers.Verifier.Signature.{IsSigned, verify_op_sig_iff}
use openpubkey.Providers.Verifier.Commitment.{IsCommitted, verify_commitment_iff}

module _ {Key Signer : Type 0} (env : Env Key Signer) where
  -- What a token has to have for the options of a verifier.
  pub record IsAccepted (v : DefaultProviderVerifier) (token : Bytes) (cic : Claims Key)
      : Type 0 where
    pub options : v.commit_type.gq_commitment ≡ true → IsBound v
    pub idt : Jwt
    pub parsed : new_jwt env.json token ≡ ok idt
    pub claims : OidcClaims
    pub claims_given : idt.payload_claims ≡ some claims
    pub protected : ProtectedClaims
    pub protected_given : idt.protected_claims ≡ some protected
    pub fresh : check_expiration env.now v.expiration_policy claims ≡ ok tt
    pub audience : v.skip_client_id_check ≡ false → IsAudience v.client_id claims
    pub alg_given : protected.alg ≢ []
    pub alg_gq : v.gq_only ≡ true → protected.alg ≡ gq256
    pub signed : IsSigned env v token claims protected.alg
    pub committed : IsCommitted env v idt protected cic

  new_jwt-raw : (token : Bytes) (idt : Jwt) → new_jwt env.json token ≡ ok idt → idt.raw ≡ token
  unfolding new_jwt
  new_jwt-raw token idt h =
      let ((protected, payload, signature), _, h1) = bind-eq-ok (split_compact token) _ h in
      let (_, _, h2) = bind-eq-ok (wrap_err _ (parse_protected env.json protected)) _ h1 in
      let (_, _, h3) = bind-eq-ok (wrap_err _ (parse_claims env.json payload)) _ h2 in
      sym (ok_raw h3)

  op_sig_iff :
      (v : DefaultProviderVerifier) (token : Bytes) (idt : Jwt) (claims : OidcClaims)
      (protected : ProtectedClaims)
      → new_jwt env.json token ≡ ok idt
      → (verify_op_sig env v token idt claims protected ≡ ok tt)
        ↔ IsSigned env v token claims protected.alg
  op_sig_iff v token idt claims protected parsed =
      subst
        (λ t.
          (verify_op_sig env v t idt claims protected ≡ ok tt)
          ↔ IsSigned env v t claims protected.alg)
        (new_jwt-raw token idt parsed) (verify_op_sig_iff env v idt claims protected)

  -- the checks that follow the parsing
  abbrev after_claims :
      DefaultProviderVerifier → Bytes → Claims Key → Jwt → OidcClaims → Result (Unit {0})
  after_claims v token cic idt claims = do
    check_expiration env.now v.expiration_policy claims
    if v.skip_client_id_check then ok tt else verify_audience claims v.client_id
    protected ← deref idt.protected_claims
    require (not (eqb protected.alg [])) "provider algorithm type missing"
    require (eqb protected.alg gq256 || not v.gq_only) "non-GQ signatures are not supported"
    verify_op_sig env v token idt claims protected
    verify_commitment env v idt protected cic

  accepted_claims :
      (v : DefaultProviderVerifier) (token : Bytes) (cic : Claims Key) (a : IsAccepted v token cic)
      → after_claims v token cic a.idt a.claims ≡ ok tt
  accepted_claims v token cic a =
      let audience =
        (unless_iff v.skip_client_id_check _ _ (verify_audience_iff a.claims v.client_id)).1
          a.audience in
      let signed = (op_sig_iff v token a.idt a.claims a.protected a.parsed).1 a.signed in
      let committed = (verify_commitment_iff env v a.idt a.protected cic).1 a.committed in
      bind_ok (check_expiration env.now v.expiration_policy a.claims) _ a.fresh (
        bind_ok _ _ audience (
          bind_ok (deref a.idt.protected_claims) _ (ap deref a.protected_given) (
            rw ((nonempty_iff _).1 a.alg_given, (gq_or_any _ _).1 a.alg_gq)
              (bind_ok (verify_op_sig env v token a.idt a.claims a.protected) _ signed committed))))

  -- The verifier of a provider accepts an ID Token for the claims of a client exactly if the options
  -- agree with one another, the token parses to claims that have not expired and, unless that check
  -- is skipped, name the client in the audience; its algorithm is given, and is GQ256 where only that
  -- is allowed; under GQ256 and RS256 it is signed with the issuer's key; and it carries the hash of
  -- the client's claims.
  pub verify_id_token_iff :
      (v : DefaultProviderVerifier) (token : Bytes) (cic : Claims Key)
      → (verify_id_token env v token cic ≡ ok tt) ↔ IsAccepted v token cic
  unfolding verify_id_token
  verify_id_token_iff v token cic = (
    λ h.
        let (_, options, h1) = bind-eq-ok (check_config v) _ h in
        let (idt, parsed, h2) = bind-eq-ok (new_jwt env.json token) _ h1 in
        let (claims, given, h3) = bind-eq-ok (deref idt.payload_claims) _ h2 in
        let (_, fresh, h4) =
          bind-eq-ok (check_expiration env.now v.expiration_policy claims) _ h3 in
        let (_, audience, h5) =
          bind-eq-ok (if v.skip_client_id_check then ok tt else verify_audience claims v.client_id)
            _ h4 in
        let (protected, headers, h6) = bind-eq-ok (deref idt.protected_claims) _ h5 in
        let (_, alg, h7) = bind-eq-ok (require (not (eqb protected.alg [])) _) _ h6 in
        let (_, gq, h8) = bind-eq-ok (require (eqb protected.alg gq256 || not v.gq_only) _) _ h7 in
        let (_, signed, h9) = bind-eq-ok (verify_op_sig env v token idt claims protected) _ h8 in
        record {
          options = (check_config_iff v).0 options;
          idt = idt;
          parsed = parsed;
          claims = claims;
          claims_given = deref-eq-ok _ given;
          protected = protected;
          protected_given = deref-eq-ok _ headers;
          fresh = fresh;
          audience = (unless_iff _ _ _ (verify_audience_iff claims v.client_id)).0 audience;
          alg_given = (nonempty_iff _).0 (require-eq-ok _ _ alg);
          alg_gq = (gq_or_any _ _).0 (require-eq-ok _ _ gq);
          signed = (op_sig_iff v token idt claims protected parsed).0 signed;
          committed = (verify_commitment_iff env v idt protected cic).0 h9;
        },
    λ a. bind_ok (check_config v) _ ((check_config_iff v).1 a.options) (
        bind_ok (new_jwt env.json token) _ a.parsed (
          bind_ok (deref a.idt.payload_claims) _ (ap deref a.claims_given)
            (accepted_claims v token cic a))),
  )
