-- ===== src/Providers/Verifier/Signature.antt =====
-- What the tests of the provider's signature say.
use openpubkey.Base.{
  ℕ, String, ok, require, wrap_err, bind-eq-ok, wrap_err-eq-ok, require-eq-ok, ◌≡◌, ◌≢◌, refl, sym,
  ◌∙◌, ap, [], true, not, Bool-cases, inl, inr, ◌↔◌,
}
use openpubkey.Base.Bytes.{Bytes, eqb, eqb_iff, nonempty_iff}
use openpubkey.Oidc.Claims.{OidcClaims, ProtectedClaims}
use openpubkey.Oidc.Jwt.{Jwt}
use openpubkey.PkToken.Jwx.{Headers}
use openpubkey.Discover.{PublicKey, rsa, ecdsa, PublicKeyRecord, by_token, gq256, rs256}
use openpubkey.Providers.Verifier.{
  DefaultProviderVerifier, Env, as_rsa, original_token_headers, verify_gq_sig, verify_rsa_sig,
  verify_op_sig,
}

pub gq256_not_rs256 : gq256 ≢ rs256
unfolding eqb
gq256_not_rs256 h = cc ((eqb_iff gq256 rs256).1 h)

as_rsa-eq-ok : (e : String) (k : PublicKey) (n v : ℕ) → as_rsa e k ≡ ok (n, v) → k ≡ rsa n v
as_rsa-eq-ok e (rsa m w) n v h =
    let pair : ◌≡◌ {A = ℕ × ℕ} (m, w) (n, v) = cc h in ap (λ (q : ℕ × ℕ). rsa q.0 q.1) pair
as_rsa-eq-ok e (ecdsa x y) n v h = cc h

module _ {Key Signer : Type 0} (env : Env Key Signer) where
  -- The issuer's RSA key that the token names.
  abbrev pub HasKey : DefaultProviderVerifier → Bytes → ℕ → ℕ → Type 0
  HasKey v token n e =
      (r : PublicKeyRecord) × (by_token env.jwx v.discover_public_key v.issuer token ≡ ok r)
      × (r.public_key ≡ rsa n e)

  pub record IsGqSigned (v : DefaultProviderVerifier) (token : Bytes) (claims : OidcClaims)
      : Type 0 where
    pub headers : Headers
    pub original : original_token_headers env token ≡ ok headers
    pub original_alg : headers.algorithm ≡ rs256
    pub issuer_given : claims.issuer ≢ []
    pub issuer_same : claims.issuer ≡ v.issuer
    pub modulus : ℕ
    pub exponent : ℕ
    pub key : HasKey v token modulus exponent
    pub signed : env.gq256_verify_jwt modulus exponent token ≡ ok true

  pub record IsRsaSigned (v : DefaultProviderVerifier) (token : Bytes) : Type 0 where
    pub modulus : ℕ
    pub exponent : ℕ
    pub key : HasKey v token modulus exponent
    pub signed : env.verify token rs256 (rsa modulus exponent) ≡ ok tt

  verify_gq_sig_iff :
      (v : DefaultProviderVerifier) (idt : Jwt) (claims : OidcClaims) (protected : ProtectedClaims)
      → protected.alg ≡ gq256
      → (verify_gq_sig env v idt claims protected ≡ ok tt) ↔ IsGqSigned v idt.raw claims
  unfolding verify_gq_sig eqb
  verify_gq_sig_iff v idt claims protected alg = (
    λ h.
        let (_, _, h1) = bind-eq-ok (require (not (eqb protected.alg [])) _) _ h in
        let (_, _, h2) = bind-eq-ok (require (eqb protected.alg gq256) _) _ h1 in
        let (headers, original, h3) =
          bind-eq-ok (wrap_err _ (original_token_headers env idt.raw)) _ h2 in
        let (_, original_alg, h4) = bind-eq-ok (require (eqb headers.algorithm rs256) _) _ h3 in
        let (_, given, h5) = bind-eq-ok (require (not (eqb claims.issuer [])) _) _ h4 in
        let (_, same, h6) = bind-eq-ok (require (eqb claims.issuer v.issuer) _) _ h5 in
        let (r, found, h7) =
          bind-eq-ok (wrap_err _ (by_token env.jwx v.discover_public_key v.issuer idt.raw)) _ h6 in
        let ((n, e), is_rsa, h8) = bind-eq-ok (as_rsa _ r.public_key) _ h7 in
        let (valid, checked, h9) = bind-eq-ok (env.gq256_verify_jwt n e idt.raw) _ h8 in
        record {
          headers = headers;
          original = wrap_err-eq-ok _ _ original;
          original_alg = (eqb_iff _ _).0 (require-eq-ok _ _ original_alg);
          issuer_given = (nonempty_iff _).0 (require-eq-ok _ _ given);
          issuer_same = (eqb_iff _ _).0 (require-eq-ok _ _ same);
          modulus = n;
          exponent = e;
          key = (r, wrap_err-eq-ok _ _ found, as_rsa-eq-ok _ _ n e is_rsa);
          signed = checked ∙ ap ok (require-eq-ok _ _ h9);
        },
    λ g.
        let (r, found, is_rsa) = g.key in
        rw
          (
            alg,
            g.original,
            (eqb_iff _ _).1 g.original_alg,
            (nonempty_iff _).1 g.issuer_given,
            (eqb_iff _ _).1 g.issuer_same,
            found,
            is_rsa,
            g.signed,
          )
          refl,
  )

  verify_rsa_sig_iff :
      (v : DefaultProviderVerifier) (token : Bytes)
      → (verify_rsa_sig env v token ≡ ok tt) ↔ IsRsaSigned v token
  unfolding verify_rsa_sig
  verify_rsa_sig_iff v token = (
    λ h.
        let (r, found, h1) =
          bind-eq-ok (wrap_err _ (by_token env.jwx v.discover_public_key v.issuer token)) _ h in
        let ((n, e), is_rsa, h2) = bind-eq-ok (as_rsa _ r.public_key) _ h1 in
        let same = as_rsa-eq-ok _ _ n e is_rsa in
        record {
          modulus = n;
          exponent = e;
          key = (r, wrap_err-eq-ok _ _ found, same);
          signed = ap (λ k. env.verify token rs256 k) (sym same) ∙ h2;
        },
    λ s. let (r, found, is_rsa) = s.key in rw (found, is_rsa, s.signed) refl,
  )

  -- what the algorithm in the header asks for; nothing where it is neither of the two
  pub record IsSigned (v : DefaultProviderVerifier) (token : Bytes) (claims : OidcClaims)
      (alg : Bytes) : Type 0 where
    pub gq : alg ≡ gq256 → IsGqSigned v token claims
    pub rsa : alg ≡ rs256 → IsRsaSigned v token

  pub verify_op_sig_iff :
      (v : DefaultProviderVerifier) (idt : Jwt) (claims : OidcClaims) (protected : ProtectedClaims)
      → (verify_op_sig env v idt.raw idt claims protected ≡ ok tt)
        ↔ IsSigned v idt.raw claims protected.alg
  unfolding verify_op_sig
  verify_op_sig_iff v idt claims protected = elim (Bool-cases (eqb protected.alg gq256)) [
    | inl e ↦
        let alg = (eqb_iff _ _).0 e in
        let iff = verify_gq_sig_iff v idt claims protected alg in
        (
          λ h. record {
            gq = λ _. iff.0 (wrap_err-eq-ok _ _ (rw e at h));
            rsa = λ other. absurd (gq256_not_rs256 (sym alg ∙ other));
          },
          λ s. rw (e, iff.1 (s.gq alg)) refl,
        )
    | inr e ↦
        let not_gq : protected.alg ≢ gq256 = λ other. cc (e, (eqb_iff _ _).1 other) in
        elim (Bool-cases (eqb protected.alg rs256)) [
          | inl f ↦ (
            λ h. record {
              gq = λ other. absurd (not_gq other);
              rsa = λ _. (verify_rsa_sig_iff v idt.raw).0 (rw (e, f) at h);
            },
            λ s. rw (e, f) ((verify_rsa_sig_iff v idt.raw).1 (s.rsa ((eqb_iff _ _).0 f))),
          )
          | inr f ↦ (
            λ h. record {
              gq = λ other. absurd (not_gq other);
              rsa = λ other. absurd (cc (f, (eqb_iff _ _).1 other));
            },
            λ s. rw (e, f) refl,
          )
        ]
  ]
