-- ===== src/Providers/Verifier/Commitment.antt =====
-- What the test of the commitment to the client says.
use openpubkey.Base.{
  required, required-eq-ok, ok, require, bind-eq-ok, require-eq-ok, ◌≡◌, ◌≢◌, refl, sym, ◌∙◌, ap,
  List, [], ◌++◌, some, true, false, not, Bool-cases, inl, inr, ◌↔◌,
}
use openpubkey.Base.Bytes.{Bytes, str, eqb, eqb_iff, nonempty_iff, has_prefix, has_prefix_iff}
use openpubkey.Base.Assoc.{lookup}
use openpubkey.Util.Base64.{base64_decode}
use openpubkey.Oidc.Claims.{
  is_text, is_text_iff, Any, text, items, algorithm, other, ProtectedClaims,
}
use openpubkey.Oidc.Jwt.{Jwt}
use openpubkey.PkToken.ClientInstance.{Claims, claims_hash}
use openpubkey.Providers.Verifier.{
  DefaultProviderVerifier, Env, aud_prefix_for_gq_commitment, as_string, commitment_of,
  verify_commitment,
}

as_string-eq-ok : (v : Any) (t : Bytes) → as_string v ≡ ok t → v ≡ text t
as_string-eq-ok (text s) t h = cc h
as_string-eq-ok (items l) t h = cc h
as_string-eq-ok (algorithm a) t h = cc h
as_string-eq-ok (other json) t h = cc h

module _ {Key Signer : Type 0} (env : Env Key Signer) where
  -- The token carries the hash of the client's claims: with a GQ signature over it, in a token whose
  -- audience says that it is for a PK Token, or else in the claim of the options.
  pub record IsCommitted (v : DefaultProviderVerifier) (idt : Jwt) (protected : ProtectedClaims)
      (cic : Claims Key) : Type 0 where
    pub payload : Bytes
    pub decoded : base64_decode idt.payload ≡ ok payload
    pub claims : List (Bytes × Any)
    pub read : env.claims_map payload ≡ ok claims
    pub commitment : Bytes
    pub expected : claims_hash env.jwx env.crypto cic ≡ ok commitment
    pub in_gq :
        v.commit_type.gq_commitment ≡ true
        → (protected.cic ≢ [])
          × (protected.cic ≡ commitment)
          × ((rest : Bytes) × (lookup (str "aud") claims
                ≡ some (text (aud_prefix_for_gq_commitment ++ rest))))
    pub in_claim :
        v.commit_type.gq_commitment ≡ false
        → (v.commit_type.claim ≢ []) × (lookup v.commit_type.claim claims ≡ some (text commitment))

  commitment_in_gq :
      (v : DefaultProviderVerifier) (protected : ProtectedClaims) (claims : List (Bytes × Any))
      (c : Any)
      → v.commit_type.gq_commitment ≡ true
      → (commitment_of env v protected claims ≡ ok c) ↔ (
          (c ≡ text protected.cic)
          × (protected.cic ≢ [])
          × ((rest : Bytes) × (lookup (str "aud") claims
                ≡ some (text (aud_prefix_for_gq_commitment ++ rest)))))
  unfolding commitment_of
  commitment_in_gq v protected claims c e = (
    λ h0.
        let h = rw e at h0 in
        let (aud, found, h1) = bind-eq-ok (required _ (lookup (str "aud") claims)) _ h in
        let (audience, is_text, h2) = bind-eq-ok (as_string aud) _ h1 in
        let (_, prefixed, h3) =
          bind-eq-ok (require (has_prefix audience aud_prefix_for_gq_commitment) _) _ h2 in
        let (_, given, same) = bind-eq-ok (require (not (eqb protected.cic [])) _) _ h3 in
        let (rest, starts) = (has_prefix_iff _ _).0 (require-eq-ok _ _ prefixed) in
        (
          cc same,
          (nonempty_iff _).0 (require-eq-ok _ _ given),
          (rest, required-eq-ok _ _ found ∙ ap some (as_string-eq-ok _ _ is_text ∙ ap text starts)),
        ),
    λ (same, given, (rest, found)).
        rw
          (
            e,
            found,
            (has_prefix_iff (aud_prefix_for_gq_commitment ++ rest) aud_prefix_for_gq_commitment).1
                (rest, refl),
            (nonempty_iff _).1 given,
            same,
          )
          refl,
  )

  commitment_in_claim :
      (v : DefaultProviderVerifier) (protected : ProtectedClaims) (claims : List (Bytes × Any))
      (c : Any)
      → v.commit_type.gq_commitment ≡ false
      → (commitment_of env v protected claims ≡ ok c)
        ↔ ((v.commit_type.claim ≢ []) × (lookup v.commit_type.claim claims ≡ some c))
  unfolding commitment_of
  commitment_in_claim v protected claims c e = (
    λ h0.
        let h = rw e at h0 in
        let (_, given, found) = bind-eq-ok (require (not (eqb v.commit_type.claim [])) _) _ h in
        ((nonempty_iff _).0 (require-eq-ok _ _ given), required-eq-ok _ _ found),
    λ (given, found). rw (e, (nonempty_iff _).1 given, found) refl,
  )

  pub verify_commitment_iff :
      (v : DefaultProviderVerifier) (idt : Jwt) (protected : ProtectedClaims) (cic : Claims Key)
      → (verify_commitment env v idt protected cic ≡ ok tt) ↔ IsCommitted v idt protected cic
  unfolding verify_commitment
  verify_commitment_iff v idt protected cic = (
    λ h.
        let (payload, decoded, h1) = bind-eq-ok (base64_decode idt.payload) _ h in
        let (claims, read, h2) = bind-eq-ok (env.claims_map payload) _ h1 in
        let (hash, expected, h3) = bind-eq-ok (claims_hash env.jwx env.crypto cic) _ h2 in
        let (c, from, h4) = bind-eq-ok (commitment_of env v protected claims) _ h3 in
        let equal = (is_text_iff c hash).0 (require-eq-ok _ _ h4) in
        record {
          payload = payload;
          decoded = decoded;
          claims = claims;
          read = read;
          commitment = hash;
          expected = expected;
          in_gq = λ e.
              let (same, given, audience) = (commitment_in_gq v protected claims c e).0 from in
              (given, cc (sym same ∙ equal), audience);
          in_claim = λ e.
              let (given, found) = (commitment_in_claim v protected claims c e).0 from in
              (given, found ∙ ap some equal);
        },
    λ c.
        let from : commitment_of env v protected c.claims ≡ ok (text c.commitment) =
          elim (Bool-cases v.commit_type.gq_commitment) [
            | inl e ↦
                let (given, same, audience) = c.in_gq e in
                (commitment_in_gq v protected c.claims (text c.commitment) e).1
                  (ap text (sym same), given, audience)
            | inr e ↦
                (commitment_in_claim v protected c.claims (text c.commitment) e).1 (c.in_claim e)
          ] in
        rw (c.decoded, c.read, c.expected, from, (eqb_iff c.commitment c.commitment).1 refl) refl,
  )
