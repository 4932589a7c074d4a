-- ===== src/Providers/GqToken/Signed.antt =====
-- When a provider's token gets a GQ signature.
use openpubkey.Base.{
  sym, ap, ◌∙◌, wrap_err, wrap_err-eq-ok, ◌∷◌, ok_inj, ℕ, String, Result, ok, require, bind-eq-ok,
  require-eq-ok, ◌≡◌, ◌≢◌, refl, List, [], ◌∷◌, Bool, true, ◌||◌, ◌↔◌,
}
use openpubkey.Base.Bytes.{Bytes, str, eqb, eqb_iff}
use openpubkey.PkToken.Jwx.{Headers}
use openpubkey.Discover.{Jwk, PublicKey, rsa, ecdsa, PublicKeyRecord, rs256}
use openpubkey.Base.Assoc.{insert}
use openpubkey.Util.Base64.{base64_encode, base64_decode}
use openpubkey.Gq.Jwt.{ExtraClaims, with_extra_claim, apply_all, sign_jwt, gq256_sign_jwt}
use openpubkey.Providers.Verifier.{as_rsa}
use openpubkey.Providers.GqToken.{
  GqEnv, claims_options, create_jkt, id_token_headers, create_gq_token_all_params,
}

as_rsa-eq-ok : (e : String) (k : PublicKey) {m x : ℕ} → as_rsa e k ≡ ok (m, x) → k ≡ rsa m x
as_rsa-eq-ok e (rsa n v) h = cc (ok_inj h)
as_rsa-eq-ok e (ecdsa x y) h = absurd (cc h)

-- The extra claims of a GQ token: the thumbprint of the provider's key, and the commitment where there
-- is one.
abbrev pub claims_for : Bytes → Bytes → ExtraClaims
claims_for jkt [] = (str "jkt", jkt) ∷ []
claims_for jkt (c ∷ cs) = (str "jkt", jkt) ∷ (str "cic", c ∷ cs) ∷ []

claims_options-claims_for :
    (jkt cic_hash : Bytes) → apply_all (claims_options jkt cic_hash) [] ≡ claims_for jkt cic_hash
unfolding claims_options with_extra_claim insert eqb
claims_options-claims_for jkt [] = refl
claims_options-claims_for jkt (c ∷ cs) = refl

module _ {H Key : Type 0} (env : GqEnv H Key) where
  -- A GQ signature depends on the options only by the claims that they make.
  gq256_sign_jwt-claims_options :
      (key : ℕ × ℕ) (id_token jkt cic_hash : Bytes) (reader : List ℕ)
      → gq256_sign_jwt env.jws env.primitives key id_token (claims_options jkt cic_hash) reader
        ≡ gq256_sign_jwt env.jws env.primitives key id_token
            ((λ claims. claims_for jkt cic_hash) ∷ [])
            reader
  unfolding gq256_sign_jwt sign_jwt
  gq256_sign_jwt-claims_options key id_token jkt cic_hash reader =
      rw (claims_options-claims_for jkt cic_hash) refl

  -- What has to be the case for a token to be signed: a commitment only where it is asked for, the
  -- algorithm RS256 in its headers and at the RSA key that the provider has for it, a thumbprint of
  -- that key, and a GQ signature with that key over the thumbprint and the commitment.
  pub record IsUpgrade (public_key_by_token : Bytes → Result PublicKeyRecord)
      (id_token cic_hash : Bytes) (gq_commitment : Bool) (reader : List ℕ) (token : Bytes)
      (rest : List ℕ) : Type 0 where
    pub asked : cic_hash ≢ [] → gq_commitment ≡ true
    pub headers_b64 : Bytes
    pub payload : Bytes
    pub signature : Bytes
    pub split : env.jws.split_compact id_token ≡ ok (headers_b64, payload, signature)
    pub headers_json : Bytes
    pub decoded : base64_decode headers_b64 ≡ ok headers_json
    pub headers : Headers
    pub read : env.jwx.parse_headers headers_json ≡ ok headers
    pub algorithm : headers.algorithm ≡ rs256
    pub op_key : PublicKeyRecord
    pub found : public_key_by_token id_token ≡ ok op_key
    pub key_alg : op_key.alg ≡ rs256
    pub modulus : ℕ
    pub exponent : ℕ
    pub is_rsa : op_key.public_key ≡ rsa modulus exponent
    pub jwk : Jwk
    pub jwk_made : env.jwk_of (modulus, exponent) ≡ ok jwk
    pub thumbprint : Bytes
    pub hashed : jwk.thumbprint ≡ ok thumbprint
    pub signed :
        gq256_sign_jwt env.jws env.primitives
          (modulus, exponent)
          id_token
          ((λ claims. claims_for (base64_encode thumbprint) cic_hash) ∷ [])
          reader
        ≡ ok (token, rest)

  asked_iff :
      (cic_hash : Bytes) (c : Bool) → (cic_hash ≢ [] → c ≡ true) ↔ ((eqb cic_hash [] || c) ≡ true)
  unfolding eqb
  asked_iff [] c = (λ h. refl, λ h ne. absurd (ne refl))
  asked_iff (x ∷ xs) c = (λ h. h (λ e. cc e), λ h ne. h)

  id_token_headers-eq-ok :
      (id_token : Bytes) {headers : Headers}
      → id_token_headers env id_token ≡ ok headers
      → (headers_b64 payload signature headers_json : Bytes) × (env.jws.split_compact id_token
          ≡ ok (headers_b64, payload, signature))
        × (base64_decode headers_b64 ≡ ok headers_json)
        × (env.jwx.parse_headers headers_json ≡ ok headers)
  unfolding id_token_headers
  id_token_headers-eq-ok id_token h =
      let ((headers_b64, payload, signature), split, h1) =
        bind-eq-ok (wrap_err _ (env.jws.split_compact id_token)) _ h in
      let (headers_json, decoded, read) =
        bind-eq-ok (wrap_err _ (base64_decode headers_b64)) _ h1 in
      (
        headers_b64,
        payload,
        signature,
        headers_json,
        wrap_err-eq-ok _ _ split,
        wrap_err-eq-ok _ _ decoded,
        wrap_err-eq-ok _ _ read,
      )

  create_jkt-eq-ok :
      (key : ℕ × ℕ) {jkt : Bytes}
      → create_jkt env key ≡ ok jkt
      → (jwk : Jwk) × (thumbprint : Bytes) × (env.jwk_of key ≡ ok jwk)
        × (jwk.thumbprint ≡ ok thumbprint)
        × (base64_encode thumbprint ≡ jkt)
  unfolding create_jkt
  create_jkt-eq-ok key h =
      let (jwk, made, h1) = bind-eq-ok (env.jwk_of key) _ h in
      let (thumbprint, hashed, h2) = bind-eq-ok jwk.thumbprint _ h1 in
      (jwk, thumbprint, made, hashed, ok_inj h2)

  IsUpgrade-create_gq_token :
      (public_key_by_token : Bytes → Result PublicKeyRecord) (id_token cic_hash : Bytes)
      (gq_commitment : Bool) (reader : List ℕ) (token : Bytes) (rest : List ℕ)
      → IsUpgrade public_key_by_token id_token cic_hash gq_commitment reader token rest
      → create_gq_token_all_params env public_key_by_token id_token cic_hash gq_commitment reader
        ≡ ok (token, rest)
  unfolding create_gq_token_all_params id_token_headers create_jkt
  IsUpgrade-create_gq_token by_token id_token cic_hash c reader token rest g =
      let asked = (asked_iff cic_hash c).0 g.asked in
      let algorithm = (eqb_iff g.headers.algorithm rs256).1 g.algorithm in
      let key_alg = (eqb_iff g.op_key.alg rs256).1 g.key_alg in
      rw
        (
          asked, g.split, g.decoded, g.read, algorithm, g.found, key_alg, g.is_rsa, g.jwk_made,
          g.hashed,
        )
        (gq256_sign_jwt-claims_options (g.modulus, g.exponent) id_token (base64_encode g.thumbprint)
            cic_hash reader
          ∙ g.signed)

  -- createGQTokenAllParams gives a token exactly where a commitment is given only with gqCommitment,
  -- the headers that jws reads in the ID Token and the key that the provider finds for it have the
  -- algorithm RS256, that key is an RSA key with a thumbprint, and GQ256SignJWT gives the token with
  -- that key and these extra claims: jkt, the thumbprint in base64, and, where the commitment is not
  -- empty, cic, the commitment.
  pub create_gq_token_iff :
      (public_key_by_token : Bytes → Result PublicKeyRecord) (id_token cic_hash : Bytes)
      (gq_commitment : Bool) (reader : List ℕ) (token : Bytes) (rest : List ℕ)
      → (create_gq_token_all_params env public_key_by_token id_token cic_hash gq_commitment reader
          ≡ ok (token, rest))
        ↔ IsUpgrade public_key_by_token id_token cic_hash gq_commitment reader token rest
  unfolding create_gq_token_all_params
  create_gq_token_iff by_token id_token cic_hash c reader token rest = (
    λ h.
        let (_, asked, h1) = bind-eq-ok (require (eqb cic_hash [] || c) _) _ h in
        let (headers, headers_read, h2) = bind-eq-ok (id_token_headers env id_token) _ h1 in
        let (headers_b64, payload, signature, headers_json, split, decoded, read) =
          id_token_headers-eq-ok id_token headers_read in
        let (_, algorithm, h3) = bind-eq-ok (require (eqb headers.algorithm rs256) _) _ h2 in
        let (op_key, found, h4) = bind-eq-ok (by_token id_token) _ h3 in
        let (_, key_alg, h5) = bind-eq-ok (require (eqb op_key.alg rs256) _) _ h4 in
        let ((m, x), is_rsa, h6) = bind-eq-ok (as_rsa _ op_key.public_key) _ h5 in
        let (jkt, jkt_made, signed) = bind-eq-ok (create_jkt env (m, x)) _ h6 in
        let (jwk, thumbprint, jwk_made, hashed, same) = create_jkt-eq-ok (m, x) jkt_made in
        record {
          asked = (asked_iff cic_hash c).1 (require-eq-ok _ _ asked);
          headers_b64 = headers_b64;
          payload = payload;
          signature = signature;
          split = split;
          headers_json = headers_json;
          decoded = decoded;
          headers = headers;
          read = read;
          algorithm = (eqb_iff _ _).0 (require-eq-ok _ _ algorithm);
          op_key = op_key;
          found = found;
          key_alg = (eqb_iff _ _).0 (require-eq-ok _ _ key_alg);
          modulus = m;
          exponent = x;
          is_rsa = as_rsa-eq-ok _ _ is_rsa;
          jwk = jwk;
          jwk_made = jwk_made;
          thumbprint = thumbprint;
          hashed = hashed;
          signed =
              sym (gq256_sign_jwt-claims_options (m, x) id_token _ cic_hash reader)
              ∙ ap
                  (λ j.
                    gq256_sign_jwt env.jws env.primitives (m, x) id_token
                      (claims_options j cic_hash) reader)
                  same
              ∙ signed;
        },
    IsUpgrade-create_gq_token by_token id_token cic_hash c reader token rest,
  )
