-- ===== src/Client/Cos/Validated.antt =====
-- What the acceptance of a cosigner's signature by the client says.
use openpubkey.Base.{
  required, required-eq-ok, String, Result, ok, require, wrap_err, bind-eq-ok, bind_ok,
  wrap_err-eq-ok, require-eq-ok, ◌>>=◌, ◌≡◌, refl, ◌∙◌, ap, [], ◌∷◌, Option, some, ◌==◌, length,
  ◌↔◌,
}
use openpubkey.Base.Bytes.{Bytes, str, eqb_iff}
use openpubkey.Oidc.Claims.{Any, text, is_text, is_text_iff}
use openpubkey.PkToken.Jwx.{JwsSignature, Message, Jwx, first_signature}
use openpubkey.PkToken.SignedMessage.Verified.{only_one}
use openpubkey.Client.Cos.{validate_cos}

module _ {Key : Type 0} (jwx : Jwx Key) where
  -- one signature, for the request that was made, of the cosigner that was asked
  pub record IsAnswer (issuer cos_sig nonce ruri : Bytes) : Type 0 where
    pub message : Message
    pub parsed : jwx.parse cos_sig ≡ ok message
    pub signature : JwsSignature
    pub one : message.signatures ≡ signature ∷ []
    pub nonce_given : signature.protected.get (str "nonce") ≡ some (text nonce)
    pub ruri_given : signature.protected.get (str "ruri") ≡ some (text ruri)
    pub iss_given : signature.protected.get (str "iss") ≡ some (text issuer)

  header-eq-ok :
      (s t : String) (o : Option Any) (expected : Bytes) (rest : Result (Unit {0}))
      → (required s o >>= λ v. (require (is_text v expected) t >>= λ _. rest)) ≡ ok tt
      → (o ≡ some (text expected)) × (rest ≡ ok tt)
  header-eq-ok s t o expected rest h =
      let (v, given, h1) = bind-eq-ok (required s o) _ h in
      let (_, same, h2) = bind-eq-ok (require (is_text v expected) t) _ h1 in
      (required-eq-ok s o given ∙ ap some ((is_text_iff v expected).0 (require-eq-ok _ _ same)), h2)

  -- A client accepts the signature of its cosigner exactly if the text has one signature, whose headers
  -- have the nonce and the redirect URI that were expected and the issuer of the cosigner. The
  -- signature itself is not verified.
  pub validate_cos_iff :
      (issuer cos_sig nonce ruri : Bytes)
      → (validate_cos jwx issuer cos_sig nonce ruri ≡ ok tt) ↔ IsAnswer issuer cos_sig nonce ruri
  unfolding validate_cos
  validate_cos_iff issuer cos_sig nonce ruri = (
    λ h.
        let (m, parsed, h1) = bind-eq-ok (wrap_err _ (jwx.parse cos_sig)) _ h in
        let (_, one, h2) = bind-eq-ok (require (length m.signatures == 1) _) _ h1 in
        let (s, first, h3) = bind-eq-ok (first_signature m.signatures) _ h2 in
        let (nonce_given, h4) = header-eq-ok _ _ (s.protected.get (str "nonce")) nonce _ h3 in
        let (ruri_given, h5) = header-eq-ok _ _ (s.protected.get (str "ruri")) ruri _ h4 in
        let (iss, found, h6) = bind-eq-ok (required _ (s.protected.get (str "iss"))) _ h5 in
        record {
          message = m;
          parsed = wrap_err-eq-ok _ _ parsed;
          signature = s;
          one = only_one m.signatures s (require-eq-ok _ _ one) first;
          nonce_given = nonce_given;
          ruri_given = ruri_given;
          iss_given =
              required-eq-ok _ _ found
              ∙ ap some ((is_text_iff iss issuer).0 (require-eq-ok _ _ h6));
        },
    λ i. bind_ok (wrap_err _ (jwx.parse cos_sig)) _ (ap (wrap_err _) i.parsed) (
        rw
          (
            i.one,
            i.nonce_given,
            (eqb_iff nonce nonce).1 refl,
            i.ruri_given,
            (eqb_iff ruri ruri).1 refl,
            i.iss_given,
            (eqb_iff issuer issuer).1 refl,
          )
          refl),
  )
