-- ===== src/Client/Cos.antt =====
-- client/cos.go: what a client checks of the signature of its cosigner.
pub mod Validated
mod Tests
use openpubkey.Base.{
  required, required-eq-ok, ok_inj, ℕ, zero, suc, ◌+◌, ◌-◌, ◌*◌, ◌/◌, ◌%◌, ◌^◌, ◌≤◌, ◌<◌, String,
  Error, msg, wrapped, joined, permission, Result, ok, err, panic, require, wrap_err, is_permission,
  bind-eq-ok, bind_ok, wrap_err-eq-ok, require-eq-ok, continue, continue-keeps, continue-eq-ok,
  ◌>>=◌, ◌>>◌, ◌≡◌, ◌≢◌, refl, sym, ◌∙◌, ap, List, [], ◌∷◌, ◌++◌, map, arith, Option, none, some,
  Bool, true, false, ◌||◌, ◌&&◌, not, ltb, leb, ◌==◌, if◌then◌else◌, length, length-append,
  get_elem?, All, Bool-cases, Option-cases, inl, inr, ◌⊎◌, ◌↔◌, ==_iff, ltb→lt,
}
use openpubkey.Base.Bytes.{Bytes, str, eqb, eqb_iff}
use openpubkey.Oidc.Claims.{Any, text, is_text, is_text_iff}
use openpubkey.PkToken.Jwx.{Headers, JwsSignature, Message, Jwx, first_signature}

module _ {Key : Type 0} (jwx : Jwx Key) where
  -- (c *CosignerProvider) ValidateCos, for the issuer of the cosigner
  unfoldable pub validate_cos : Bytes → Bytes → Bytes → Bytes → Result (Unit {0})
  validate_cos issuer cos_sig expected_nonce expected_redirect_uri = do
    parsed ← wrap_err "failed to parse Cosigner signature: %w" (jwx.parse cos_sig)
    require (length parsed.signatures == 1)
        "the Cosigner signature does not have the correct number of signatures: %w"
    s ← first_signature parsed.signatures
    nonce ←
        required "nonce not set in Cosigner signature protected header"
          (s.protected.get (str "nonce"))
    require (is_text nonce expected_nonce) "incorrect nonce set in Cosigner signature"
    ruri ←
        required "ruri (redirect URI) not set in Cosigner signature protected header"
          (s.protected.get (str "ruri"))
    require (is_text ruri expected_redirect_uri)
        "unexpected ruri (redirect URI) set in Cosigner signature, got %s expected %s"
    iss ←
        required "iss (Cosigner Issuer) not set in Cosigner signature protected header"
          (s.protected.get (str "iss"))
    require (is_text iss issuer)
        "unexpected iss (Cosigner Issuer) set in Cosigner signature, expected %s"
