-- ===== src/Client/Cos/Tests.antt =====
-- Runs and instances of the check of a cosigner.
use openpubkey.Base.{msg, ok, err, panic, ◌≡◌, refl, List, [], ◌∷◌, none, some}
use openpubkey.Base.Bytes.{str, eqb}
use openpubkey.Oidc.Claims.{text}
use openpubkey.PkToken.Jwx.{JwsSignature, Jwx}
use openpubkey.Client.Cos.{validate_cos}

-- each header is its own name
abbrev signature : JwsSignature
signature = record {
  protected = record { get = λ k. some (text k); as_map = ok []; algorithm = []; key_id = [] };
  public = none;
}

abbrev jwx : List JwsSignature → Jwx (Unit {0})
jwx signatures = record {
  parse = λ token. ok (record { payload = some token; signatures = signatures });
  verify = λ token alg key. err (msg "unused");
  key_algorithm = λ key. [];
  key_of = λ v. panic;
  parse_headers = λ json. panic;
}

valid_run :
    validate_cos (jwx (signature ∷ [])) (str "iss") (str "sig") (str "nonce") (str "ruri") ≡ ok tt
unfolding validate_cos eqb
valid_run = refl

replayed_run :
    validate_cos (jwx (signature ∷ [])) (str "iss") (str "sig") (str "other") (str "ruri")
    ≡ err (msg "incorrect nonce set in Cosigner signature")
unfolding validate_cos eqb
replayed_run = refl

two_run :
    validate_cos
      (jwx (signature ∷ signature ∷ []))
      (str "iss")
      (str "sig")
      (str "nonce")
      (str "ruri")
    ≡ err (msg "the Cosigner signature does not have the correct number of signatures: %w")
unfolding validate_cos
two_run = refl
