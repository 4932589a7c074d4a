-- ===== src/PkToken/CosignerClaims.antt =====
-- pktoken/cos.go: the claims in the protected header of a cosigner.
mod Tests
pub mod Complete
use openpubkey.Base.{
  ℕ, zero, suc, ◌+◌, ◌-◌, ◌*◌, ◌/◌, ◌%◌, ◌^◌, ◌≤◌, ◌<◌, String, Error, msg, wrapped, joined,
  permission, Result, ok, err, panic, require, wrap_err, is_permission, bind-eq-ok, wrap_err-eq-ok,
  require-eq-ok, continue, continue-keeps, continue-eq-ok, ◌>>=◌, ◌>>◌, ◌≡◌, ◌≢◌, refl, sym, ◌∙◌,
  ap, List, [], ◌∷◌, ◌++◌, map, arith, Option, none, some, Bool, true, false, ◌||◌, ◌&&◌, not, ltb,
  leb, ◌==◌, if◌then◌else◌, length, length-append, get_elem?, All, Bool-cases, Option-cases, inl,
  inr, ◌⊎◌, ◌↔◌, ==_iff, ltb→lt,
}
use openpubkey.Base.Int.{ℤ, pos, negsuc}
use openpubkey.Base.Bytes.{Bytes, str, eqb}
use openpubkey.Oidc.Jwt.{deref}
use openpubkey.PkToken.Jwx.{Headers}
use openpubkey.PkToken.Token.{PkToken}

pub record CosignerClaims : Type 0 where
  pub issuer : Bytes
  pub key_id : Bytes
  pub algorithm : Bytes
  pub auth_id : Bytes
  pub auth_time : ℤ
  pub issued_at : ℤ
  pub expiration : ℤ
  pub redirect_uri : Bytes
  pub nonce : Bytes
  pub typ : Bytes

abbrev pub is_zero : ℤ → Bool
is_zero (pos zero) = true
is_zero (pos (suc n)) = false
is_zero (negsuc n) = false

abbrev missing_if : Bool → Bytes → List Bytes
missing_if true name = name ∷ []
missing_if false name = []

-- the names that are appended to `missing`
missing : CosignerClaims → List Bytes
missing c =
    missing_if (eqb c.issuer []) (str "iss")
    ++ (missing_if (eqb c.key_id []) (str "kid")
        ++ (missing_if (eqb c.algorithm []) (str "alg")
            ++ (missing_if (eqb c.auth_id []) (str "eid")
                ++ (missing_if (is_zero c.auth_time) (str "auth_time")
                    ++ (missing_if (is_zero c.issued_at) (str "iat")
                        ++ (missing_if (is_zero c.expiration) (str "exp")
                            ++ (missing_if (eqb c.redirect_uri []) (str "ruri")
                                ++ missing_if (eqb c.nonce []) (str "nonce"))))))))

-- (p *PKToken) ParseCosignerClaims; the headers written as JSON and read into the struct is a
-- parameter, and a nil `Cos` is a nil dereference
unfoldable pub parse_cosigner_claims :
    (Headers → Result CosignerClaims) → PkToken → Result CosignerClaims
unfolding missing
parse_cosigner_claims read p = do
  cos ← deref p.cos
  claims ← read cos.protected
  require (length (missing claims) == 0) "cosigner protect header missing required headers: %v"
  ok claims
