-- ===== src/Providers/Verifier/Unsigned.antt =====
-- A token under an algorithm that the switch of `VerifyIDToken` does not name.
use openpubkey.Base.{ℕ, Result, ok, ◌≡◌, ◌≢◌, refl, some, Bool, false, Bool-cases, inl, inr}
use openpubkey.Base.Bytes.{Bytes, eqb, eqb_iff}
use openpubkey.Oidc.Claims.{ProtectedClaims}
use openpubkey.Oidc.Jwt.{Jwt, new_jwt}
use openpubkey.PkToken.ClientInstance.{Claims}
use openpubkey.Discover.{PublicKey, PublicKeyFinder, gq256, rs256}
use openpubkey.Providers.Verifier.{
  DefaultProviderVerifier, Env, verify_op_sig, verify_commitment, verify_id_token,
}

eqb_of_other : (a b : Bytes) → a ≢ b → eqb a b ≡ false
eqb_of_other a b h = elim (Bool-cases (eqb a b)) [
  | inl e ↦ absurd (h ((eqb_iff a b).0 e))
  | inr e ↦ e
]

module _ {Key Signer : Type 0} (env : Env Key Signer) where
  -- A verifier that does not ask for GQ signatures only gives the same answer on an ID Token whose
  -- algorithm is neither GQ256 nor RS256 whatever the keys of the issuer are and whatever the
  -- verification of signatures answers: it does not look at the signature.
  pub verify_id_token_unsigned :
      (v : DefaultProviderVerifier) (token : Bytes) (cic : Claims Key) (idt : Jwt)
      (protected : ProtectedClaims) (keys : PublicKeyFinder)
      (verify : Bytes → Bytes → PublicKey → Result (Unit {0})) (gq : ℕ → ℕ → Bytes → Result Bool)
      → v.gq_only ≡ false
      → new_jwt env.json token ≡ ok idt
      → idt.protected_claims ≡ some protected
      → protected.alg ≢ gq256
      → protected.alg ≢ rs256
      → verify_id_token env v token cic
        ≡ verify_id_token
            (record env { verify = verify; gq256_verify_jwt = gq })
            (record v { discover_public_key = keys })
            token
            cic
  unfolding verify_id_token verify_op_sig verify_commitment
  verify_id_token_unsigned v token cic idt protected keys verify gq any parsed given not_gq
        not_rsa =
      rw (parsed, given, eqb_of_other _ _ not_gq, eqb_of_other _ _ not_rsa) refl
