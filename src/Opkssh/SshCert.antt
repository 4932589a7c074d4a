-- ===== src/Opkssh/SshCert.antt =====
-- opkssh/sshcert/sshcert.go: a PK Token in an extension of an SSH certificate.
pub mod Refreshed
use openpubkey.Base.{
  required, required-eq-ok, ok_inj, ℕ, zero, suc, ◌+◌, ◌-◌, ◌*◌, ◌/◌, ◌%◌, ◌^◌, ◌≤◌, ◌<◌, String,
  Error, msg, wrapped, joined, permission, Result, ok, err, panic, require, wrap_err, is_permission,
  bind-eq-ok, bind_ok, wrap_err-eq-ok, require-eq-ok, continue, continue-keeps, continue-eq-ok,
  ◌>>=◌, ◌>>◌, ◌≡◌, ◌≢◌, refl, sym, ◌∙◌, ap, List, [], ◌∷◌, ◌++◌, map, arith, Option, none, some,
  Bool, true, false, ◌||◌, ◌&&◌, not, ltb, leb, ◌==◌, if◌then◌else◌, length, length-append,
  get_elem?, All, Bool-cases, Option-cases, inl, inr, ◌⊎◌, ◌↔◌, ==_iff, ltb→lt,
}
use openpubkey.Base.Assoc.{lookup}
use openpubkey.Base.Bytes.{Bytes, str, content}
use openpubkey.Base.Int.{ℤ}
use openpubkey.Providers.Expiration.{Time, after_unix}
use openpubkey.Oidc.Claims.{Json}
use openpubkey.PkToken.Cic.{get_cic_values}
use openpubkey.PkToken.Token.{PkToken, compact, new_from_compact}
use openpubkey.Verifier.{ProviderVerifier, Verifier, Reader, new_verifier, verify_pk_token}

-- An `ssh.Certificate`: what of it is set or read.
pub record SshCert (SshKey : Type 0) : Type 0 where
  pub key : SshKey
  pub signature_key : SshKey
  pub signature : Option Bytes
  pub key_id : Bytes
  pub valid_principals : List Bytes
  pub extensions : List (Bytes × Bytes)

-- providers.Config
pub record Config : Type 0 where
  pub client_id : Bytes
  pub issuer : Bytes

-- An `oidc.Provider` of go-oidc: it verifies an ID Token for a client, with or without a check of the
-- expiry, and gives the expiry in seconds since 1970.
pub record OidcProvider : Type 0 where
  pub verify : Bytes → Bool → Bytes → Result ℤ

-- The package ssh: the certificate that a line of an authorized_keys file holds (none where it holds a
-- bare key), the line of a key, the key of a certificate that is signed by a user or as `ssh` gives it
-- back, and certificates signed and written out. Further: `jwk.Raw` with `ssh.NewPublicKey`, the key of
-- a certificate as a JWK, `jwk.Equal`, the struct of `New` read from JSON, go-oidc, the clock, and the
-- verifier of providers.NewGoogleOpWithOptions for an issuer and a client.
pub record SshEnv (Key Signer SshKey SshSigner : Type 0) : Type 0 where
  pub reader : Reader Key Signer
  pub json : Json
  pub email_of : Bytes → Result Bytes
  pub parse_authorized_key : Bytes → Result (Option (SshCert SshKey))
  pub marshal_authorized_key : SshKey → Bytes
  pub zero_key : SshKey
  pub new_public_key : Key → Result SshKey
  pub jwk_of : SshKey → Result Key
  pub jwk_equal : Key → Key → Bool
  pub sign_cert : SshSigner → SshCert SshKey → Result (SshCert SshKey)
  pub marshal_cert : SshCert SshKey → Bytes
  pub verify_signature : SshKey → Bytes → Option Bytes → Result (Unit {0})
  pub new_provider : Bytes → Result OidcProvider
  pub now : Time
  pub google_op : Config → ProviderVerifier Key

module _ {Key Signer SshKey SshSigner : Type 0} (env : SshEnv Key Signer SshKey SshSigner) where
  -- sshPubkeyFromPKT
  ssh_pubkey_from_pkt : PkToken → Result SshKey
  ssh_pubkey_from_pkt pkt = get_cic_values env.reader.jwx env.reader.crypto pkt >>= λ cic.
      env.new_public_key cic.public_key

  -- New
  unfoldable pub new_cert : PkToken → List Bytes → Result (SshCert SshKey)
  unfolding ssh_pubkey_from_pkt
  new_cert pkt principals = do
    email ← env.email_of (content pkt.payload)
    pubkey_ssh ← ssh_pubkey_from_pkt pkt
    pkt_com ← compact pkt
    ok (record {
      key = pubkey_ssh;
      signature_key = env.zero_key;
      signature = none;
      key_id = email;
      valid_principals = principals;
      extensions =
          (str "permit-X11-forwarding", [])
          ∷ (str "permit-agent-forwarding", [])
          ∷ (str "permit-port-forwarding", [])
          ∷ (str "permit-pty", [])
          ∷ (str "permit-user-rc", [])
          ∷ (str "openpubkey-pkt", pkt_com)
          ∷ [];
    })

  -- NewFromAuthorizedKey
  unfoldable pub new_from_authorized_key : Bytes → Bytes → Result (SshCert SshKey)
  new_from_authorized_key cert_type cert_b64 =
      env.parse_authorized_key (cert_type ++ b' ' ∷ cert_b64)
      >>= required "parsed SSH authorized_key is not an SSH certificate"

  -- (s *SshCertSmuggler) SignCert
  unfoldable pub sign_cert : SshCert SshKey → SshSigner → Result (SshCert SshKey)
  sign_cert s signer = env.sign_cert signer s

  -- all but the last four bytes, which are the length of the signature; a panic where there are fewer
  drop_length : Bytes → Result Bytes
  drop_length bs = if ltb (length bs) 4 then panic else ok (take_front (length bs - 4) bs)
    where
      take_front : ℕ → Bytes → Bytes
      take_front zero l = []
      take_front (suc k) [] = []
      take_front (suc k) (x ∷ l) = x ∷ take_front k l

  -- (s *SshCertSmuggler) VerifyCaSig
  unfoldable pub verify_ca_sig : SshCert SshKey → SshKey → Result (Unit {0})
  unfolding drop_length
  verify_ca_sig s ca_pubkey =
      drop_length (env.marshal_cert (record s { signature = none })) >>= λ cert_bytes.
      env.verify_signature ca_pubkey cert_bytes s.signature

  -- (s *SshCertSmuggler) GetPKToken
  unfoldable pub get_pk_token : SshCert SshKey → Result PkToken
  get_pk_token s = do
    pkt_com ←
        required "cert is missing required openpubkey-pkt extension"
          (lookup (str "openpubkey-pkt") s.extensions)
    wrap_err "openpubkey-pkt extension in cert failed deserialization: %w"
        (new_from_compact env.reader.jwx env.json pkt_com)

  -- the check of an ID Token that has expired
  unfoldable pub verify_fresh : OidcProvider → Config → Option Bytes → Result (Unit {0})
  verify_fresh provider config none = err (msg "ID token is expired and no refresh token found")
  verify_fresh provider config (some fresh) =
      provider.verify config.client_id false fresh >>= λ expiry. ok tt

  -- verifyPKToken; the refreshed ID Token is looked at only where the other has expired
  unfoldable pub verify_ssh_pk_token : Config → PkToken → Result (Unit {0})
  unfolding verify_fresh
  verify_ssh_pk_token config pkt = do
    provider ← env.new_provider config.issuer
    expiry ←
        wrap_err "failed to verify ID token: %w"
          (provider.verify config.client_id true (content pkt.op_token))
    if after_unix env.now expiry then verify_fresh provider config pkt.fresh_id_token else ok tt
    ver ← new_verifier (env.google_op config) []
    wrap_err "failed to verify PK token: %w" (verify_pk_token env.reader ver pkt [])

  -- (s *SshCertSmuggler) VerifySshPktCert
  unfoldable pub verify_ssh_pkt_cert : SshCert SshKey → Config → Result PkToken
  verify_ssh_pkt_cert s config = do
    pkt ← wrap_err "openpubkey-pkt extension in cert failed deserialization: %w" (get_pk_token s)
    verify_ssh_pk_token config pkt
    cic ← get_cic_values env.reader.jwx env.reader.crypto pkt
    jwk_cert_key ← env.jwk_of s.key
    require (env.jwk_equal jwk_cert_key cic.public_key)
        "public key 'upk' in PK Token does not match public key in certificate"
    ok pkt
