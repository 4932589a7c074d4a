-- ===== src/Client/Request.antt =====
-- client/cos.go: how a client has its PK Token cosigned. The user's browser is sent to the cosigner,
-- comes back with a code, and the code is exchanged for a signature.
pub mod Cosigned
pub mod Tests
use openpubkey.Base.{
  required, required-eq-ok, ok_inj, ℕ, zero, suc, ◌+◌, ◌-◌, ◌*◌, ◌/◌, ◌%◌, ◌^◌, ◌≤◌, ◌<◌, String,
  Error, msg, wrapped, joined, permission, Result, ok, err, panic, require, wrap_err, is_permission,
  bind-eq-ok, bind_ok, wrap_err-eq-ok, require-eq-ok, continue, continue-keeps, continue-eq-ok,
  ◌>>=◌, ◌>>◌, ◌≡◌, ◌≢◌, refl, sym, ◌∙◌, ap, List, [], ◌∷◌, ◌++◌, map, arith, Option, none, some,
  Bool, true, false, ◌||◌, ◌&&◌, not, ltb, leb, ◌==◌, if◌then◌else◌, length, length-append,
  get_elem?, All, Bool-cases, Option-cases, inl, inr, ◌⊎◌, ◌↔◌, ==_iff, ltb→lt,
}
use openpubkey.Base.Int.{ℤ}
use openpubkey.Base.Bytes.{Bytes, str, eqb}
use openpubkey.Util.Base64.{base64_encode, base64_decode}
use openpubkey.Client.Cos.{validate_cos}
use openpubkey.Cosigner.AuthCosigner.{InitMfaAuth}
use openpubkey.PkToken.ClientInstance.{Crypto, encode_hex}
use openpubkey.PkToken.Jwx.{Jwx}
use openpubkey.PkToken.SignatureType
use openpubkey.PkToken.SignedMessage.{new_signed_message}
use openpubkey.PkToken.Token.{PkToken, add_signature}

pub record CosignerProvider : Type 0 where
  pub issuer : Bytes
  pub callback_path : Bytes

-- What becomes of a visit of the user's browser to the cosigner: the context is done with an error,
-- or the callback is called, with an authcode in its query or without one.
pub data Visit : Type 0 where
  done : Error → Visit
  called_back : Option Bytes → Visit

-- What is called beside the packages of the repository: `net.Listen` (the port, in digits), a URI with
-- a path and parameters added (`url.Parse`, `JoinPath`, `Query`, `Encode`), `http.Get` with the body
-- that `io.ReadAll` reads, the clock, and the JSON of a message and of a PK Token, whose hash is
-- `(p *PKToken) Hash`.
pub record World (Key Signer : Type 0) : Type 0 where
  pub jwx : Jwx Key
  pub crypto : Crypto Key Signer
  pub listen : Result Bytes
  pub uri_of : Bytes → Bytes → List (Bytes × Bytes) → Result Bytes
  pub http_get : Bytes → Result (Result Bytes)
  pub now : ℤ
  pub marshal_init : InitMfaAuth → Result Bytes
  pub marshal_token : PkToken → Result Bytes
  pub hash : PkToken → Result Bytes
  pub visit : Bytes → Visit

-- `strings.HasSuffix`
unfoldable pub has_suffix : Bytes → Bytes → Bool
has_suffix [] suffix = eqb [] suffix
has_suffix (x ∷ xs) suffix = eqb (x ∷ xs) suffix || has_suffix xs suffix

module _ {Key Signer : Type 0} (w : World Key Signer) where
  -- (c *CosignerProvider) CreateInitAuthSig: the message and its nonce
  unfoldable pub create_init_auth_sig : CosignerProvider → Bytes → Result (Bytes × Bytes)
  create_init_auth_sig c redirect_uri = do
    r_bytes ← w.crypto.rand 32
    require (has_suffix redirect_uri c.callback_path)
        "redirectURI (%s) does not end in expected callbackPath (%s)"
    let nonce = encode_hex r_bytes
    msg_json ← w.marshal_init (record {
      issuer = c.issuer;
      redirect_uri = redirect_uri;
      time_signed = w.now;
      nonce = nonce;
    })
    ok (msg_json, nonce)

  -- (c *CosignerProvider) initAuthURI
  unfoldable pub init_auth_uri : CosignerProvider → Bytes → Bytes → Result Bytes
  init_auth_uri c pkt_json sig1 =
      w.uri_of c.issuer (str "mfa-auth-init")
        ((str "pkt", base64_encode pkt_json) ∷ (str "sig1", sig1) ∷ [])

  -- (c *CosignerProvider) authcodeURI
  unfoldable pub authcode_uri : CosignerProvider → Bytes → Result Bytes
  authcode_uri c sig2 = w.uri_of c.issuer (str "sign") ((str "sig2", sig2) ∷ [])

  -- the handler of the callback
  unfoldable pub exchange : CosignerProvider → Signer → PkToken → Option Bytes → Result Bytes
  unfolding authcode_uri
  exchange c signer pkt params = do
    authcode ← required "cosigner did not return an authcode in the URI" params
    sig2 ←
        wrap_err "cosigner client hit error when building authcode URI: %w"
          (new_signed_message w.jwx w.crypto w.hash pkt authcode signer)
    authcode_sig_uri ←
        wrap_err "cosigner client hit error when building authcode URI: %w" (authcode_uri c sig2)
    res ← wrap_err "error requesting MFA cosigner signature: %w" (w.http_get authcode_sig_uri)
    res_body ← wrap_err "error reading MFA cosigner signature response: %w" res
    wrap_err "error reading MFA cosigner signature response: %w" (base64_decode res_body)

  -- The two selects: the browser is sent to the cosigner, and the signature is waited for.
  unfoldable pub await : CosignerProvider → Signer → PkToken → Visit → Result Bytes
  await c signer pkt (done e) = err e
  await c signer pkt (called_back params) = exchange c signer pkt params

  unfoldable pub redirect_uri_of : CosignerProvider → Bytes → Bytes
  redirect_uri_of c port = str "http://localhost:" ++ port ++ c.callback_path

  -- The redirect URI, the nonce, and the URI that the browser is sent to.
  unfoldable pub prepare : CosignerProvider → Signer → PkToken → Result (Bytes × Bytes × Bytes)
  unfolding init_auth_uri redirect_uri_of
  prepare c signer pkt = do
    port ← wrap_err "failed to bind to an available port: %w" w.listen
    let redirect_uri = redirect_uri_of c port
    pkt_json ← wrap_err "cosigner client hit error serializing PK Token: %w" (w.marshal_token pkt)
    (init_json, nonce) ←
        wrap_err "hit error creating init auth signed message: %w"
          (create_init_auth_sig c redirect_uri)
    sig1 ←
        wrap_err "cosigner client hit error init auth signed message: %w"
          (new_signed_message w.jwx w.crypto w.hash pkt init_json signer)
    redir_uri ←
        wrap_err "cosigner client hit error when building init auth URI: %w"
          (init_auth_uri c pkt_json sig1)
    ok (redirect_uri, nonce, redir_uri)

  abbrev pub after_add : PkToken → Result (Unit {0}) × PkToken → Result PkToken × PkToken
  after_add before (ok u, q) = (ok q, q)
  after_add before (err e, q) =
      (err (wrapped "error in adding cosigner signature to PK Token: %w" e), q)
  after_add before (panic, q) = (panic, q)

  -- (c *CosignerProvider) RequestToken, with the PK Token that was passed in as the call leaves it
  unfoldable pub request_token : CosignerProvider → Signer → PkToken → Result PkToken × PkToken
  unfolding prepare await exchange
  request_token c signer pkt =
      continue (prepare c signer pkt, pkt)
        λ (redirect_uri, nonce, redir_uri) p.
          continue (await c signer p (w.visit redir_uri), p)
            λ cos_sig q.
              continue (validate_cos w.jwx c.issuer cos_sig nonce redirect_uri, q)
                λ u r. after_add r (add_signature w.jwx cos_sig SignatureType.cos r)
