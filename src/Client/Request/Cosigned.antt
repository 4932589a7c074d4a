-- ===== src/Client/Request/Cosigned.antt =====
-- `RequestToken` of client/cos.go: what becomes of the PK Token.
use openpubkey.Base.{
  sym, true, [], ◌∷◌, ◌++◌, require, require-eq-ok, Error, Result, ok, err, panic, wrap_err,
  bind-eq-ok, wrap_err-eq-ok, continue_cases, ◌≡◌, refl, ◌∙◌, ap, none, some,
}
use openpubkey.Base.Bytes.{Bytes, str}
use openpubkey.Util.Base64.{base64_encode, base64_decode}
use openpubkey.Cosigner.AuthCosigner.{InitMfaAuth}
use openpubkey.PkToken.ClientInstance.{encode_hex}
use openpubkey.Client.Cos.{validate_cos}
use openpubkey.Client.Cos.Validated.{IsAnswer, validate_cos_iff}
use openpubkey.Client.Request.{
  has_suffix, authcode_uri, CosignerProvider, World, create_init_auth_sig, init_auth_uri, prepare,
  redirect_uri_of, await, exchange, Visit, done, called_back, after_add, request_token,
}
use openpubkey.PkToken.SignatureType
use openpubkey.PkToken.SignedMessage.{new_signed_message}
use openpubkey.PkToken.Token.{PkToken, add_signature}

module _ {Key Signer : Type 0} (w : World Key Signer) (c : CosignerProvider) (signer : Signer)
    (p : PkToken) where
  -- the URI that this call listens at
  abbrev pub local_uri : Bytes → Bytes
  local_uri port = str "http://localhost:" ++ port ++ c.callback_path

  -- The browser is sent to `uri` of the cosigner, with the PK Token and a message that the client has
  -- signed: it names the cosigner and the redirect URI, and has a nonce of 32 random bytes in hex.
  pub record IsSent (port nonce uri : Bytes) : Type 0 where
    pub listened : w.listen ≡ ok port
    pub random : Bytes
    pub drawn : w.crypto.rand 32 ≡ ok random
    pub nonce_hex : encode_hex random ≡ nonce
    pub suffix : has_suffix (local_uri port) c.callback_path ≡ true
    pub init_json : Bytes
    pub message :
        w.marshal_init (record {
          issuer = c.issuer;
          redirect_uri = local_uri port;
          time_signed = w.now;
          nonce = nonce;
        })
        ≡ ok init_json
    pub sig1 : Bytes
    pub signed : new_signed_message w.jwx w.crypto w.hash p init_json signer ≡ ok sig1
    pub pkt_json : Bytes
    pub serialized : w.marshal_token p ≡ ok pkt_json
    pub addressed :
        w.uri_of c.issuer
          (str "mfa-auth-init")
          ((str "pkt", base64_encode pkt_json) ∷ (str "sig1", sig1) ∷ [])
        ≡ ok uri

  -- The answer of the cosigner to the code, which the client has signed.
  pub record IsFetched (authcode cos_sig : Bytes) : Type 0 where
    pub sig2 : Bytes
    pub signed : new_signed_message w.jwx w.crypto w.hash p authcode signer ≡ ok sig2
    pub sign_uri : Bytes
    pub addressed : w.uri_of c.issuer (str "sign") ((str "sig2", sig2) ∷ []) ≡ ok sign_uri
    pub body : Bytes
    pub answered : w.http_get sign_uri ≡ ok (ok body)
    pub decoded : base64_decode body ≡ ok cos_sig

  -- The call ends without a change of the PK Token, or `AddSignature` is called with the answer to the
  -- code with which the browser came back from `uri`.
  pub data Ending (x : Result PkToken × PkToken) : Type 0 where
    stopped : (e : Error) → x ≡ (err e, p) → Ending x
    crashed : x ≡ (panic, p) → Ending x
    answered :
        (port nonce uri authcode cos_sig : Bytes)
        → IsSent port nonce uri
        → w.visit uri ≡ called_back (some authcode)
        → IsFetched authcode cos_sig
        → IsAnswer w.jwx c.issuer cos_sig nonce (local_uri port)
        → x ≡ after_add w p (add_signature w.jwx cos_sig SignatureType.cos p)
        → Ending x

  create_init_auth_sig-eq-ok :
      (uri : Bytes) {init_json nonce : Bytes}
      → create_init_auth_sig w c uri ≡ ok (init_json, nonce)
      → (random : Bytes) × (w.crypto.rand 32 ≡ ok random)
        × (encode_hex random ≡ nonce)
        × (has_suffix uri c.callback_path ≡ true)
        × (w.marshal_init
              (record { issuer = c.issuer; redirect_uri = uri; time_signed = w.now; nonce = nonce })
            ≡ ok init_json)
  unfolding create_init_auth_sig
  create_init_auth_sig-eq-ok uri {init_json} {nonce} h =
      let (random, drawn, h1) = bind-eq-ok (w.crypto.rand 32) _ h in
      let (_, suffix, h2) = bind-eq-ok (require (has_suffix uri c.callback_path) _) _ h1 in
      let message : Bytes → InitMfaAuth =
        λ n. record { issuer = c.issuer; redirect_uri = uri; time_signed = w.now; nonce = n } in
      let (json, made, h3) = bind-eq-ok (w.marshal_init (message (encode_hex random))) _ h2 in
      let same : encode_hex random ≡ nonce = cc h3 in
      let same_json : json ≡ init_json = cc h3 in
      (
        random,
        drawn,
        same,
        require-eq-ok _ _ suffix,
        ap (λ n. w.marshal_init (message n)) (sym same) ∙ made ∙ ap ok same_json,
      )

  prepare-eq-ok :
      {redirect_uri nonce uri : Bytes}
      → prepare w c signer p ≡ ok (redirect_uri, nonce, uri)
      → (port : Bytes) × (local_uri port ≡ redirect_uri) × IsSent port nonce uri
  unfolding prepare init_auth_uri redirect_uri_of
  prepare-eq-ok {redirect_uri} {nonce} {uri} h =
      let (port, listened, h1) = bind-eq-ok (wrap_err _ w.listen) _ h in
      let (pkt_json, serialized, h2) = bind-eq-ok (wrap_err _ (w.marshal_token p)) _ h1 in
      let ((init_json, n), made, h3) =
        bind-eq-ok (wrap_err _ (create_init_auth_sig w c (local_uri port))) _ h2 in
      let (sig1, signed, h4) =
        bind-eq-ok (wrap_err _ (new_signed_message w.jwx w.crypto w.hash p init_json signer)) _
          h3 in
      let (target, addressed, h5) =
        bind-eq-ok (wrap_err _ (init_auth_uri w c pkt_json sig1)) _ h4 in
      let same : local_uri port ≡ redirect_uri = cc h5 in
      let same_nonce : n ≡ nonce = cc h5 in
      let same_uri : target ≡ uri = cc h5 in
      let (random, drawn, hex, suffix, message) =
        create_init_auth_sig-eq-ok (local_uri port)
          (wrap_err-eq-ok _ _ made ∙ ap (λ a. ok (init_json, a)) same_nonce) in
      (
        port,
        same,
        record {
          listened = wrap_err-eq-ok _ _ listened;
          random = random;
          drawn = drawn;
          nonce_hex = hex;
          suffix = suffix;
          init_json = init_json;
          message = message;
          sig1 = sig1;
          signed = wrap_err-eq-ok _ _ signed;
          pkt_json = pkt_json;
          serialized = wrap_err-eq-ok _ _ serialized;
          addressed = wrap_err-eq-ok _ _ addressed ∙ ap ok same_uri;
        },
      )

  exchange-eq-ok :
      (authcode cos_sig : Bytes)
      → exchange w c signer p (some authcode) ≡ ok cos_sig
      → IsFetched authcode cos_sig
  unfolding exchange authcode_uri
  exchange-eq-ok authcode cos_sig h =
      let (sig2, signed, h1) =
        bind-eq-ok (wrap_err _ (new_signed_message w.jwx w.crypto w.hash p authcode signer)) _ h in
      let (sign_uri, addressed, h2) = bind-eq-ok (wrap_err _ (authcode_uri w c sig2)) _ h1 in
      let (res, fetched, h3) = bind-eq-ok (wrap_err _ (w.http_get sign_uri)) _ h2 in
      let (body, read, decoded) = bind-eq-ok (wrap_err _ res) _ h3 in
      record {
        sig2 = sig2;
        signed = wrap_err-eq-ok _ _ signed;
        sign_uri = sign_uri;
        addressed = wrap_err-eq-ok _ _ addressed;
        body = body;
        answered = wrap_err-eq-ok _ _ fetched ∙ ap ok (wrap_err-eq-ok _ _ read);
        decoded = wrap_err-eq-ok _ _ decoded;
      }

  await-eq-ok :
      (v : Visit) {cos_sig : Bytes}
      → await w c signer p v ≡ ok cos_sig
      → (authcode : Bytes) × (v ≡ called_back (some authcode)) × IsFetched authcode cos_sig
  unfolding await exchange
  await-eq-ok (done e) h = absurd (cc h)
  await-eq-ok (called_back (some authcode)) {cos_sig} h =
      (authcode, refl, exchange-eq-ok authcode cos_sig h)
  await-eq-ok (called_back none) h = absurd (cc h)

  -- RequestToken leaves the PK Token as it is and gives an error or panics, or it ends with what
  -- AddSignature makes of the PK Token and an answer of the cosigner. The browser was then sent to the
  -- cosigner with a message that the client signed, with a nonce of this call and the redirect URI that
  -- it listens at, and came back with a code; the answer was fetched with that code, signed by the
  -- client. It has one signature, with the issuer of the cosigner, that nonce and that redirect URI.
  pub request_token-Ending : Ending (request_token w c signer p)
  unfolding request_token
  request_token-Ending =
      continue_cases Ending (prepare w c signer p) p _ (λ e. stopped e refl) (crashed refl)
        λ (redirect_uri, nonce, uri) prepared.
          continue_cases Ending (await w c signer p (w.visit uri)) p _ (λ e. stopped e refl)
            (crashed refl)
            λ cos_sig fetched.
              continue_cases Ending (validate_cos w.jwx c.issuer cos_sig nonce redirect_uri) p _
                (λ e. stopped e refl) (crashed refl)
                λ u valid.
                  let (port, same, sent) = prepare-eq-ok prepared in
                  let (authcode, came, fetched_with) = await-eq-ok (w.visit uri) fetched in
                  answered port nonce uri authcode cos_sig sent came fetched_with
                    ((validate_cos_iff w.jwx c.issuer cos_sig nonce (local_uri port)).0
                      (ap (validate_cos w.jwx c.issuer cos_sig nonce) same ∙ valid))
                    refl
