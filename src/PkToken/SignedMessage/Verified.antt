-- ===== src/PkToken/SignedMessage/Verified.antt =====
-- What the acceptance of a signed message says of it, and that nothing else is asked.
use openpubkey.Base.{
  required, required-eq-ok, ok_inj, Result, ok, require, wrap_err, bind-eq-ok, bind_ok,
  wrap_err-eq-ok, require-eq-ok, ◌≡◌, refl, sym, ◌∙◌, ap, List, [], ◌∷◌, arith, some, true, ◌==◌,
  length, ◌↔◌, ==_iff,
}
use openpubkey.Base.Bytes.{Bytes, str, eqb, eqb_iff, content}
use openpubkey.Oidc.Claims.{is_text, is_text_iff, text}
use openpubkey.PkToken.Jwx.{JwsSignature, Message, Jwx, first_signature}
use openpubkey.PkToken.ClientInstance.{Claims, Crypto}
use openpubkey.PkToken.Cic.{get_cic_values}
use openpubkey.PkToken.Token.{PkToken}
use openpubkey.PkToken.SignedMessage.{verify_signed_message}

pub only_one :
    (l : List JwsSignature) (s : JwsSignature)
    → (length l == 1) ≡ true
    → first_signature l ≡ ok s
    → l ≡ s ∷ []
only_one [] s h f = absurd (cc f)
only_one (t ∷ []) s h f = ap (λ x. x ∷ []) (ok_inj f)
only_one (t ∷ u ∷ l) s h f =
    let one : length (t ∷ u ∷ l) ≡ 1 = (==_iff (length (t ∷ u ∷ l)) 1).0 h in
    absurd (omega (arith, one))

module _ {Key Signer : Type 0} (jwx : Jwx Key) (crypto : Crypto Key Signer)
    (hash : PkToken → Result Bytes) where
  -- The message is signed by the client of the PK Token, once, and its headers name the PK Token.
  pub record IsSignedMessage (p : PkToken) (osm m : Bytes) : Type 0 where
    pub cic : Claims Key
    pub client : get_cic_values jwx crypto p ≡ ok cic
    pub message : Message
    pub parsed : jwx.parse osm ≡ ok message
    pub signature : JwsSignature
    pub one : message.signatures ≡ signature ∷ []
    pub typ : signature.protected.get (str "typ") ≡ some (text (str "osm"))
    pub alg : signature.protected.algorithm ≡ jwx.key_algorithm cic.public_key
    pub pkt_hash : Bytes
    pub hashed : hash p ≡ ok pkt_hash
    pub kid : signature.protected.get (str "kid") ≡ some (text pkt_hash)
    pub signed : jwx.verify osm (jwx.key_algorithm cic.public_key) cic.public_key ≡ ok tt
    pub payload : m ≡ content message.payload

  -- A signed message is accepted for a PK Token, and gives its payload, exactly if it has one
  -- signature, whose type is osm, whose algorithm is that of the client's key and whose key identifier
  -- is the hash of the PK Token, and it verifies with the client's key.
  pub verify_signed_message_iff :
      (p : PkToken) (osm m : Bytes)
      → (verify_signed_message jwx crypto hash p osm ≡ ok m) ↔ IsSignedMessage p osm m
  unfolding verify_signed_message
  verify_signed_message_iff p osm m = (
    λ h.
        let (cic, client, h1) = bind-eq-ok (get_cic_values jwx crypto p) _ h in
        let (message, parsed, h2) = bind-eq-ok (jwx.parse osm) _ h1 in
        let (_, one, h3) = bind-eq-ok (require (length message.signatures == 1) _) _ h2 in
        let (s, first, h4) = bind-eq-ok (first_signature message.signatures) _ h3 in
        let (typ, has_typ, h5) = bind-eq-ok (required _ (s.protected.get (str "typ"))) _ h4 in
        let (_, typed, h6) = bind-eq-ok (require (is_text typ (str "osm")) _) _ h5 in
        let (_, alg, h7) =
          bind-eq-ok (require (eqb s.protected.algorithm (jwx.key_algorithm cic.public_key)) _) _
            h6 in
        let (kid, has_kid, h8) = bind-eq-ok (required _ (s.protected.get (str "kid"))) _ h7 in
        let (pkt_hash, hashed, h9) = bind-eq-ok (wrap_err _ (hash p)) _ h8 in
        let (_, named, h10) = bind-eq-ok (require (is_text kid pkt_hash) _) _ h9 in
        let (_, signed, h11) =
          bind-eq-ok (jwx.verify osm (jwx.key_algorithm cic.public_key) cic.public_key) _ h10 in
        record {
          cic = cic;
          client = client;
          message = message;
          parsed = parsed;
          signature = s;
          one = only_one message.signatures s (require-eq-ok _ _ one) first;
          typ =
              required-eq-ok _ _ has_typ ∙ ap some ((is_text_iff _ _).0 (require-eq-ok _ _ typed));
          alg = (eqb_iff _ _).0 (require-eq-ok _ _ alg);
          pkt_hash = pkt_hash;
          hashed = wrap_err-eq-ok _ _ hashed;
          kid =
              required-eq-ok _ _ has_kid ∙ ap some ((is_text_iff _ _).0 (require-eq-ok _ _ named));
          signed = signed;
          payload = sym (ok_inj h11);
        },
    λ i. bind_ok (get_cic_values jwx crypto p) _ i.client (
        bind_ok (jwx.parse osm) _ i.parsed (
          rw
            (
              i.one,
              i.typ,
              (eqb_iff (str "osm") (str "osm")).1 refl,
              (eqb_iff i.signature.protected.algorithm (jwx.key_algorithm i.cic.public_key)).1
                  i.alg,
              i.kid,
            )
            (bind_ok (wrap_err _ (hash p)) _ (ap (wrap_err _) i.hashed) (
              rw ((eqb_iff i.pkt_hash i.pkt_hash).1 refl) (
                bind_ok (jwx.verify osm (jwx.key_algorithm i.cic.public_key) i.cic.public_key) _
                  i.signed (ap ok (sym i.payload))))))),
  )
