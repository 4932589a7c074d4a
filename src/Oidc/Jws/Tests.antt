-- ===== src/Oidc/Jws/Tests.antt =====
-- Runs and instances of a JWS.
use openpubkey.Base.{ℕ, msg, ok, err, ◌≡◌, refl, [], ◌∷◌, none, some}
use openpubkey.Base.Int.{pos}
use openpubkey.Base.Bytes.{Bytes, str, split, join, eqb}
use openpubkey.Util.Base64.{base64_decode}
use openpubkey.Oidc.Compact.{split_compact}
use openpubkey.Oidc.Claims.{Json, get_typ}
use openpubkey.Oidc.Jws.{Jws, add_signature, get_token, get_token_by_typ}
use openpubkey.Oidc.Jws.Tokens.{get_token-add_signature}

-- the header is its own type
abbrev plain : Json
plain = record { claims = λ b. ok none; protected = λ b. ok none; typ = λ b. ok b }

abbrev empty_jws : Jws
empty_jws = record { payload = str "pay"; signatures = [] }

abbrev one_jws : Jws
one_jws = record {
  payload = str "pay";
  signatures = record { protected = str "ZmFr"; public = none; signature = str "sg" } ∷ [];
}

add_signature_run : add_signature empty_jws (str "ZmFr.pay.sg") none ≡ ok one_jws
unfolding add_signature split_compact split eqb
add_signature_run = refl

add_signature_payload :
    add_signature empty_jws (str "ZmFr.other.sg") none
    ≡ err (
        msg
          "payload in compact token does not match existing payload in jws, expected=(%s), got=(%s)")
unfolding add_signature split_compact split eqb
add_signature_payload = refl

by_typ_run : get_token_by_typ plain one_jws (str "fak") ≡ ok (some (str "ZmFr.pay.sg"))
unfolding get_token_by_typ get_typ base64_decode join eqb
by_typ_run = refl

get_token-add_signature_example :
    (get_token one_jws (pos 0) ≡ ok (str "ZmFr.pay.sg"))
    × (one_jws.payload ≡ empty_jws.payload)
    × ((i : ℕ) (t : Bytes) → get_token empty_jws (pos i) ≡ ok t → get_token one_jws (pos i) ≡ ok t)
get_token-add_signature_example =
    get_token-add_signature empty_jws one_jws (str "ZmFr.pay.sg") none add_signature_run
