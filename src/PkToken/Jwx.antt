-- ===== src/PkToken/Jwx.antt =====
-- What the program uses of github.com/lestrrat-go/jwx: messages, their headers, and keys. The
-- operations are a parameter.
use openpubkey.Base.{Result, ok, panic, List, [], ◌∷◌, Option}
use openpubkey.Base.Bytes.{Bytes}
use openpubkey.Oidc.Claims.{Any}

-- Protected headers: `Get` and `AsMap`, `Algorithm` and `KeyID`, the empty text where there is none.
pub record Headers : Type 0 where
  pub get : Bytes → Option Any
  pub as_map : Result (List (Bytes × Any))
  pub algorithm : Bytes
  pub key_id : Bytes

pub record JwsSignature : Type 0 where
  pub protected : Headers
  pub public : Option (List (Bytes × Any))

-- `jws.Message`
pub record Message : Type 0 where
  pub payload : Option Bytes
  pub signatures : List JwsSignature

-- `jws.Parse`, `jws.Verify` with an algorithm and a key, the algorithm of a key, and the key that a
-- value of a header stands for (`json.Marshal` and `jwk.ParseKey`); headers read from JSON. The names of the algorithms for
-- signatures and of those for encryption are distinct, so an algorithm is its name.
pub record Jwx (Key : Type 0) : Type 0 where
  pub parse : Bytes → Result Message
  pub verify : Bytes → Bytes → Key → Result (Unit {0})
  pub key_algorithm : Key → Bytes
  pub key_of : Any → Result Key
  pub parse_headers : Bytes → Result Headers

-- `message.Signatures()[0]`
abbrev pub first_signature : List JwsSignature → Result JwsSignature
first_signature [] = panic
first_signature (s ∷ rest) = ok s
