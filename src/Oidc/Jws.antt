-- ===== src/Oidc/Jws.antt =====
-- oidc/jws.go: a payload with its signatures, from which tokens in compact form are taken.
pub mod Tokens
mod Tests
use openpubkey.Base.{
  ℕ, zero, suc, ◌+◌, ◌-◌, ◌*◌, ◌/◌, ◌%◌, ◌^◌, ◌≤◌, ◌<◌, String, Error, msg, wrapped, joined,
  permission, Result, ok, err, panic, require, wrap_err, is_permission, bind-eq-ok, wrap_err-eq-ok,
  require-eq-ok, ◌>>=◌, ◌>>◌, ◌≡◌, ◌≢◌, refl, sym, ◌∙◌, ap, List, [], ◌∷◌, ◌++◌, map, arith, Option,
  none, some, Bool, true, false, ◌||◌, ◌&&◌, not, ltb, leb, ◌==◌, if◌then◌else◌, length,
  length-append, get_elem?, All, Bool-cases, Option-cases, inl, inr, ◌⊎◌, ◌↔◌, ==_iff, ltb→lt,
}
use openpubkey.Base.Int.{ℤ, pos, negsuc}
use openpubkey.Base.Bytes.{Bytes, eqb}
use openpubkey.Oidc.Compact.{split_compact, compact_form}
use openpubkey.Oidc.Claims.{Any, Json, get_typ}

-- A public header is nil or a map.
pub record Signature : Type 0 where
  pub protected : Bytes
  pub public : Option (List (Bytes × Any))
  pub signature : Bytes

pub record Jws : Type 0 where
  pub payload : Bytes
  pub signatures : List Signature

-- (j *Jws) AddSignature, with the public header that the options have set
unfoldable pub add_signature : Jws → Bytes → Option (List (Bytes × Any)) → Result Jws
add_signature j token public = do
  (protected, payload, signature) ← split_compact token
  require (eqb j.payload payload)
      "payload in compact token does not match existing payload in jws, expected=(%s), got=(%s)"
  ok (record j {
    signatures =
        j.signatures
        ++ record { protected = protected; public = public; signature = signature } ∷ [];
  })

abbrev pub token_of : Jws → Signature → Bytes
token_of j s = compact_form s.protected j.payload s.signature

abbrev found_token : Jws → Option Signature → Result Bytes
found_token j none = err (msg "no signature at index i (%d), len(signatures) (%d)")
found_token j (some s) = ok (token_of j s)

-- (j *Jws) GetToken
unfoldable pub get_token : Jws → ℤ → Result Bytes
get_token j (pos i) = found_token j (get_elem? j.signatures i)
get_token j (negsuc i) = err (msg "no signature at index i (%d), len(signatures) (%d)")

module _ (json : Json) where
  -- the loop of `GetTokenByTyp`
  matching : Bytes → List Signature → Result (List Signature)
  matching typ [] = ok []
  matching typ (v ∷ vs) = do
    typ_found ← get_typ json v.protected
    rest ← matching typ vs
    ok (if eqb typ_found typ then v ∷ rest else rest)

  abbrev the_only : Jws → List Signature → Result (Option Bytes)
  the_only j [] = ok none
  the_only j (v ∷ []) = ok (some (token_of j v))
  the_only j (v ∷ w ∷ vs) = err (msg "more than one token found, all current token typs are unique")

  -- (j *Jws) GetTokenByTyp; nil where there is none
  unfoldable pub get_token_by_typ : Jws → Bytes → Result (Option Bytes)
  unfolding matching
  get_token_by_typ j typ = matching typ j.signatures >>= the_only j
