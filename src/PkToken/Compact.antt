-- ===== src/PkToken/Compact.antt =====
-- pktoken/compact.go: a PK Token as one text. A nil slice is `none`.
pub mod RoundTrip
mod Tests
use openpubkey.Base.{
  ℕ, zero, suc, ◌+◌, ◌-◌, ◌*◌, ◌%◌, ◌≤◌, ◌<◌, String, Result, ok, err, panic, msg, Error, require,
  ◌>>=◌, ◌>>◌, ◌≡◌, refl, sym, ◌∙◌, ap, List, [], ◌∷◌, ◌++◌, arith, Option, none, some, Bool, true,
  false, ◌||◌, ◌&&◌, not, ltb, ◌==◌, if◌then◌else◌, length, All,
}
use openpubkey.Base.Bytes.{content, Bytes, eqb, split, join, cut, IsFree}
use openpubkey.Oidc.Compact.{split_compact, compact_form}

-- the test `payload != nil && !bytes.Equal(payload, tokPayload)` of the loop
same_payload : Option Bytes → Bytes → Bool
same_payload none q = true
same_payload (some payload) q = eqb payload q

-- The loop of `CompactPKToken`. The first token's payload is kept: a later one is equal to it.
compact_tokens : List Bytes → Option Bytes → List Bytes → Result (Option Bytes × List Bytes)
compact_tokens [] payload compact = ok (payload, compact)
compact_tokens (tok ∷ tokens) payload compact = split_compact tok >>= λ (p, q, s).
    require (same_payload payload q) "payloads in tokens are not the same got %s and %s"
    >> compact_tokens tokens (some (elim payload [ none ↦ q | some old ↦ old ]))
        (compact ++ p ∷ s ∷ [])

-- `freshIDToken != nil && len(bytes.Split(freshIDToken, ".")) != 3`, negated
fresh_ok : Option Bytes → Bool
fresh_ok none = true
fresh_ok (some fresh) = length (split b'.' fresh) == 3

abbrev append_fresh : Bytes → Option Bytes → Bytes
append_fresh pkt_com none = pkt_com
append_fresh pkt_com (some fresh) = join b'.' (pkt_com ∷ fresh ∷ [])

-- CompactPKToken
unfoldable pub compact_pk_token : List Bytes → Option Bytes → Result Bytes
unfolding compact_tokens fresh_ok same_payload
compact_pk_token [] fresh = err (msg "no tokens provided")
compact_pk_token (tok ∷ tokens) fresh =
    compact_tokens (tok ∷ tokens) none [] >>= λ (payload, compact).
    require (fresh_ok fresh) "invalid refreshed ID Token"
    >> ok (append_fresh (join b':' (content payload ∷ compact)) fresh)

-- the loop of `SplitCompactPKToken`, two parts a round; the number of parts left is even
tokens_of : Bytes → List Bytes → List Bytes
tokens_of payload (p ∷ s ∷ parts) = compact_form p payload s ∷ tokens_of payload parts
tokens_of payload _ = []

-- `tokensParts[0]` with the rest
abbrev tokens_from : List Bytes → List Bytes
tokens_from [] = []
tokens_from (payload ∷ parts) = tokens_of payload parts

-- SplitCompactPKToken
unfoldable pub split_compact_pk_token : Bytes → Result (List Bytes × Option Bytes)
unfolding tokens_of fresh_ok
split_compact_pk_token pkt_com =
    let (before, fresh) = cut b'.' pkt_com in
    let parts = split b':' before in
    require (fresh_ok fresh) "invalid refreshed ID Token"
    >> require (not (ltb (length parts) 3 || not (length parts % 2 == 1)))
        "invalid number of segments, got %d"
    >> ok (tokens_from parts, fresh)
