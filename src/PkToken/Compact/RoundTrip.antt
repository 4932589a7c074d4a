-- ===== src/PkToken/Compact/RoundTrip.antt =====
-- Compacting tokens and splitting the compact form are inverse to one another.
use openpubkey.Base.{
  ℕ, ◌*◌, ◌%◌, ◌≤◌, ok, ◌≡◌, ◌≢◌, refl, ◌∙◌, ap, List, [], ◌∷◌, ◌++◌, arith, Option, none, some,
  true, length, All, bind-eq-ok, Bool-cases, inl, inr,
}
use mathlib.Core.List.{append-nil, append_assoc}
use openpubkey.Base.Bytes.{
  Bytes, eqb, eqb_iff, eqb_refl, split, join, cut, IsFree, IsFree-append, glue, glue-cut,
  cut-IsFree, split-join, join-split, split-IsFree_other, cut_of_IsFree, cut-append,
}
use openpubkey.Oidc.Compact.{
  split_compact, split_compact-eq, split_compact-IsFree, split_compact-IsFree_other,
  split_compact-compact_form,
}
use openpubkey.PkToken.Compact.{
  same_payload, compact_tokens, fresh_ok, append_fresh, compact_pk_token, tokens_of, tokens_from,
  split_compact_pk_token,
}

-- What the loop has made of the tokens: two parts for each, clean of both separators.
record IsPairs (payload : Bytes) (tokens parts : List Bytes) : Type 0 where
  back : tokens_of payload parts ≡ tokens
  dots : All (IsFree b'.') parts
  colons : All (IsFree b':') parts
  pairs : length parts ≡ 2 * length tokens

IsPairs-cons :
    (payload tok p s : Bytes) (tokens parts : List Bytes)
    → split_compact tok ≡ ok (p, payload, s)
    → IsFree b':' tok
    → IsPairs payload tokens parts
    → IsPairs payload (tok ∷ tokens) (p ∷ s ∷ parts)
unfolding tokens_of
IsPairs-cons payload tok p s tokens parts e free i =
    let dots = split_compact-IsFree tok p payload s e in
    let colons = split_compact-IsFree_other tok p payload s e b':' free in
    record {
      back = rw (i.back, ← split_compact-eq tok p payload s e);
      dots = (dots.0, (dots.1.1.0, i.dots));
      colons = (colons.0, (colons.1.1.0, i.colons));
      pairs = omega (arith, i.pairs);
    }

compact_tokens-IsPairs :
    (tokens : List Bytes) (payload : Bytes) (acc : List Bytes) (q : Option Bytes) (out : List Bytes)
    → All (IsFree b':') tokens
    → compact_tokens tokens (some payload) acc ≡ ok (q, out)
    → (parts : List Bytes) × (q ≡ some payload)
      × (out ≡ acc ++ parts)
      × IsPairs payload tokens parts
unfolding compact_tokens tokens_of same_payload
compact_tokens-IsPairs [] payload acc q out free h =
    ([], cc, (rw append-nil (cc)), record { back = refl; dots = tt; colons = tt; pairs = refl })
compact_tokens-IsPairs (tok ∷ tokens) payload acc q out (free, frees) h =
    let ((p, r, s), e, h') = bind-eq-ok (split_compact tok) _ h in
    elim (Bool-cases (eqb payload r)) [
      | inl same ↦
          let eq = (eqb_iff payload r).0 same in
          let (parts, eq_q, eq_out, i) =
            compact_tokens-IsPairs tokens payload (acc ++ p ∷ s ∷ []) q out frees (rw same at h') in
          (
            p ∷ s ∷ parts,
            eq_q,
            (eq_out ∙ append_assoc acc (p ∷ s ∷ []) parts),
            IsPairs-cons payload tok p s tokens parts (rw eq e) free i,
          )
      | inr other ↦ absurd (cc (rw other at h'))
    ]

-- With no payload yet, the loop takes that of the first token.
compact_tokens-none :
    (tok : Bytes) (tokens : List Bytes) (r : Option Bytes × List Bytes)
    → IsFree b':' tok
    → compact_tokens (tok ∷ tokens) none [] ≡ ok r
    → (payload : Bytes) × IsFree b'.' payload
      × IsFree b':' payload
      × (compact_tokens (tok ∷ tokens) (some payload) [] ≡ ok r)
unfolding compact_tokens same_payload
compact_tokens-none tok tokens r free h =
    let ((p, payload, s), e, h') = bind-eq-ok (split_compact tok) _ h in
    let dots = split_compact-IsFree tok p payload s e in
    let colons = split_compact-IsFree_other tok p payload s e b':' free in
    (payload, dots.1.0, colons.1.0, rw (e, eqb_refl payload) h')

-- The text before the refreshed token holds no dot.
join-IsFree :
    (c sep : ℕ) (p : Bytes) (ps : List Bytes)
    → sep ≢ c
    → All (IsFree c) (p ∷ ps)
    → IsFree c (join sep (p ∷ ps))
unfolding join
join-IsFree c sep p [] ne (h, _) = h
join-IsFree c sep p (q ∷ ps) ne (h, k) = IsFree-append c p _ h (ne, join-IsFree c sep q ps ne k)

cut-append_fresh :
    (before : Bytes) (fresh : Option Bytes)
    → IsFree b'.' before
    → cut b'.' (append_fresh before fresh) ≡ (before, fresh)
cut-append_fresh before none h = cut_of_IsFree b'.' before h
cut-append_fresh before (some fresh) h = unfold join in cut-append b'.' before fresh h

append_fresh-eq-glue : (c : Bytes × Option Bytes) → append_fresh c.0 c.1 ≡ glue b'.' c
unfolding join
append_fresh-eq-glue (before, none) = refl
append_fresh-eq-glue (before, some after) = refl

-- the tests of `SplitCompactPKToken` on a compacted token
split_of_IsPairs :
    (tok : Bytes) (tokens parts : List Bytes) (payload : Bytes) (fresh : Option Bytes)
    → IsFree b'.' payload
    → IsFree b':' payload
    → IsPairs payload (tok ∷ tokens) parts
    → fresh_ok fresh ≡ true
    → split_compact_pk_token (append_fresh (join b':' (payload ∷ parts)) fresh)
      ≡ ok (tok ∷ tokens, fresh)
unfolding split_compact_pk_token
split_of_IsPairs tok tokens parts payload fresh dot colon i f =
    rw
      (
        cut-append_fresh (join b':' (payload ∷ parts)) fresh
            (join-IsFree b'.' b':' payload parts (omega arith) (dot, i.dots)),
        split-join b':' payload parts (colon, i.colons),
        f,
        i.back,
      )
      (ground (arith, i.pairs))

-- Tokens that hold no colon come back from their compact form, with the refreshed token.
pub split-compact :
    (tokens : List Bytes) (fresh : Option Bytes) (pkt_com : Bytes)
    → All (IsFree b':') tokens
    → compact_pk_token tokens fresh ≡ ok pkt_com
    → split_compact_pk_token pkt_com ≡ ok (tokens, fresh)
unfolding compact_pk_token
split-compact [] fresh pkt_com free h = cc
split-compact (tok ∷ tokens) fresh pkt_com (free, frees) h =
    let ((q, out), e, h') = bind-eq-ok (compact_tokens (tok ∷ tokens) none []) _ h in
    let (payload, dot, colon, e') = compact_tokens-none tok tokens (q, out) free e in
    let (parts, eq_q, eq_out, i) =
      compact_tokens-IsPairs (tok ∷ tokens) payload [] q out (free, frees) e' in
    elim (Bool-cases (fresh_ok fresh)) [
      | inl f ↦
          let k = (rw (f, eq_q, eq_out) at h') in
          let eq : append_fresh (join b':' (payload ∷ parts)) fresh ≡ pkt_com = cc k in
          rw (← eq) (split_of_IsPairs tok tokens parts payload fresh dot colon i f)
      | inr f ↦ absurd (cc (rw f at h'))
    ]

-- The loop of `CompactPKToken` over the tokens that a list of parts makes.
compact_tokens-tokens_of :
    (payload : Bytes) (parts acc : List Bytes)
    → All (IsFree b'.') (payload ∷ parts)
    → length parts % 2 ≡ 0
    → compact_tokens (tokens_of payload parts) (some payload) acc ≡ ok (some payload, acc ++ parts)
unfolding compact_tokens tokens_of same_payload
compact_tokens-tokens_of payload [] acc h even = rw append-nil
compact_tokens-tokens_of payload (p ∷ []) acc h even = absurd (omega arith)
compact_tokens-tokens_of payload (p ∷ s ∷ parts) acc (d, (dp, (ds, k))) even =
    rw
      (
        split_compact-compact_form p payload s (dp, (d, (ds, tt))),
        eqb_refl payload,
        compact_tokens-tokens_of payload parts (acc ++ p ∷ s ∷ []) (d, k) (omega arith),
        append_assoc acc (p ∷ s ∷ []) parts,
      )
      refl

compact_of_parts :
    (parts : List Bytes) (fresh : Option Bytes)
    → All (IsFree b'.') parts
    → fresh_ok fresh ≡ true
    → 3 ≤ length parts
    → length parts % 2 ≡ 1
    → compact_pk_token (tokens_from parts) fresh ≡ ok (append_fresh (join b':' parts) fresh)
unfolding compact_pk_token compact_tokens tokens_of same_payload
compact_of_parts [] fresh h f len odd = absurd (omega arith)
compact_of_parts (payload ∷ []) fresh h f len odd = absurd (omega arith)
compact_of_parts (payload ∷ p ∷ []) fresh h f len odd = absurd (omega arith)
compact_of_parts (payload ∷ p ∷ s ∷ parts) fresh (d, (dp, (ds, k))) f len odd =
    rw
      (
        split_compact-compact_form p payload s (dp, (d, (ds, tt))),
        compact_tokens-tokens_of payload parts (p ∷ s ∷ []) (d, k) (omega arith),
        f,
      )
      refl

-- What a text splits into compacts to that text.
pub compact-split :
    (pkt_com : Bytes) (tokens : List Bytes) (fresh : Option Bytes)
    → split_compact_pk_token pkt_com ≡ ok (tokens, fresh)
    → compact_pk_token tokens fresh ≡ ok pkt_com
unfolding split_compact_pk_token
compact-split pkt_com tokens fresh h =
    let before = (cut b'.' pkt_com).0 in
    let after = (cut b'.' pkt_com).1 in
    let parts = split b':' before in
    let ok_fresh : fresh_ok after ≡ true = ground arith in
    let long : 3 ≤ length parts = ground arith in
    let odd : length parts % 2 ≡ 1 = ground arith in
    let eq : tokens_from parts ≡ tokens = ground arith in
    let eq_fresh : after ≡ fresh = ground arith in
    let dots = split-IsFree_other b':' b'.' before (cut-IsFree b'.' pkt_com) in
    rw (← eq, ← eq_fresh)
      (compact_of_parts parts after dots ok_fresh long odd
        ∙ ap ok (
            ap (λ t. append_fresh t after) (join-split b':' before)
            ∙ append_fresh-eq-glue (cut b'.' pkt_com)
            ∙ glue-cut b'.' pkt_com))
