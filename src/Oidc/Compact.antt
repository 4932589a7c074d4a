-- ===== src/Oidc/Compact.antt =====
-- `SplitCompact` of oidc/oidc.go: the three parts of a token in compact form.
use openpubkey.Base.{Result, ok, err, msg, ◌≡◌, sym, ◌∙◌, ap, List, [], ◌∷◌, ℕ}
use openpubkey.Base.Bytes.{
  Bytes, split, join, IsFree, split-IsFree, split-IsFree_other, join-split, split-join,
}
use openpubkey.Base.{All}

abbrev three_parts : List Bytes → Result (Bytes × Bytes × Bytes)
three_parts (protected ∷ payload ∷ signature ∷ []) = ok (protected, payload, signature)
three_parts _ = err (msg "invalid number of segments")

-- SplitCompact
unfoldable pub split_compact : Bytes → Result (Bytes × Bytes × Bytes)
split_compact src = three_parts (split b'.' src)

-- the compact form of three parts
abbrev pub compact_form : Bytes → Bytes → Bytes → Bytes
compact_form protected payload signature = join b'.' (protected ∷ payload ∷ signature ∷ [])

three_parts-eq-ok :
    (parts : List Bytes) (p q s : Bytes) → three_parts parts ≡ ok (p, q, s) → parts ≡ p ∷ q ∷ s ∷ []
three_parts-eq-ok (a ∷ b ∷ c ∷ []) p q s h = cc
three_parts-eq-ok _ p q s h = cc

module _ (token p q s : Bytes) (h : split_compact token ≡ ok (p, q, s)) where
  pub split_compact-parts : split b'.' token ≡ p ∷ q ∷ s ∷ []
  unfolding split_compact
  split_compact-parts = three_parts-eq-ok (split b'.' token) p q s h

  -- A token that splits is the compact form of its parts.
  pub split_compact-eq : token ≡ compact_form p q s
  split_compact-eq = sym (join-split b'.' token) ∙ ap (join b'.') split_compact-parts

  pub split_compact-IsFree : All (IsFree b'.') (p ∷ q ∷ s ∷ [])
  split_compact-IsFree = rw split_compact-parts at (split-IsFree b'.' token)

  pub split_compact-IsFree_other : (c : ℕ) → IsFree c token → All (IsFree c) (p ∷ q ∷ s ∷ [])
  split_compact-IsFree_other c free =
      rw split_compact-parts at (split-IsFree_other b'.' c token free)

pub split_compact-compact_form :
    (p q s : Bytes)
    → All (IsFree b'.') (p ∷ q ∷ s ∷ [])
    → split_compact (compact_form p q s) ≡ ok (p, q, s)
unfolding split_compact
split_compact-compact_form p q s h = rw (split-join b'.' p (q ∷ s ∷ []) h)
