-- ===== src/Gq/Padding.antt =====
-- gq/rsa.go: the PKCS #1 v1.5 padding of a SHA-256 digest.
pub mod Layout
use openpubkey.Base.{
  required, required-eq-ok, ok_inj, ℕ, zero, suc, ◌+◌, ◌-◌, ◌*◌, ◌/◌, ◌%◌, ◌^◌, ◌≤◌, ◌<◌, String,
  Error, msg, wrapped, joined, permission, Result, ok, err, panic, require, wrap_err, is_permission,
  bind-eq-ok, bind_ok, wrap_err-eq-ok, require-eq-ok, continue, continue-keeps, continue-eq-ok,
  ◌>>=◌, ◌>>◌, ◌≡◌, ◌≢◌, refl, sym, ◌∙◌, ap, List, [], ◌∷◌, ◌++◌, map, arith, Option, none, some,
  Bool, true, false, ◌||◌, ◌&&◌, not, ltb, leb, ◌==◌, if◌then◌else◌, length, length-append,
  get_elem?, All, Bool-cases, Option-cases, inl, inr, ◌⊎◌, ◌↔◌, ==_iff, ltb→lt,
}
use openpubkey.Base.Bytes.{Bytes}

-- The bytes that stand for SHA-256 before a digest.
abbrev pub prefix : Bytes
prefix =
    0x30 ∷ 0x31 ∷ 0x30 ∷ 0x0d ∷ 0x06 ∷ 0x09 ∷ 0x60 ∷ 0x86 ∷ 0x48 ∷ 0x01 ∷ 0x65 ∷ 0x03 ∷ 0x04 ∷ 0x02
    ∷ 0x01 ∷ 0x05 ∷ 0x00 ∷ 0x04 ∷ 0x20 ∷ []

-- `crypto.SHA256.Size()`
abbrev pub hash_len : ℕ
hash_len = 32

abbrev pub t_len : ℕ
t_len = length prefix + hash_len

-- `n` items that are the same
unfoldable pub repeated : ℕ → ℕ → Bytes
repeated zero x = []
repeated (suc n) x = x ∷ repeated n x

-- What `copy(em[i:], src)` makes of `em`: it stops at the end of either.
unfoldable pub copy_at : ℕ → Bytes → Bytes → Bytes
copy_at i src [] = []
copy_at zero [] (x ∷ em) = x ∷ em
copy_at zero (s ∷ src) (x ∷ em) = s ∷ copy_at zero src em
copy_at (suc i) src (x ∷ em) = x ∷ copy_at i src em

-- `em[i] = x` for `i` from `first` to `last - 1`
abbrev assign_range : ℕ → ℕ → ℕ → Bytes → Bytes
assign_range first last x em = copy_at first (repeated (last - first) x) em

-- encodePKCS1v15; the indices below 0 and beyond `k` panic.
unfoldable pub encode_pkcs1v15 : (Bytes → Bytes) → ℕ → Bytes → Result Bytes
encode_pkcs1v15 sha256 k content =
    let em = repeated k 0 in
    let marked = copy_at 1 (1 ∷ []) em in
    let filled = assign_range 2 (k - t_len - 1) 0xff marked in
    let with_prefix = copy_at (k - t_len) prefix filled in
    if ltb 1 k && leb t_len k
    then ok (copy_at (k - hash_len) (sha256 content) with_prefix)
    else panic
