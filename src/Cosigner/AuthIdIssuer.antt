-- ===== src/Cosigner/AuthIdIssuer.antt =====
-- cosigner/authidissuer.go: the identifiers of authentication sessions.
use openpubkey.Base.{ℕ, zero, suc, ◌+◌, ◌/◌, ◌%◌, ◌^◌, [], ◌∷◌, ◌++◌}
use openpubkey.Base.Bytes.{Bytes}
use openpubkey.PkToken.ClientInstance.{encode_hex}

-- `auth_id_iter` is an atomic counter of 64 bits.
pub record AuthIdIssuer : Type 0 where
  pub auth_id_iter : ℕ
  pub hmac_key : Bytes

-- `binary.LittleEndian.AppendUint64` on an empty slice: the low byte first
little_endian : ℕ → ℕ → Bytes
little_endian zero n = []
little_endian (suc width) n = n % 256 ∷ little_endian width (n / 256)

-- (i *AuthIDIssuer) CreateAuthID, with HMAC-SHA3-256 as a parameter; its `Write` takes every byte
unfoldable pub create_auth_id : (Bytes → Bytes → Bytes) → ℕ → AuthIdIssuer → Bytes × AuthIdIssuer
unfolding little_endian
create_auth_id hmac time_now i =
    let auth_id_int = (i.auth_id_iter + 1) % 2 ^ 64 in
    (
      encode_hex (hmac i.hmac_key (little_endian 8 auth_id_int ++ little_endian 8 time_now)),
      record i { auth_id_iter = auth_id_int },
    )
