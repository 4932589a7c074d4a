-- ===== src/PkToken/Compact/Tests.antt =====
-- Runs and instances of the compact form.
use openpubkey.Base.{msg, ok, err, ◌≡◌, refl, List, [], ◌∷◌, arith, none, some}
use openpubkey.Base.Bytes.{Bytes, str, split, join, cut, eqb}
use openpubkey.Oidc.Compact.{split_compact}
use openpubkey.PkToken.Compact.{compact_pk_token, split_compact_pk_token}
use openpubkey.PkToken.Compact.RoundTrip.{split-compact, compact-split}

abbrev op_and_cic : List Bytes
op_and_cic = str "hd.pay.sg" ∷ str "h2.pay.s2" ∷ []

abbrev compacted : Bytes
compacted = str "pay:hd:sg:h2:s2.x.y.z"

compact_run : compact_pk_token op_and_cic (some (str "x.y.z")) ≡ ok compacted
unfolding compact_pk_token split_compact split join eqb
compact_run = refl

split_run : split_compact_pk_token compacted ≡ ok (op_and_cic, some (str "x.y.z"))
unfolding split_compact_pk_token split join cut
split_run = refl

compact_other_payload :
    compact_pk_token (str "hd.pay.sg" ∷ str "h2.paz.s2" ∷ []) none
    ≡ err (msg "payloads in tokens are not the same got %s and %s")
unfolding compact_pk_token split_compact split join eqb
compact_other_payload = refl

split-compact_example : split_compact_pk_token compacted ≡ ok (op_and_cic, some (str "x.y.z"))
split-compact_example =
    split-compact op_and_cic (some (str "x.y.z")) compacted (omega arith) compact_run

compact-split_example : compact_pk_token op_and_cic (some (str "x.y.z")) ≡ ok compacted
compact-split_example = compact-split compacted op_and_cic (some (str "x.y.z")) split_run
