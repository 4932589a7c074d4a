-- ===== src/Util/Base64/Tests.antt =====
-- Runs and instances of base64.
use openpubkey.Base.{msg, ok, err, ◌≡◌, refl, [], ◌∷◌, arith}
use openpubkey.Base.Bytes.{str}
use openpubkey.Util.Base64.{base64_encode, base64_decode}
use openpubkey.Util.Base64.RoundTrip.{decode-encode, encode-decode}

encode_run : base64_encode (str "fakes") ≡ str "ZmFrZXM"
unfolding base64_encode
encode_run = refl

-- In strict mode the unused bits must be zero.
decode_strict : base64_decode (str "ZmFrZXN") ≡ err (msg "illegal base64 data at input byte %d")
unfolding base64_decode
decode_strict = refl

decode_run : base64_decode (str "ZmFrZXM") ≡ ok (str "fakes")
unfolding base64_decode
decode_run = refl

-- A line feed is passed over, so the premises of the uniqueness are needed.
decode_line_feed : base64_decode (b'Z' ∷ 10 ∷ str "mFrZXM") ≡ ok (str "fakes")
unfolding base64_decode
decode_line_feed = refl

decode-encode_example :
    base64_decode (base64_encode (255 ∷ 0 ∷ 7 ∷ 9 ∷ [])) ≡ ok (255 ∷ 0 ∷ 7 ∷ 9 ∷ [])
decode-encode_example = decode-encode (255 ∷ 0 ∷ 7 ∷ 9 ∷ []) (omega arith)

encode-decode_example : base64_encode (str "fakes") ≡ str "ZmFrZXM"
encode-decode_example =
    encode-decode (str "ZmFrZXM") (str "fakes") (omega arith) (omega arith) decode_run
