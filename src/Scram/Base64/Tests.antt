-- ===== src/Scram/Base64/Tests.antt =====
-- runtime/vader_scram.c: base64 of known bytes.
use vader_langue.Prelude.{◌≡◌, refl, [], ◌∷◌, codes, arith}
use vader_langue.Scram.Base64.{b64encode, b64decode, decode_from, b64_val}
use vader_langue.Scram.Base64.RoundTrip.{b64decode-b64encode}

encode_man : b64encode (codes "Man") ≡ codes "TWFu"
unfolding b64encode
encode_man = refl

-- Bytes that are no digits are passed over.
decode_noise : b64decode (codes "T W\nE=") ≡ codes "Ma"
unfolding b64decode decode_from b64_val
decode_noise = refl

b64decode-b64encode_example : b64decode (b64encode (0 ∷ 255 ∷ 7 ∷ 9 ∷ [])) ≡ 0 ∷ 255 ∷ 7 ∷ 9 ∷ []
b64decode-b64encode_example =
    b64decode-b64encode (0 ∷ 255 ∷ 7 ∷ 9 ∷ [])
      (omega arith, (omega arith, (omega arith, (omega arith, _))))
