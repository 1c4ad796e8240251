-- ===== src/Base64/Tests.antt =====
-- base64_encode of src/transport/base64.cpp at concrete bytes.
use zoal_atc.Common.{◌≡◌, refl, some, arith, codes}
use zoal_atc.Base64.{letter, base64_encode}
use zoal_atc.Base64.RoundTrip.{decode, decode-base64_encode}

hello : base64_encode (codes "Hello") ≡ codes "SGVsbG8="
unfolding base64_encode letter
hello = refl

decode-base64_encode_example : decode (base64_encode (codes "Hello")) ≡ some (codes "Hello")
decode-base64_encode_example =
    decode-base64_encode (codes "Hello")
      (omega arith, (omega arith, (omega arith, (omega arith, (omega arith, tt)))))
