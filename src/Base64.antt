-- ===== src/Base64.antt =====
-- src/transport/base64.cpp. A shift of a number is a product or a quotient by a power of two, an `|` of
-- fields that share no bit is a sum, and a mask of low bits is a remainder.
pub mod RoundTrip
mod Tests
use zoal_atc.Common.{ℕ, ◌+◌, ◌*◌, ◌/◌, ◌%◌, ◌^◌, [], ◌∷◌, Bytes, codes, get_or}

abbrev pub table : Bytes
table = codes "ABCDEFGHIJKLMNOPQRSTUVWXYZabcdefghijklmnopqrstuvwxyz0123456789+/"

unfoldable pub letter : ℕ → ℕ
letter i = get_or table i 0

abbrev pub triple : ℕ → ℕ → ℕ → ℕ
triple b0 b1 b2 = b0 * 2 ^ 16 + b1 * 2 ^ 8 + b2

-- One round of the loop for each three bytes; the last one pads what is missing.
unfoldable pub base64_encode : Bytes → Bytes
base64_encode [] = []
base64_encode (b0 ∷ []) =
    let t = triple b0 0 0 in letter (t / 2 ^ 18 % 64) ∷ letter (t / 2 ^ 12 % 64) ∷ b'=' ∷ b'=' ∷ []
base64_encode (b0 ∷ b1 ∷ []) =
    let t = triple b0 b1 0 in
    letter (t / 2 ^ 18 % 64) ∷ letter (t / 2 ^ 12 % 64) ∷ letter (t / 2 ^ 6 % 64) ∷ b'=' ∷ []
base64_encode (b0 ∷ b1 ∷ b2 ∷ bytes) =
    let t = triple b0 b1 b2 in
    letter (t / 2 ^ 18 % 64)
    ∷ letter (t / 2 ^ 12 % 64)
    ∷ letter (t / 2 ^ 6 % 64)
    ∷ letter (t % 64)
    ∷ base64_encode bytes
