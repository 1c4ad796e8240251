-- ===== src/Md5.antt =====
-- src/navdata/md5.cpp. Words have 32 bits and wrap; the complement of one is what it lacks to all ones.
-- (The words of a block are read as on a host with the low byte first.)
pub mod Blocks
mod Tests
use Prim.Native.Nat.{bit_and, bit_or, bit_xor}
use zoal_atc.Common.{
  ℕ, zero, suc, ◌+◌, ◌-◌, ◌*◌, ◌/◌, ◌%◌, ◌^◌, List, [], ◌∷◌, ◌++◌, ltb, ◌==◌, if◌then◌else◌, Bytes,
  codes, length, take, drop, get_or,
}

abbrev pub constants : List ℕ
constants =
    0xd76aa478 ∷ 0xe8c7b756 ∷ 0x242070db ∷ 0xc1bdceee ∷ 0xf57c0faf ∷ 0x4787c62a ∷ 0xa8304613
    ∷ 0xfd469501 ∷ 0x698098d8 ∷ 0x8b44f7af ∷ 0xffff5bb1 ∷ 0x895cd7be ∷ 0x6b901122 ∷ 0xfd987193
    ∷ 0xa679438e ∷ 0x49b40821 ∷ 0xf61e2562 ∷ 0xc040b340 ∷ 0x265e5a51 ∷ 0xe9b6c7aa ∷ 0xd62f105d
    ∷ 0x02441453 ∷ 0xd8a1e681 ∷ 0xe7d3fbc8 ∷ 0x21e1cde6 ∷ 0xc33707d6 ∷ 0xf4d50d87 ∷ 0x455a14ed
    ∷ 0xa9e3e905 ∷ 0xfcefa3f8 ∷ 0x676f02d9 ∷ 0x8d2a4c8a ∷ 0xfffa3942 ∷ 0x8771f681 ∷ 0x6d9d6122
    ∷ 0xfde5380c ∷ 0xa4beea44 ∷ 0x4bdecfa9 ∷ 0xf6bb4b60 ∷ 0xbebfbc70 ∷ 0x289b7ec6 ∷ 0xeaa127fa
    ∷ 0xd4ef3085 ∷ 0x04881d05 ∷ 0xd9d4d039 ∷ 0xe6db99e5 ∷ 0x1fa27cf8 ∷ 0xc4ac5665 ∷ 0xf4292244
    ∷ 0x432aff97 ∷ 0xab9423a7 ∷ 0xfc93a039 ∷ 0x655b59c3 ∷ 0x8f0ccc92 ∷ 0xffeff47d ∷ 0x85845dd1
    ∷ 0x6fa87e4f ∷ 0xfe2ce6e0 ∷ 0xa3014314 ∷ 0x4e0811a1 ∷ 0xf7537e82 ∷ 0xbd3af235 ∷ 0x2ad7d2bb
    ∷ 0xeb86d391 ∷ []

-- The shifts of the four rounds, of which each repeats its own.
abbrev pub shifts : List ℕ
shifts = 7 ∷ 12 ∷ 17 ∷ 22 ∷ 5 ∷ 9 ∷ 14 ∷ 20 ∷ 4 ∷ 11 ∷ 16 ∷ 23 ∷ 6 ∷ 10 ∷ 15 ∷ 21 ∷ []

unfoldable pub shift : ℕ → ℕ
shift i = get_or shifts (i / 16 * 4 + i % 4) 0

unfoldable pub rotl : ℕ → ℕ → ℕ
rotl value bits = bit_or (value * 2 ^ bits % 2 ^ 32) (value / 2 ^ (32 - bits))

abbrev pub complement : ℕ → ℕ
complement word = 2 ^ 32 - 1 - word

pub record State : Type 0 where
  pub a : ℕ
  pub b : ℕ
  pub c : ℕ
  pub d : ℕ

unfoldable pub mixed : ℕ → State → ℕ
mixed i s =
    if ltb i 16
    then bit_or (bit_and s.b s.c) (bit_and (complement s.b) s.d)
    else if ltb i 32
    then bit_or (bit_and s.d s.b) (bit_and (complement s.d) s.c)
    else if ltb i 48
    then bit_xor (bit_xor s.b s.c) s.d
    else bit_xor s.c (bit_or s.b (complement s.d))

unfoldable pub word_index : ℕ → ℕ
word_index i =
    if ltb i 16
    then i
    else if ltb i 32
    then (5 * i + 1) % 16
    else if ltb i 48
    then (3 * i + 5) % 16
    else 7 * i % 16

unfoldable pub word_at : Bytes → ℕ → ℕ
word_at block i =
    get_or block (4 * i) 0
    + get_or block (4 * i + 1) 0 * 2 ^ 8
    + get_or block (4 * i + 2) 0 * 2 ^ 16
    + get_or block (4 * i + 3) 0 * 2 ^ 24

unfoldable pub round : Bytes → ℕ → State → State
unfolding mixed rotl shift word_index word_at
round block i s = record {
  a = s.d;
  b =
      (s.b
        + rotl ((s.a + mixed i s + get_or constants i 0 + word_at block (word_index i)) % 2 ^ 32)
            (shift i))
      % 2 ^ 32;
  c = s.b;
  d = s.c;
}

-- The rounds from `i` on, of which `left` are left.
unfoldable pub rounds : ℕ → ℕ → Bytes → State → State
unfolding round
rounds zero i block s = s
rounds (suc left) i block s = rounds left (suc i) block (round block i s)

abbrev pub added : State → State → State
added s t = record {
  a = (s.a + t.a) % 2 ^ 32;
  b = (s.b + t.b) % 2 ^ 32;
  c = (s.c + t.c) % 2 ^ 32;
  d = (s.d + t.d) % 2 ^ 32;
}

unfoldable pub process_block : Bytes → State → State
unfolding rounds
process_block block s = added s (rounds 64 0 block s)

abbrev pub initial : State
initial = record { a = 0x67452301; b = 0xefcdab89; c = 0x98badcfe; d = 0x10325476 }

-- The loop over so many whole blocks.
unfoldable pub process_blocks : ℕ → Bytes → State → State
process_blocks zero bytes s = s
process_blocks (suc count) bytes s =
    process_blocks count (drop 64 bytes) (process_block (take 64 bytes) s)

abbrev pub zeros : ℕ → Bytes
zeros zero = []
zeros (suc n) = 0 ∷ zeros n

-- The bytes of a number, the lowest first.
abbrev pub low_first : ℕ → ℕ → Bytes
low_first zero value = []
low_first (suc count) value = (value % 256) ∷ low_first count (value / 256)

abbrev pub tail_len : ℕ → ℕ
tail_len rem = if ltb rem 56 then 64 else 128

-- The bytes left, 0x80, zeros, and the number of bits in 64 bits.
unfoldable pub tail : Bytes → ℕ → Bytes
tail left size =
    left
    ++ 0x80 ∷ (zeros (tail_len (length left) - 9 - length left) ++ low_first 8 (size * 8 % 2 ^ 64))

unfoldable pub process_tail : Bytes → ℕ → State → State
process_tail end rem s =
    let first = process_block (take 64 end) s in
    if tail_len rem == 128 then process_block (take 64 (drop 64 end)) first else first

abbrev pub hex_digits : Bytes
hex_digits = codes "0123456789abcdef"

-- Two digits for each of so many bytes of a word.
abbrev pub hex_word : ℕ → ℕ → Bytes
hex_word zero word = []
hex_word (suc count) word =
    get_or hex_digits (word % 256 / 16 % 16) 0
    ∷ get_or hex_digits (word % 256 % 16) 0
    ∷ hex_word count (word / 256)

unfoldable pub hex : State → Bytes
hex s = hex_word 4 s.a ++ (hex_word 4 s.b ++ (hex_word 4 s.c ++ hex_word 4 s.d))

unfoldable pub md5_hex : Bytes → Bytes
unfolding process_blocks process_tail tail hex
md5_hex bytes =
    let full_blocks = length bytes / 64 in
    let left = drop (64 * full_blocks) bytes in
    hex (
      process_tail (tail left (length bytes)) (length left)
        (process_blocks full_blocks bytes initial))
