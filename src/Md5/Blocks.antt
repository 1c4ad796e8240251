-- ===== src/Md5/Blocks.antt =====
-- What md5_hex of src/navdata/md5.cpp computes, against the padding of the whole message.
use zoal_atc.Common.{
  ℕ, zero, suc, ◌+◌, ◌-◌, ◌*◌, ◌/◌, ◌%◌, ◌^◌, ◌≤◌, [], ◌∷◌, ◌++◌, ◌≡◌, refl, ap, arith, Bytes,
  length, take, drop, drop-append, drop-drop, length-append, length-drop,
}
use zoal_atc.Md5.{
  State, process_blocks, process_tail, tail, tail_len, zeros, low_first, hex, initial, md5_hex,
}

take-append :
    (n : ℕ) (bytes more : Bytes) → n ≤ length bytes → take n (bytes ++ more) ≡ take n bytes
take-append zero bytes more h = refl
take-append (suc n) [] more h = absurd (omega arith)
take-append (suc n) (byte ∷ bytes) more h = ap (◌∷◌ byte) (take-append n bytes more (omega arith))

process_blocks-append :
    (n : ℕ) (bytes more : Bytes) (s : State)
    → 64 * n ≤ length bytes
    → process_blocks n (bytes ++ more) s ≡ process_blocks n bytes s
unfolding process_blocks
process_blocks-append zero bytes more s h = refl
process_blocks-append (suc n) bytes more s h =
    rw (take-append 64 bytes more (omega arith), drop-append 64 bytes more (omega arith))
      (process_blocks-append n (drop 64 bytes) more _ (omega (arith, length-drop 64 bytes)))

process_blocks-add :
    (n j : ℕ) (bytes : Bytes) (s : State)
    → process_blocks (n + j) bytes s
      ≡ process_blocks j (drop (64 * n) bytes) (process_blocks n bytes s)
unfolding process_blocks
process_blocks-add zero j bytes s = let e : 0 + j ≡ j = omega arith in rw e refl
process_blocks-add (suc n) j bytes s =
    let e : suc n + j ≡ suc (n + j) = omega arith in
    let place : 64 * suc n ≡ 64 + 64 * n = omega arith in
    rw (e, process_blocks-add n j (drop 64 bytes), drop-drop (64 * n) 64 bytes, place) refl

tail_len-zeros : (rem : ℕ) → suc rem ≤ 64 → tail_len rem - 9 - rem ≡ (119 - rem) % 64
tail_len-zeros rem h = ground arith

-- What RFC 1321 puts behind a message of so many bytes.
unfoldable pub padding : ℕ → Bytes
padding size = 0x80 ∷ (zeros ((119 - size % 64) % 64) ++ low_first 8 (size * 8 % 2 ^ 64))

length-zeros : (n : ℕ) → length (zeros n) ≡ n
length-zeros zero = omega arith
length-zeros (suc n) = omega (arith, length-zeros n)

length-padding : (size : ℕ) → length (padding size) ≡ 9 + (119 - size % 64) % 64
unfolding padding
length-padding size = omega (
  arith,
  length-append (zeros ((119 - size % 64) % 64)) (low_first 8 (size * 8 % 2 ^ 64)),
  length-zeros ((119 - size % 64) % 64),
)

tail-padding :
    (left : Bytes) (size : ℕ) → length left ≡ size % 64 → tail left size ≡ left ++ padding size
unfolding tail padding
tail-padding left size h =
    let e : tail_len (length left) - 9 - length left ≡ (119 - size % 64) % 64 =
      rw h (tail_len-zeros (size % 64) (omega arith)) in
    rw e refl

process_tail-blocks :
    (end : Bytes) (rem : ℕ) (s : State)
    → process_tail end rem s ≡ process_blocks (tail_len rem / 64) end s
unfolding process_tail process_blocks
process_tail-blocks end rem s = ground arith

-- The number of blocks of a padded message.
padded-blocks :
    (size : ℕ) → (size + (9 + (119 - size % 64) % 64)) / 64 ≡ size / 64 + tail_len (size % 64) / 64
padded-blocks size = ground arith

abbrev pub padded : Bytes → Bytes
padded bytes = bytes ++ padding (length bytes)

-- The rounds of the whole message are those of its full blocks, then of the tail.
blocks-process_tail :
    (bytes : Bytes) (n : ℕ)
    → n ≡ length bytes / 64
    → process_tail
        (tail (drop (64 * n) bytes) (length bytes))
        (length (drop (64 * n) bytes))
        (process_blocks n bytes initial)
      ≡ process_blocks (length (padded bytes) / 64) (padded bytes) initial
blocks-process_tail bytes n h =
    let size = length bytes in
    let rem : length (drop (64 * n) bytes) ≡ size % 64 =
      omega (arith, length-drop (64 * n) bytes) in
    let fits : 64 * n ≤ length bytes = omega arith in
    let count : length (bytes ++ padding size) / 64 ≡ n + tail_len (size % 64) / 64 =
      rw (length-append bytes (padding size), length-padding size, padded-blocks size, h) refl in
    rw
      (
        count,
        process_blocks-add n (tail_len (size % 64) / 64) (bytes ++ padding size) initial,
        process_blocks-append n bytes (padding size) initial fits,
        drop-append (64 * n) bytes (padding size) fits,
        process_tail-blocks (tail (drop (64 * n) bytes) size) (length (drop (64 * n) bytes))
            (process_blocks n bytes initial),
        tail-padding (drop (64 * n) bytes) size rem,
        rem,
      )
      refl

-- The message with 0x80, the fewest zeros and its length in bits as eight bytes behind it, the
-- lowest first, is made of whole blocks of 64 bytes, and `md5_hex` gives the digits of the state
-- after all of these in their order, however many of them hold the end of the message.
pub md5_hex-padded :
    (bytes : Bytes)
    → (length (padded bytes) % 64 ≡ 0)
      × (md5_hex bytes ≡ hex (process_blocks (length (padded bytes) / 64) (padded bytes) initial))
unfolding md5_hex
md5_hex-padded bytes = (
  omega (arith, length-append bytes (padding (length bytes)), length-padding (length bytes)),
  ap hex (blocks-process_tail bytes (length bytes / 64) refl),
)
