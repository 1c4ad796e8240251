-- ===== src/WebSocket/Frame.antt =====
-- The bytes of a frame (the free functions and send_text_locked of
-- src/transport/websocket_client.cpp). Of a 16-bit or 64-bit number the bytes are quotients and
-- remainders by powers of two.
use Prim.Native.Nat.{bit_xor}
use zoal_atc.Common.{
  ℕ, zero, suc, ◌+◌, ◌*◌, ◌/◌, ◌%◌, ◌^◌, [], ◌∷◌, ◌++◌, leb, if◌then◌else◌, Bytes, length, get_or,
}

-- The bytes that `append_u16` pushes.
unfoldable pub append_u16 : ℕ → Bytes
append_u16 value = (value / 2 ^ 8 % 256) ∷ (value % 256) ∷ []

-- One byte for each `shift` of the loop, of which `count` are left.
abbrev pub shifted : ℕ → ℕ → Bytes
shifted zero value = []
shifted (suc count) value = (value / 2 ^ (8 * count) % 256) ∷ shifted count value

unfoldable pub append_u64 : ℕ → Bytes
append_u64 value = shifted 8 value

unfoldable pub read_u16 : Bytes → ℕ
read_u16 extended = get_or extended 0 0 * 2 ^ 8 + get_or extended 1 0

abbrev pub read_loop : Bytes → ℕ → ℕ
read_loop [] value = value
read_loop (b ∷ extended) value = read_loop extended (value * 2 ^ 8 % 2 ^ 64 + b)

unfoldable pub read_u64 : Bytes → ℕ
read_u64 extended = read_loop extended 0

-- `data[i] ^= mask[i % mask.size()]` from the index `i` on.
unfoldable pub mask_from : Bytes → ℕ → Bytes → Bytes
mask_from mask i [] = []
mask_from mask i (b ∷ bytes) = bit_xor b (get_or mask (i % 4) 0) ∷ mask_from mask (suc i) bytes

-- The second byte of a masked frame and the longer forms of the length.
unfoldable pub size_bytes : ℕ → Bytes
size_bytes size =
    if leb size 125
    then (0x80 + size) ∷ []
    else if leb size 0xFFFF
    then (0x80 + 126) ∷ append_u16 size
    else (0x80 + 127) ∷ append_u64 size

-- The frame that `send_text_locked` builds, with the mask that it draws.
unfoldable pub text_frame : Bytes → Bytes → Bytes
text_frame mask payload = 0x81 ∷ (size_bytes (length payload) ++ (mask ++ mask_from mask 0 payload))
