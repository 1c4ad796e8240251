-- ===== src/Md5/Tests.antt =====
-- The vectors of RFC 1321 for src/navdata/md5.cpp.
use zoal_atc.Common.{◌≡◌, refl, [], ◌/◌, ◌%◌, length, codes}
use zoal_atc.Md5.{
  md5_hex, process_blocks, process_block, process_tail, tail, initial, hex, rounds, round, mixed,
  rotl, shift, word_index, word_at,
}
use zoal_atc.Md5.Blocks.{padded, md5_hex-padded}

empty : md5_hex [] ≡ codes "d41d8cd98f00b204e9800998ecf8427e"
unfolding md5_hex process_blocks process_block process_tail tail hex rounds round mixed rotl shift
    word_index word_at
empty = refl

abc : md5_hex (codes "abc") ≡ codes "900150983cd24fb0d6963f7d28e17f72"
unfolding md5_hex process_blocks process_block process_tail tail hex rounds round mixed rotl shift
    word_index word_at
abc = refl

md5_hex-padded_example :
    (length (padded (codes "abc")) % 64 ≡ 0)
    × (md5_hex (codes "abc")
        ≡ hex (process_blocks (length (padded (codes "abc")) / 64) (padded (codes "abc")) initial))
md5_hex-padded_example = md5_hex-padded (codes "abc")
