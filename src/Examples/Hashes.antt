-- ===== src/Examples/Hashes.antt =====
-- The theorems on hash/ at concrete hashes.
use moan_subs.Prelude.{◌≤◌, ◌≡◌, refl, ◌⊎◌, arith}
use moan_subs.Prelude.Result.{ok}
use moan_subs.Prelude.Text.{codes}
use moan_subs.Prelude.Unicode.{ascii_tables}
use moan_subs.Hash.Hex.{digit_value}
use moan_subs.Hash.PHash.{hamming, ones_count, blocks, parse_phash, to_string}
use moan_subs.Hash.PHash.Sharing.{shared_block}
use moan_subs.Hash.PHash.Print.{parse_phash-to_string}
use moan_subs.Hash.OsHash.{parse_oshash, oshash_pattern}

near : hamming 0x8000000000000001 0x8000000000000700 ≤ 4
unfolding hamming ones_count
near = omega arith

shared_block_example :
    ((blocks 0x8000000000000001).b0 ≡ (blocks 0x8000000000000700).b0)
    ⊎ ((blocks 0x8000000000000001).b1 ≡ (blocks 0x8000000000000700).b1)
    ⊎ ((blocks 0x8000000000000001).b2 ≡ (blocks 0x8000000000000700).b2)
    ⊎ ((blocks 0x8000000000000001).b3 ≡ (blocks 0x8000000000000700).b3)
    ⊎ ((blocks 0x8000000000000001).b4 ≡ (blocks 0x8000000000000700).b4)
shared_block_example = shared_block 0x8000000000000001 0x8000000000000700 near

parse_phash-to_string_example : parse_phash (to_string 0xBEEF) ≡ ok 0xBEEF
parse_phash-to_string_example = parse_phash-to_string 0xBEEF (omega arith)

beef : parse_phash (codes "BeeF") ≡ ok 0xBEEF
unfolding parse_phash digit_value
beef = refl

accepted : parse_oshash ascii_tables (codes "8E245D9679D31E12") ≡ ok (codes "8e245d9679d31e12")
unfolding parse_oshash oshash_pattern
accepted = refl
