-- ===== src/Splitter/Tests.antt =====
-- Instances of the theorems about the slices of a file.
use openfs.Common.{ℕ, ◌≡◌, none, some, List, [], ◌∷◌, ◌++◌, arith, length, refl, replicate}
use openfs.Types.{l0, block_level_size}
use openfs.Splitter.{split_with_level, split_loop, block_count}
use openfs.Splitter.Slices.{Covers, split_with_level-Covers}

-- 150000 bytes in blocks of 64 KB.
three_blocks : length (split_with_level 150000 l0 none) ≡ 3
unfolding split_with_level split_loop block_count block_level_size
three_blocks = refl

-- A full block and two bytes more.
abbrev file : List ℕ
file = replicate 65536 7 ++ 1 ∷ 2 ∷ []

split_with_level-Covers_example :
    Covers l0 (some file) 0 65538 (split_with_level 65538 l0 (some file))
split_with_level-Covers_example =
    split_with_level-Covers 65538 l0 (some file) (omega arith) (omega arith)
