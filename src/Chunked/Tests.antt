-- ===== src/Chunked/Tests.antt =====
-- Tests of chunked.ts, and its theorem at a concrete input.
use grc_explorer.Common.{ℕ, ◌≡◌, ◌<◌, refl, List, [], ◌∷◌, All, arith}
use grc_explorer.Chunked.{chunked, chunks_from, joined, IsChunk, chunked-IsChunk}

abbrev five : List ℕ
five = 1 ∷ 2 ∷ 3 ∷ 4 ∷ 5 ∷ []

two_by_two : chunked five 2 ≡ (1 ∷ 2 ∷ []) ∷ (3 ∷ 4 ∷ []) ∷ (5 ∷ []) ∷ []
unfolding chunked chunks_from
two_by_two = refl

two_pos : 0 < 2
two_pos = omega arith

chunked-IsChunk_example :
    (joined (chunked five 2) ≡ five) × All (IsChunk {A = ℕ} 2 two_pos) (chunked five 2)
chunked-IsChunk_example = chunked-IsChunk 2 two_pos five
