-- ===== src/Chunked.antt =====
-- packages/grc-explorer/src/lib/chunked.ts: a list in chunks of a fixed size.
mod Tests
use grc_explorer.Common.{
  ℕ, zero, suc, ◌+◌, ◌-◌, ◌≤◌, ◌<◌, ◌≡◌, refl, sym, ap, ◌∙◌, List, [], ◌∷◌, ◌++◌, length, take,
  drop, take-append-drop, length-take, length-drop, All, arith,
}

-- The loop, with fuel; each round takes at least one element, so the length is fuel enough.
unfoldable pub chunks_from {ℓ} : {A : Type ℓ} → ℕ → ℕ → List A → List (List A)
chunks_from zero size xs = []
chunks_from (suc fuel) size [] = []
chunks_from (suc fuel) size (x ∷ xs) =
    take size (x ∷ xs) ∷ chunks_from fuel size (drop size (x ∷ xs))

unfoldable pub chunked {ℓ} : {A : Type ℓ} → List A → ℕ → List (List A)
chunked arr size = chunks_from (length arr) size arr

abbrev pub joined {ℓ} : {A : Type ℓ} → List (List A) → List A
joined [] = []
joined (c ∷ cs) = c ++ joined cs

module _ {ℓ} {A : Type ℓ} (size : ℕ) (pos : 0 < size) where
  joined-chunks_from :
      (fuel : ℕ) (xs : List A) → length xs ≤ fuel → joined (chunks_from fuel size xs) ≡ xs
  unfolding chunks_from
  joined-chunks_from zero [] h = refl
  joined-chunks_from zero (x ∷ xs) h = absurd (omega arith)
  joined-chunks_from (suc fuel) [] h = refl
  joined-chunks_from (suc fuel) (x ∷ xs) h =
      ap (λ l. take size (x ∷ xs) ++ l)
        (joined-chunks_from fuel (drop size (x ∷ xs)) (omega (arith, length-drop size (x ∷ xs))))
      ∙ take-append-drop size (x ∷ xs)

  -- The length of a chunk is between 1 and the size.
  abbrev pub IsChunk : List A → Type 0
  IsChunk c = (0 < length c) × (length c ≤ size)

  chunks_from-IsChunk : (fuel : ℕ) (xs : List A) → All IsChunk (chunks_from fuel size xs)
  unfolding chunks_from
  chunks_from-IsChunk zero xs = tt
  chunks_from-IsChunk (suc fuel) [] = tt
  chunks_from-IsChunk (suc fuel) (x ∷ xs) =
      let n = length-take size (x ∷ xs) in
      ((omega arith, omega arith), chunks_from-IsChunk fuel (drop size (x ∷ xs)))

  -- For a size that is not 0, the chunks of a list joined in order are the list, and each of them
  -- has at least one element and at most as many as the size.
  pub chunked-IsChunk :
      (xs : List A) → (joined (chunked xs size) ≡ xs) × All IsChunk (chunked xs size)
  unfolding chunked
  chunked-IsChunk xs =
      (joined-chunks_from (length xs) xs (omega arith), chunks_from-IsChunk (length xs) xs)
