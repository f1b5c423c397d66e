-- ===== src/Indexer/BlockWriter/Insert.antt =====
-- The insertion of lib/db.ts, as BlockWriter.ts uses it.
use grc_explorer.Common.{
  ℕ, zero, suc, take, drop, ◌≡◌, refl, sym, ap, ◌∙◌, subst, Bool, true, false, ◌||◌, List, [], ◌∷◌,
  ◌++◌, append-nil, append_assoc, if◌then◌else◌, not, keep, keep-true, keep-false, any, All, arith,
  Bool-cases, inl, inr,
}
use grc_explorer.Indexer.BlockWriter.{
  Progress, complete, slices, performed, set_row, dedupe_by_pk, insert_ignore, insert_slices,
  insert_chain,
}
use grc_explorer.Chunked.{chunked, joined, chunked-IsChunk}

module _ {ℓ} {A : Type ℓ} where
  pub any-append : (p : A → Bool) (xs ys : List A) → any p (xs ++ ys) ≡ (any p xs || any p ys)
  any-append p [] ys = refl
  any-append p (x ∷ xs) ys = ground (arith, any-append p xs ys)

  pub All-append_left {κ} : (P : A → Type κ) (xs ys : List A) → All P (xs ++ ys) → All P xs
  All-append_left P [] ys h = tt
  All-append_left P (x ∷ xs) ys (h, hs) = (h, All-append_left P xs ys hs)

  joined-take : (n : ℕ) (cs : List (List A)) → joined (take n cs) ++ joined (drop n cs) ≡ joined cs
  joined-take zero cs = refl
  joined-take (suc n) [] = refl
  joined-take (suc n) (c ∷ cs) =
      append_assoc c (joined (take n cs)) _ ∙ ap (λ l. c ++ l) (joined-take n cs)

module _ {ℓ} {A : Type ℓ} (same : A → A → Bool) where
  -- A row with the same key is there.
  abbrev pub has_row : A → List A → Bool
  has_row r t = any (λ x. same x r) t

  -- No two rows have the same key.
  abbrev pub AreUnique : List A → Type 0
  AreUnique [] = Unit
  AreUnique (x ∷ xs) = All (λ y. same x y ≡ false) xs × AreUnique xs

  -- The slices of the rows hold all of them.
  pub joined_all :
      (rows : List A)
      → joined (chunked (dedupe_by_pk same [] rows) 1000) ≡ dedupe_by_pk same [] rows
  joined_all rows = (chunked-IsChunk 1000 (omega arith) (dedupe_by_pk same [] rows)).0

  insert_ignore-there :
      (r : A) (rs t : List A)
      → has_row r t ≡ true
      → insert_ignore same (r ∷ rs) t ≡ insert_ignore same rs t
  unfolding insert_ignore
  insert_ignore-there r rs t h = ap (λ b. insert_ignore same rs (if b then t else t ++ r ∷ [])) h

  insert_ignore-new :
      (r : A) (rs t : List A)
      → has_row r t ≡ false
      → insert_ignore same (r ∷ rs) t ≡ insert_ignore same rs (t ++ r ∷ [])
  unfolding insert_ignore
  insert_ignore-new r rs t h = ap (λ b. insert_ignore same rs (if b then t else t ++ r ∷ [])) h

  insert_ignore-keeps :
      (p : A → Bool) (rs t : List A) → any p t ≡ true → any p (insert_ignore same rs t) ≡ true
  unfolding insert_ignore
  insert_ignore-keeps p [] t h = h
  insert_ignore-keeps p (r ∷ rs) t h = elim (Bool-cases (has_row r t)) [
    | inl there ↦ ap (any p) (insert_ignore-there r rs t there) ∙ insert_ignore-keeps p rs t h
    | inr new ↦
        ap (any p) (insert_ignore-new r rs t new)
        ∙ insert_ignore-keeps p rs (t ++ r ∷ []) (any-append p t (r ∷ []) ∙ ground arith)
  ]

  insert_ignore-has :
      ((x : A) → same x x ≡ true)
      → (rs t : List A) → All (λ r. has_row r (insert_ignore same rs t) ≡ true) rs
  insert_ignore-has same_self [] t = tt
  insert_ignore-has same_self (r ∷ rs) t =
      let Q : List A → Type 0 = λ l. All (λ x. has_row x l ≡ true) (r ∷ rs) in
      elim (Bool-cases (has_row r t)) [
        | inl there ↦
            subst Q (sym (insert_ignore-there r rs t there))
              (insert_ignore-keeps (λ x. same x r) rs t there, insert_ignore-has same_self rs t)
        | inr new ↦
            let self = same_self r in
            subst Q (sym (insert_ignore-new r rs t new)) (
              insert_ignore-keeps (λ x. same x r) rs (t ++ r ∷ [])
                  (any-append (λ x. same x r) t (r ∷ []) ∙ ground arith),
              insert_ignore-has same_self rs (t ++ r ∷ []),
            )
      ]

  insert_ignore-present :
      (rs t : List A) → All (λ r. has_row r t ≡ true) rs → insert_ignore same rs t ≡ t
  unfolding insert_ignore
  insert_ignore-present [] t h = refl
  insert_ignore-present (r ∷ rs) t (h, hs) =
      insert_ignore-there r rs t h ∙ insert_ignore-present rs t hs

  -- Rows that are inserted a second time change nothing.
  insert_ignore_twice :
      ((x : A) → same x x ≡ true)
      → (rs t : List A) → insert_ignore same rs (insert_ignore same rs t) ≡ insert_ignore same rs t
  insert_ignore_twice same_self rs t = insert_ignore-present rs _ (insert_ignore-has same_self rs t)

  insert_ignore-append :
      (rs qs t : List A)
      → insert_ignore same (rs ++ qs) t ≡ insert_ignore same qs (insert_ignore same rs t)
  unfolding insert_ignore
  insert_ignore-append [] qs t = refl
  insert_ignore-append (r ∷ rs) qs t = insert_ignore-append rs qs _

  -- Slices that are inserted one after the other are inserted together.
  insert_slices-joined :
      (cs : List (List A)) (t : List A)
      → insert_slices same (insert_ignore same) cs t ≡ insert_ignore same (joined cs) t
  unfolding insert_slices insert_ignore
  insert_slices-joined [] t = refl
  insert_slices-joined (c ∷ cs) t =
      insert_slices-joined cs (insert_ignore same c t) ∙ sym (insert_ignore-append c (joined cs) t)

  -- The rows that a write performs, and those behind them.
  abbrev pub first_rows : Progress → List A → List A
  first_rows p rows = joined (performed p (chunked (dedupe_by_pk same [] rows) 1000))

  pub first_rows-rest :
      (p : Progress) (rows : List A)
      → (rest : List A) × (dedupe_by_pk same [] rows ≡ first_rows p rows ++ rest)
  first_rows-rest complete rows = ([], sym (append-nil _ ∙ joined_all rows))
  first_rows-rest (slices n) rows = (
    joined (drop n (chunked (dedupe_by_pk same [] rows) 1000)),
    sym (joined-take n _ ∙ joined_all rows),
  )

  pub insert_chain-first_rows :
      (p : Progress) (rows t : List A)
      → insert_chain same p rows t ≡ insert_ignore same (first_rows p rows) t
  unfolding insert_chain
  insert_chain-first_rows p rows t =
      insert_slices-joined (performed p (chunked (dedupe_by_pk same [] rows) 1000)) t

  pub insert_chain_complete :
      (rows t : List A)
      → insert_chain same complete rows t ≡ insert_ignore same (dedupe_by_pk same [] rows) t
  insert_chain_complete rows t =
      insert_chain-first_rows complete rows t ∙ ap (λ l. insert_ignore same l t) (joined_all rows)

  -- Rows of which some were inserted before end up as if none was.
  pub insert_chain_again :
      ((x : A) → same x x ≡ true)
      → (p : Progress) (rows t : List A)
      → insert_chain same complete rows (insert_chain same p rows t)
        ≡ insert_chain same complete rows t
  insert_chain_again same_self p rows t =
      let (rest, e) = first_rows-rest p rows in
      let done = first_rows p rows in
      let whole : (u : List A)
          → insert_chain same complete rows u
            ≡ insert_ignore same rest (insert_ignore same done u) =
        λ u.
          insert_chain_complete rows u
          ∙ ap (λ l. insert_ignore same l u) e
          ∙ insert_ignore-append done rest u in
      ap (insert_chain same complete rows) (insert_chain-first_rows p rows t)
      ∙ whole (insert_ignore same done t)
      ∙ ap (insert_ignore same rest) (insert_ignore_twice same_self done t)
      ∙ sym (whole t)

  set_row-new : (r : A) (m : List A) → has_row r m ≡ false → set_row same r m ≡ m ++ r ∷ []
  unfolding set_row
  set_row-new r [] h = refl
  set_row-new r (x ∷ m) h =
      let other : same x r ≡ false = ground arith in
      rw other (ap (λ l. x ∷ l) (set_row-new r m (ground arith)))

  All-has_row-snoc :
      (r : A) (m rs : List A)
      → All (λ y. has_row y m ≡ false) rs
      → All (λ y. same r y ≡ false) rs
      → All (λ y. has_row y (m ++ r ∷ []) ≡ false) rs
  All-has_row-snoc r m [] h d = tt
  All-has_row-snoc r m (y ∷ rs) (h, hs) (d, ds) =
      (any-append (λ x. same x y) m (r ∷ []) ∙ ground arith, All-has_row-snoc r m rs hs ds)

  dedupe_by_pk_unique :
      (rs m : List A)
      → All (λ y. has_row y m ≡ false) rs
      → AreUnique rs
      → dedupe_by_pk same m rs ≡ m ++ rs
  unfolding dedupe_by_pk
  dedupe_by_pk_unique [] m h u = sym (append-nil m)
  dedupe_by_pk_unique (r ∷ rs) m (h, hs) (d, u) =
      ap (λ l. dedupe_by_pk same l rs) (set_row-new r m h)
      ∙ dedupe_by_pk_unique rs (m ++ r ∷ []) (All-has_row-snoc r m rs hs d) u
      ∙ append_assoc m (r ∷ []) rs

  All-has_row-later :
      (r : A) (m rs : List A)
      → All (λ y. same r y ≡ false) rs
      → keep (λ y. not (has_row y (m ++ r ∷ []))) rs ≡ keep (λ y. not (has_row y m)) rs
  All-has_row-later r m [] d = refl
  All-has_row-later r m (y ∷ rs) (d, ds) =
      let ih = All-has_row-later r m rs ds in
      let e : has_row y (m ++ r ∷ []) ≡ has_row y m =
        any-append (λ x. same x y) m (r ∷ []) ∙ ground arith in
      let f : Bool → List A → List A = λ b l. elim (not b) [ true ↦ y ∷ l | false ↦ l ] in
      ap (λ b. f b (keep (λ z. not (has_row z (m ++ r ∷ []))) rs)) e ∙ ap (f (has_row y m)) ih

  insert_ignore-keep :
      (rs t : List A)
      → AreUnique rs
      → insert_ignore same rs t ≡ t ++ keep (λ r. not (has_row r t)) rs
  unfolding insert_ignore
  insert_ignore-keep [] t u = sym (append-nil t)
  insert_ignore-keep (r ∷ rs) t (d, u) =
      let new : A → Bool = λ y. not (has_row y t) in
      elim (Bool-cases (has_row r t)) [
        | inl there ↦
            insert_ignore-there r rs t there
            ∙ insert_ignore-keep rs t u
            ∙ ap (λ l. t ++ l) (sym (keep-false new r rs (ap not there)))
        | inr fresh ↦
            insert_ignore-new r rs t fresh
            ∙ insert_ignore-keep rs (t ++ r ∷ []) u
            ∙ append_assoc t (r ∷ []) _
            ∙ ap (λ l. t ++ r ∷ l) (All-has_row-later r t rs d)
            ∙ ap (λ l. t ++ l) (sym (keep-true new r rs (ap not fresh)))
      ]

  none_yet : (rows : List A) → All (λ y. has_row y [] ≡ false) rows
  none_yet [] = tt
  none_yet (y ∷ rows) = (refl, none_yet rows)

  pub AreUnique-append_left : (rs qs : List A) → AreUnique (rs ++ qs) → AreUnique rs
  AreUnique-append_left [] qs u = tt
  AreUnique-append_left (r ∷ rs) qs (d, u) =
      (All-append_left _ rs qs d, AreUnique-append_left rs qs u)

  -- Of rows with different keys, those with new keys are added at the end, as far as the write is
  -- performed.
  pub insert_chain-keep :
      (p : Progress) (rows t : List A)
      → AreUnique rows
      → (done rest : List A) × (rows ≡ done ++ rest)
        × (insert_chain same p rows t ≡ t ++ keep (λ r. not (has_row r t)) done)
  insert_chain-keep p rows t u =
      let (rest, e) = first_rows-rest p rows in
      let whole : rows ≡ first_rows p rows ++ rest =
        sym (dedupe_by_pk_unique rows [] (none_yet rows) u) ∙ e in
      (
        first_rows p rows,
        rest,
        whole,
        insert_chain-first_rows p rows t
            ∙ insert_ignore-keep (first_rows p rows) t
                (AreUnique-append_left _ rest (subst AreUnique whole u)),
      )

  keep_all :
      (rows t : List A)
      → All (λ y. has_row y t ≡ false) rows
      → keep (λ r. not (has_row r t)) rows ≡ rows
  keep_all [] t h = refl
  keep_all (r ∷ rows) t (h, hs) =
      keep-true (λ y. not (has_row y t)) r rows (ap not h) ∙ ap (λ l. r ∷ l) (keep_all rows t hs)

  -- Rows with new and different keys are added at the end.
  pub insert_chain-append :
      (rows t : List A)
      → All (λ y. has_row y t ≡ false) rows
      → AreUnique rows
      → insert_chain same complete rows t ≡ t ++ rows
  insert_chain-append rows t new u =
      insert_chain_complete rows t
      ∙ ap (λ l. insert_ignore same l t) (dedupe_by_pk_unique rows [] (none_yet rows) u)
      ∙ insert_ignore-keep rows t u
      ∙ ap (λ l. t ++ l) (keep_all rows t new)
