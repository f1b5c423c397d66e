-- ===== src/Indexer/BlockWriter/Upsert.antt =====
-- The update on conflict of lib/db.ts, for the rows of `mrc_requests` in BlockWriter.ts.
use grc_explorer.Common.{
  ◌≡◌, refl, sym, ap, ◌∙◌, subst, true, false, List, [], ◌∷◌, ◌++◌, str_eq, str_eq_iff, str_eq_refl,
  All, arith, Bool-cases, inl, inr,
}
use grc_explorer.Parsed.{HeightRow}
use grc_explorer.Chunked.{chunked, joined}
use grc_explorer.Indexer.BlockWriter.{
  Progress, complete, performed, same_key, set_row, dedupe_by_pk, insert_update, insert_slices,
  upsert,
}
use grc_explorer.Indexer.BlockWriter.Insert.{
  AreUnique, AreUnique-append_left, first_rows, first_rows-rest, joined_all,
}

-- The first row with the key of the row is the row itself.
data IsStored (r : HeightRow) : List HeightRow → Type 0 where
  here : {x : HeightRow} {t : List HeightRow} → x ≡ r → IsStored r (x ∷ t)
  there :
      {x : HeightRow} {t : List HeightRow}
      → same_key x r ≡ false
      → IsStored r t
      → IsStored r (x ∷ t)

set_row-same :
    (r x : HeightRow) (t : List HeightRow)
    → same_key x r ≡ true
    → set_row same_key r (x ∷ t) ≡ r ∷ t
unfolding set_row
set_row-same r x t h = rw h

set_row-other :
    (r x : HeightRow) (t : List HeightRow)
    → same_key x r ≡ false
    → set_row same_key r (x ∷ t) ≡ x ∷ set_row same_key r t
unfolding set_row
set_row-other r x t h = rw h

set_row-IsStored : (r : HeightRow) (t : List HeightRow) → IsStored r (set_row same_key r t)
unfolding set_row
set_row-IsStored r [] = here refl
set_row-IsStored r (x ∷ t) = elim (Bool-cases (same_key x r)) [
  | inl y ↦ subst (IsStored r) (sym (set_row-same r x t y)) (here refl)
  | inr n ↦ subst (IsStored r) (sym (set_row-other r x t n)) (there n (set_row-IsStored r t))
]

IsStored-set_row : (r : HeightRow) (t : List HeightRow) → IsStored r t → set_row same_key r t ≡ t
IsStored-set_row r [] s = elim s [ ]
IsStored-set_row r (x ∷ t) (here e) =
    set_row-same r x t (ap (λ (y : HeightRow). str_eq y.key r.key) e ∙ str_eq_refl r.key)
    ∙ ap (λ y. y ∷ t) (sym e)
IsStored-set_row r (x ∷ t) (there n s) =
    set_row-other r x t n ∙ ap (λ l. x ∷ l) (IsStored-set_row r t s)

-- A row stays where another key is set.
IsStored-kept :
    (r q : HeightRow) (t : List HeightRow)
    → same_key r q ≡ false
    → IsStored r t
    → IsStored r (set_row same_key q t)
IsStored-kept r q [] d s = elim s [ ]
IsStored-kept r q (x ∷ t) d (here e) =
    let n : same_key x q ≡ false = ap (λ (y : HeightRow). same_key y q) e ∙ d in
    subst (IsStored r) (sym (set_row-other q x t n)) (here e)
IsStored-kept r q (x ∷ t) d (there n s) = elim (Bool-cases (same_key x q)) [
  | inl y ↦
      let o : same_key q r ≡ false =
        ground (arith, str_eq_iff r.key q.key, str_eq_iff q.key r.key) in
      subst (IsStored r) (sym (set_row-same q x t y)) (there o s)
  | inr m ↦ subst (IsStored r) (sym (set_row-other q x t m)) (there n (IsStored-kept r q t d s))
]

insert_update-kept :
    (r : HeightRow) (rs t : List HeightRow)
    → All (λ q. same_key r q ≡ false) rs
    → IsStored r t
    → IsStored r (insert_update same_key rs t)
unfolding insert_update
insert_update-kept r [] t d s = s
insert_update-kept r (q ∷ rs) t (d, ds) s =
    insert_update-kept r rs (set_row same_key q t) ds (IsStored-kept r q t d s)

insert_update-IsStored :
    (rs t : List HeightRow)
    → AreUnique same_key rs
    → All (λ r. IsStored r (insert_update same_key rs t)) rs
unfolding insert_update
insert_update-IsStored [] t u = tt
insert_update-IsStored (r ∷ rs) t (d, u) = (
  insert_update-kept r rs (set_row same_key r t) d (set_row-IsStored r t),
  insert_update-IsStored rs (set_row same_key r t) u,
)

IsStored-insert_update :
    (rs t : List HeightRow) → All (λ r. IsStored r t) rs → insert_update same_key rs t ≡ t
unfolding insert_update
IsStored-insert_update [] t h = refl
IsStored-insert_update (r ∷ rs) t (h, hs) =
    ap (insert_update same_key rs) (IsStored-set_row r t h) ∙ IsStored-insert_update rs t hs

insert_update-append :
    (rs qs t : List HeightRow)
    → insert_update same_key (rs ++ qs) t ≡ insert_update same_key qs (insert_update same_key rs t)
unfolding insert_update
insert_update-append [] qs t = refl
insert_update-append (r ∷ rs) qs t = insert_update-append rs qs (set_row same_key r t)

update_slices-joined :
    (cs : List (List HeightRow)) (t : List HeightRow)
    → insert_slices same_key (insert_update same_key) cs t ≡ insert_update same_key (joined cs) t
unfolding insert_slices insert_update
update_slices-joined [] t = refl
update_slices-joined (c ∷ cs) t =
    update_slices-joined cs (insert_update same_key c t)
    ∙ sym (insert_update-append c (joined cs) t)

-- The rows without repeated keys.
differs-set_row :
    (y r : HeightRow) (m : List HeightRow)
    → same_key y r ≡ false
    → All (λ z. same_key y z ≡ false) m
    → All (λ z. same_key y z ≡ false) (set_row same_key r m)
unfolding set_row
differs-set_row y r [] d h = (d, tt)
differs-set_row y r (x ∷ m) d (h, hs) =
    let P : List HeightRow → Type 0 = All (λ z. same_key y z ≡ false) in
    elim (Bool-cases (same_key x r)) [
      | inl same ↦ subst P (sym (set_row-same r x m same)) (d, hs)
      | inr other ↦ subst P (sym (set_row-other r x m other)) (h, differs-set_row y r m d hs)
    ]

set_row-AreUnique :
    (r : HeightRow) (m : List HeightRow)
    → AreUnique same_key m
    → AreUnique same_key (set_row same_key r m)
unfolding set_row
set_row-AreUnique r [] u = (tt, tt)
set_row-AreUnique r (x ∷ m) (d, u) = elim (Bool-cases (same_key x r)) [
  | inl same ↦
      let e : x.key ≡ r.key = (str_eq_iff x.key r.key).0 same in
      subst (AreUnique same_key) (sym (set_row-same r x m same))
        (subst (λ k. All (λ (z : HeightRow). str_eq k z.key ≡ false) m) e d, u)
  | inr other ↦
      subst (AreUnique same_key) (sym (set_row-other r x m other))
        (differs-set_row x r m other d, set_row-AreUnique r m u)
]

dedupe_by_pk-AreUnique :
    (m rs : List HeightRow) → AreUnique same_key m → AreUnique same_key (dedupe_by_pk same_key m rs)
unfolding dedupe_by_pk
dedupe_by_pk-AreUnique m [] u = u
dedupe_by_pk-AreUnique m (r ∷ rs) u =
    dedupe_by_pk-AreUnique (set_row same_key r m) rs (set_row-AreUnique r m u)

upsert-first_rows :
    (p : Progress) (rows t : List HeightRow)
    → upsert same_key p rows t ≡ insert_update same_key (first_rows same_key p rows) t
unfolding upsert
upsert-first_rows p rows t =
    update_slices-joined (performed p (chunked (dedupe_by_pk same_key [] rows) 1000)) t

-- Rows of which some were written before end up as if none was.
pub upsert_again :
    (p : Progress) (rows t : List HeightRow)
    → upsert same_key complete rows (upsert same_key p rows t) ≡ upsert same_key complete rows t
upsert_again p rows t =
    let (rest, e) = first_rows-rest same_key p rows in
    let done = first_rows same_key p rows in
    let unique : AreUnique same_key done =
      AreUnique-append_left same_key done rest
        (subst (AreUnique same_key) e (dedupe_by_pk-AreUnique [] rows tt)) in
    let whole : (u : List HeightRow)
        → upsert same_key complete rows u
          ≡ insert_update same_key rest (insert_update same_key done u) =
      λ u.
        upsert-first_rows complete rows u
        ∙ ap (λ l. insert_update same_key l u) (joined_all same_key rows ∙ e)
        ∙ insert_update-append done rest u in
    ap (upsert same_key complete rows) (upsert-first_rows p rows t)
    ∙ whole (insert_update same_key done t)
    ∙ ap (insert_update same_key rest)
        (IsStored-insert_update done _ (insert_update-IsStored done t unique))
    ∙ sym (whole t)
