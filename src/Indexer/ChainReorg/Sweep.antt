-- ===== src/Indexer/ChainReorg/Sweep.antt =====
-- When `safetySweep` of ChainReorgHandler.ts runs the handler.
use grc_explorer.Common.{
  ℕ, ◌≡◌, refl, sym, ap, ◌∙◌, Bool, true, false, Option, none, some, List, [], ◌∷◌, str_eq,
  str_eq_iff, str_eq_refl, if◌then◌else◌, All, ◌⊎◌, inl, inr, Bool-cases, Option-cases, arith,
}
use grc_explorer.Parsed.{BlockRow}
use grc_explorer.Chain.{Cursor, live, State}
use grc_explorer.Indexer.ChainReorg.{
  CursorPosition, Error, Result, ok, err, Daemon, handle, drifted, sweep_rows, is_live,
  sweep_result, thrown, safety_sweep,
}

err-ne-ok {ℓ} : {A : Type ℓ} {e : Error} {a : A} → ¬ (err e ≡ ok a)
err-ne-ok h = cc

true-ne-false : ¬ (ok true ≡ ok false)
true-ne-false h = ground arith

thrown-none :
    (r : Result CursorPosition × State) (s : State)
    → thrown r ≡ (none, s)
    → (fork : CursorPosition) × (r ≡ (ok fork, s))
unfolding thrown
thrown-none (ok fork, after) s h = (fork, cc)
thrown-none (err e, after) s h = absurd cc

module _ (m : ℕ) (daemon : Daemon) where
  -- The daemon has the stored hash at the height of the row.
  abbrev pub Matches : BlockRow → Type 0
  Matches b = daemon b.height ≡ some b.hash

  drifted-false : (rows : List BlockRow) → drifted m daemon rows ≡ ok false → All Matches rows
  unfolding drifted
  drifted-false [] h = tt
  drifted-false (b ∷ bs) h = elim (Option-cases (daemon b.height)) [
    | inl failed ↦ absurd (err-ne-ok (rw (failed, drifted) at h))
    | inr (onchain, e) ↦ elim (Bool-cases (str_eq onchain b.hash)) [
      | inl same ↦ (
        e ∙ ap some ((str_eq_iff onchain b.hash).0 same),
        drifted-false bs (rw (e, same, drifted) at h),
      )
      | inr other ↦ absurd (true-ne-false (rw (e, other, drifted) at h))
    ]
  ]

  drifted-All : (rows : List BlockRow) → All Matches rows → drifted m daemon rows ≡ ok false
  unfolding drifted
  drifted-All [] h = refl
  drifted-All (b ∷ bs) (h, hs) = rw (h, str_eq_refl b.hash, drifted) (drifted-All bs hs)

  safety_sweep_live :
      (s : State) (cursor : Cursor)
      → s.cursor ≡ some cursor
      → cursor.status ≡ live
      → safety_sweep m daemon s
        ≡ sweep_result m daemon (drifted m daemon (sweep_rows cursor.height s.db.blocks)) s
  unfolding safety_sweep
  safety_sweep_live s cursor e l =
      let f : Option Cursor → Option Error × State = λ o. elim o [
        | none ↦ (none, s)
        | some c ↦
            if is_live c.status
            then sweep_result m daemon (drifted m daemon (sweep_rows c.height s.db.blocks)) s
            else (none, s)
      ] in
      ap f e
      ∙ ap
          (λ x.
            if is_live x
            then sweep_result m daemon (drifted m daemon (sweep_rows cursor.height s.db.blocks)) s
            else (none, s))
          l

  -- A sweep with a live cursor whose swept rows all have the daemon's hashes changes nothing and
  -- reports no error.
  pub safety_sweep_keeps :
      (s : State) (cursor : Cursor)
      → s.cursor ≡ some cursor
      → cursor.status ≡ live
      → All Matches (sweep_rows cursor.height s.db.blocks)
      → safety_sweep m daemon s ≡ (none, s)
  unfolding sweep_result
  safety_sweep_keeps s cursor e l h =
      safety_sweep_live s cursor e l ∙ ap (λ r. sweep_result m daemon r s) (drifted-All _ h)

  sweep_result-none :
      (r : Result Bool) (s s' : State)
      → sweep_result m daemon r s ≡ (none, s')
      → ((r ≡ ok false) × (s' ≡ s)) ⊎ (fork : CursorPosition) × (handle m daemon s ≡ (ok fork, s'))
  unfolding sweep_result
  sweep_result-none (err e) s s' h = absurd cc
  sweep_result-none (ok false) s s' h = inl (refl, cc)
  sweep_result-none (ok true) s s' h = inr (thrown-none (handle m daemon s) s' h)

  -- A sweep with a live cursor that reports no error either found the daemon's hash at every swept
  -- row and changed nothing, or is a successful run of the handler.
  pub safety_sweep-cases :
      (s : State) (cursor : Cursor) (s' : State)
      → s.cursor ≡ some cursor
      → cursor.status ≡ live
      → safety_sweep m daemon s ≡ (none, s')
      → (All Matches (sweep_rows cursor.height s.db.blocks) × (s' ≡ s))
        ⊎ (fork : CursorPosition) × (handle m daemon s ≡ (ok fork, s'))
  safety_sweep-cases s cursor s' e l h =
      elim (sweep_result-none (drifted m daemon (sweep_rows cursor.height s.db.blocks)) s s'
        (sym (safety_sweep_live s cursor e l) ∙ h)) [
          | inl (same, kept) ↦ inl (drifted-false _ same, kept)
          | inr run ↦ inr run
        ]
