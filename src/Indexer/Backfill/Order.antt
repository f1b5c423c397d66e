-- ===== src/Indexer/Backfill/Order.antt =====
-- The order of the blocks that the writer of the backfill has taken, piece by piece of its code.
use grc_explorer.Common.{
  ℕ, zero, suc, ◌+◌, ◌≡◌, refl, sym, ap, ◌∙◌, subst, Bool, true, false, not, ◌||◌, List, [], ◌∷◌,
  ◌++◌, append-nil, append_assoc, ltb, ◌==◌, if◌then◌else◌, keep, arith, Bool-cases, inl, inr,
}
use grc_explorer.Indexer.Backfill.{
  Phase, idle, checking_wipe, looking_up, applying, Job, After, eager, last, in_loop, Settlement,
  resolved, settle, has_block, is_nil, stop_draining, start_flush, is_draining, Event, wait_failed,
  apply_failed, finish, leave_loop, drain_loop, drain, collect, take_group, pump_calls, pump,
  on_looked_up, on_applied,
}

-- The heights from one on.
abbrev pub heights : ℕ → ℕ → List ℕ
heights from zero = []
heights from (suc n) = from ∷ heights (from + 1) n

-- What the writer has taken out of the map, in order: written, being applied, parsed, and being
-- looked up.
abbrev pub taken_in : Phase → List ℕ → List ℕ → List ℕ
taken_in (looking_up raw) written pending = written ++ (pending ++ raw)
taken_in (applying group after) written pending = written ++ (group ++ pending)
taken_in _ written pending = written ++ pending

-- The list is that of the heights from the first one to the next.
pub record IsUpTo (from next : ℕ) (bs : List ℕ) : Type 0 where
  pub count : ℕ
  pub next_eq : next ≡ from + count
  pub blocks : bs ≡ heights from count

pub record InOrder (from : ℕ) (j : Job) : Type 0 where
  pub order : IsUpTo from j.next_to_write (taken_in j.phase j.written j.pending)

-- The same where the drain is between two waits.
pub record IsReady (from : ℕ) (j : Job) : Type 0 where
  pub order : IsUpTo from j.next_to_write (j.written ++ j.pending)

-- No event is a failure of the writer.
abbrev pub IsSuccess : Event → Type 0
IsSuccess wait_failed = ⊥
IsSuccess apply_failed = ⊥
IsSuccess _ = Unit

heights-append : (from m n : ℕ) → heights from m ++ heights (from + m) n ≡ heights from (m + n)
heights-append from zero n =
    let e : from + 0 ≡ from = omega arith in
    let z : 0 + n ≡ n = omega arith in ap (λ h. heights h n) e ∙ ap (heights from) (sym z)
heights-append from (suc m) n =
    let e : from + suc m ≡ from + 1 + m = omega arith in
    let s : suc m + n ≡ suc (m + n) = omega arith in
    ap (λ h. from ∷ (heights (from + 1) m ++ heights h n)) e
    ∙ ap (λ l. from ∷ l) (heights-append (from + 1) m n)
    ∙ ap (heights from) (sym s)

is_nil-eq : (l : List ℕ) → is_nil l ≡ true → l ≡ []
is_nil-eq [] h = refl
is_nil-eq (x ∷ l) h = absurd cc

module _ (from to tx_batch_size : ℕ) where
  pub start_flush-InOrder :
      (after : After) (j : Job) → IsReady from j → InOrder from (start_flush after j)
  unfolding start_flush
  start_flush-InOrder after j r = record {
    order =
        subst (IsUpTo from j.next_to_write) (ap (λ l. j.written ++ l) (sym (append-nil j.pending)))
          r.order;
  }

  pub stop_draining-InOrder : (j : Job) → IsReady from j → InOrder from (stop_draining j)
  unfolding stop_draining
  stop_draining-InOrder j r = record { order = r.order }

  pub settle-IsReady : (q : Settlement) (j : Job) → IsReady from j → IsReady from (settle q j)
  unfolding settle
  settle-IsReady q j r = record { order = r.order }

  -- One of two jobs, by a test.
  choose : (P : Job → Type 0) (b : Bool) (j k : Job) → P j → P k → P (if b then j else k)
  choose P true j k h i = h
  choose P false j k h i = i

  finish-InOrder : (j : Job) → IsReady from j → InOrder from (finish to tx_batch_size j)
  unfolding finish
  finish-InOrder j r =
      choose (InOrder from) _ _ _
        (choose (InOrder from) _ _ _
          (stop_draining-InOrder (settle resolved j) (settle-IsReady resolved j r))
          (start_flush-InOrder last j r))
        (stop_draining-InOrder j r)

  leave_loop-InOrder : (j : Job) → IsReady from j → InOrder from (leave_loop to tx_batch_size j)
  unfolding leave_loop
  leave_loop-InOrder j r =
      choose (InOrder from) _ _ _ (start_flush-InOrder eager j r) (finish-InOrder j r)

  drain_loop-InOrder : (j : Job) → IsReady from j → InOrder from (drain_loop to tx_batch_size j)
  unfolding drain_loop
  drain_loop-InOrder j r =
      choose (InOrder from) (has_block j.next_to_write j.blocks)
        (record j { phase = checking_wipe }) (leave_loop to tx_batch_size j)
        (record { order = r.order }) (leave_loop-InOrder j r)

  idle_ready :
      (p : Phase) (n : ℕ) (w q : List ℕ)
      → is_draining p ≡ false
      → IsUpTo from n (taken_in p w q)
      → IsUpTo from n (w ++ q)
  idle_ready idle n w q h u = u
  idle_ready checking_wipe n w q h u = absurd cc
  idle_ready (looking_up raw) n w q h u = absurd cc
  idle_ready (applying g k) n w q h u = absurd cc

  pub drain-InOrder : (j : Job) → InOrder from j → InOrder from (drain to tx_batch_size j)
  unfolding drain
  drain-InOrder j u =
      let step : Bool → Job =
        λ b. if b then record j { cooling = j.cooling + 1 } else drain_loop to tx_batch_size j in
      elim (Bool-cases (is_draining j.phase || j.wipe_aborted)) [
        | inl y ↦ subst (λ b. InOrder from (step b)) (sym y) (record { order = u.order })
        | inr n ↦
            let waits : is_draining j.phase ≡ false = ground arith in
            subst (λ b. InOrder from (step b)) (sym n)
              (drain_loop-InOrder j (record {
                order = idle_ready j.phase j.next_to_write j.written j.pending waits u.order;
              }))
      ]

  -- A group is a run of heights.
  collect-heights :
      (left next : ℕ) (blocks : List ℕ)
      → let (raw, next', _) = collect to tx_batch_size left next blocks in IsUpTo next next' raw
  unfolding collect
  collect-heights zero next blocks = record { count = 0; next_eq = omega arith; blocks = refl }
  collect-heights (suc left) next blocks =
      let rest = keep (λ b. not (b == next)) blocks in
      let more = collect-heights left (next + 1) rest in
      let (raw, next', blocks') = collect to tx_batch_size left (next + 1) rest in
      let P : List ℕ × ℕ × List ℕ → Type 0 = λ (raw, next', _). IsUpTo next next' raw in
      elim (Bool-cases (not (has_block next blocks))) [
        | inl y ↦ rw y (record { count = 0; next_eq = omega arith; blocks = refl })
        | inr n ↦ elim (Bool-cases (ltb to (next + 1))) [
          | inl end ↦ rw (n, end) (record { count = 1; next_eq = refl; blocks = refl })
          | inr go ↦
              rw (n, go)
                (record {
                  count = suc more.count;
                  next_eq = omega (arith, more.next_eq);
                  blocks = ap (λ l. next ∷ l) more.blocks;
                })
        ]
      ]

  -- A run of heights behind another.
  IsUpTo-append :
      (next next' : ℕ) (bs raw : List ℕ)
      → IsUpTo from next bs
      → IsUpTo next next' raw
      → IsUpTo from next' (bs ++ raw)
  IsUpTo-append next next' bs raw u v = record {
    count = u.count + v.count;
    next_eq = omega (arith, u.next_eq, v.next_eq);
    blocks =
        ap (λ l. l ++ raw) u.blocks
        ∙ ap (λ l. heights from u.count ++ l) v.blocks
        ∙ ap (λ n. heights from u.count ++ heights n v.count) u.next_eq
        ∙ heights-append from u.count v.count;
  }

  pub take_group-InOrder : (j : Job) → IsReady from j → InOrder from (take_group to tx_batch_size j)
  unfolding take_group
  take_group-InOrder j r =
      let (raw, next, blocks) = collect to tx_batch_size tx_batch_size j.next_to_write j.blocks in
      let v = collect-heights tx_batch_size j.next_to_write j.blocks in
      let both : IsUpTo from next (j.written ++ (j.pending ++ raw)) =
        subst (IsUpTo from next) (append_assoc j.written j.pending raw)
          (IsUpTo-append j.next_to_write next (j.written ++ j.pending) raw r.order v) in
      let j1 : Job = record j { blocks = blocks; next_to_write = next } in
      let step : Bool → Job =
        λ b. if b then leave_loop to tx_batch_size j1 else record j1 { phase = looking_up raw } in
      elim (Bool-cases (is_nil raw)) [
        | inl y ↦
            let none_more : raw ≡ [] = is_nil-eq raw y in
            let same : IsUpTo from next (j.written ++ j.pending) =
              subst (λ l. IsUpTo from next (j.written ++ l))
                (ap (λ l. j.pending ++ l) none_more ∙ append-nil j.pending) both in
            subst (λ b. InOrder from (step b)) (sym y)
              (leave_loop-InOrder j1 (record { order = same }))
        | inr n ↦ subst (λ b. InOrder from (step b)) (sym n) (record { order = both })
      ]

  pump_calls-InOrder :
      (left fetch_span : ℕ) (j : Job)
      → InOrder from j
      → InOrder from (pump_calls to tx_batch_size left fetch_span j)
  unfolding pump_calls
  pump_calls-InOrder zero fetch_span j u = u
  pump_calls-InOrder (suc left) fetch_span j u =
      choose (InOrder from) _ _ _
        (pump_calls-InOrder left fetch_span _ (record { order = u.order })) u

  pub pump-InOrder :
      (concurrency fetch_span : ℕ) (j : Job)
      → InOrder from j
      → InOrder from (pump to tx_batch_size concurrency fetch_span j)
  unfolding pump
  pump-InOrder concurrency fetch_span j u =
      choose (InOrder from) _ _ _ u (pump_calls-InOrder _ fetch_span j u)

  pub on_looked_up-InOrder :
      (raw : List ℕ) (j : Job)
      → IsUpTo from j.next_to_write (j.written ++ (j.pending ++ raw))
      → InOrder from (on_looked_up to tx_batch_size raw j)
  unfolding on_looked_up
  on_looked_up-InOrder raw j u =
      let j1 : Job = record j { pending = j.pending ++ raw } in
      let r : IsReady from j1 = record { order = u } in
      choose (InOrder from) _ _ _
        (choose (InOrder from) _ _ _ (drain_loop-InOrder j1 r) (start_flush-InOrder in_loop j1 r))
        (drain_loop-InOrder j1 r)

  pub on_applied-InOrder :
      (group : List ℕ) (after : After) (j : Job)
      → IsUpTo from j.next_to_write (j.written ++ (group ++ j.pending))
      → InOrder from (on_applied to tx_batch_size group after j)
  unfolding on_applied
  on_applied-InOrder group after j u =
      let j1 : Job = record j { written = j.written ++ group } in
      let r : IsReady from j1 = record {
        order =
            subst (IsUpTo from j.next_to_write) (sym (append_assoc j.written group j.pending)) u;
      } in
      elim after as (λ k. InOrder from (on_applied to tx_batch_size group k j)) [
        | in_loop ↦ drain_loop-InOrder j1 r
        | eager ↦ finish-InOrder j1 r
        | last ↦ stop_draining-InOrder (settle resolved j1) (settle-IsReady resolved j1 r)
      ]
