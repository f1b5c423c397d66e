-- ===== src/Indexer/Backfill/Written.antt =====
-- The blocks that the backfill writes while the writer does not fail.
use grc_explorer.Common.{
  ℕ, zero, suc, ◌+◌, ◌≡◌, refl, sym, ap₂, ◌∙◌, subst, Bool, true, false, Option, none, some, List,
  [], ◌∷◌, ◌++◌, length, All, arith, Option-cases, inl, inr,
}
use grc_explorer.Indexer.Backfill.{
  Phase, idle, checking_wipe, looking_up, applying, Job, resolved, rejected, settle, rewound,
  take_call, Event, reply, rpc_failed, wipe_answer, looked_up, wait_failed, applied, apply_failed,
  abort, cooled, pump, on_reply, on_looked_up, on_applied, on_wipe_answer, step, run, created,
  started,
}
use grc_explorer.Indexer.Backfill.Order.{
  heights, taken_in, IsUpTo, InOrder, IsSuccess, stop_draining-InOrder, settle-IsReady,
  drain-InOrder, take_group-InOrder, pump-InOrder, on_looked_up-InOrder, on_applied-InOrder,
}

module _ (from to tx_batch_size : ℕ) where
  on_reply-InOrder :
      (r : (ℕ × ℕ) × List (ℕ × ℕ)) (got : List ℕ) (j : Job)
      → InOrder from j
      → InOrder from (on_reply to tx_batch_size r got j)
  unfolding on_reply
  on_reply-InOrder (call, rest) got j u =
      let j1 : Job = record j {
        blocks = got ++ j.blocks;
        next_to_fetch = rewound call got j.next_to_fetch;
        calls = rest;
      } in
      drain-InOrder from to tx_batch_size j1 (record { order = u.order })

  wipe_answer-InOrder :
      (p : Phase) (answer : Bool) (j : Job)
      → IsUpTo from j.next_to_write (taken_in p j.written j.pending)
      → InOrder from j
      → InOrder from (on_wipe_answer to tx_batch_size p answer j)
  unfolding on_wipe_answer
  wipe_answer-InOrder checking_wipe true j u i =
      let j1 : Job = record j { wipe_aborted = true } in
      stop_draining-InOrder from to tx_batch_size (settle resolved j1)
        (settle-IsReady from to tx_batch_size resolved j1 (record { order = u }))
  wipe_answer-InOrder checking_wipe false j u i =
      take_group-InOrder from to tx_batch_size j (record { order = u })
  wipe_answer-InOrder idle answer j u i = i
  wipe_answer-InOrder (looking_up raw) answer j u i = i
  wipe_answer-InOrder (applying g k) answer j u i = i

  looked_up-InOrder :
      (p : Phase) (j : Job)
      → IsUpTo from j.next_to_write (taken_in p j.written j.pending)
      → InOrder from j
      → InOrder from (elim p [ looking_up raw ↦ on_looked_up to tx_batch_size raw j | _ ↦ j ])
  looked_up-InOrder (looking_up raw) j u i = on_looked_up-InOrder from to tx_batch_size raw j u
  looked_up-InOrder idle j u i = i
  looked_up-InOrder checking_wipe j u i = i
  looked_up-InOrder (applying g k) j u i = i

  applied-InOrder :
      (p : Phase) (j : Job)
      → IsUpTo from j.next_to_write (taken_in p j.written j.pending)
      → InOrder from j
      → InOrder from (elim p [ applying g k ↦ on_applied to tx_batch_size g k j | _ ↦ j ])
  applied-InOrder (applying g k) j u i = on_applied-InOrder from to tx_batch_size g k j u
  applied-InOrder idle j u i = i
  applied-InOrder checking_wipe j u i = i
  applied-InOrder (looking_up raw) j u i = i

  -- Every event but a failure of the writer keeps the order.
  pub step-InOrder :
      (e : Event) (j : Job)
      → IsSuccess e
      → InOrder from j
      → InOrder from (step to tx_batch_size e j)
  unfolding step settle
  step-InOrder (reply n got) j s i =
      let f : Option ((ℕ × ℕ) × List (ℕ × ℕ)) → Job =
        λ o. elim o [ none ↦ j | some r ↦ on_reply to tx_batch_size r got j ] in
      elim (Option-cases (take_call n j.calls)) [
        | inl e ↦ subst (λ o. InOrder from (f o)) (sym e) i
        | inr (r, e) ↦ subst (λ o. InOrder from (f o)) (sym e) (on_reply-InOrder r got j i)
      ]
  step-InOrder (rpc_failed n) j s i =
      let f : Option ((ℕ × ℕ) × List (ℕ × ℕ)) → Job =
        λ o. elim o [ none ↦ j | some r ↦ settle rejected (record j { calls = r.1 }) ] in
      elim (Option-cases (take_call n j.calls)) [
        | inl e ↦ subst (λ o. InOrder from (f o)) (sym e) i
        | inr (r, e) ↦ subst (λ o. InOrder from (f o)) (sym e) (record { order = i.order })
      ]
  step-InOrder (wipe_answer answer) j s i = wipe_answer-InOrder j.phase answer j i.order i
  step-InOrder looked_up j s i = looked_up-InOrder j.phase j i.order i
  step-InOrder applied j s i = applied-InOrder j.phase j i.order i
  step-InOrder wait_failed j s i = absurd s
  step-InOrder apply_failed j s i = absurd s
  step-InOrder abort j s i = record { order = i.order }
  step-InOrder (cooled concurrency fetch_span) j s i =
      let f : ℕ → Job = λ c. elim c [
        | zero ↦ j
        | suc n ↦ pump to tx_batch_size concurrency fetch_span (record j { cooling = n })
      ] in
      cooled-InOrder f i
        (λ n.
          pump-InOrder from to tx_batch_size concurrency fetch_span (record j { cooling = n })
            (record { order = i.order }))
        j.cooling
    where
      cooled-InOrder :
          (f : ℕ → Job)
          → InOrder from (f zero)
          → ((n : ℕ) → InOrder from (f (suc n)))
          → (c : ℕ) → InOrder from (f c)
      cooled-InOrder f z s zero = z
      cooled-InOrder f z s (suc n) = s n

  run-InOrder :
      (es : List Event) (j : Job)
      → All IsSuccess es
      → InOrder from j
      → InOrder from (run to tx_batch_size es j)
  unfolding run
  run-InOrder [] j s i = i
  run-InOrder (e ∷ es) j (s, ss) i =
      run-InOrder es (step to tx_batch_size e j) ss (step-InOrder e j s i)

  started-InOrder :
      (concurrency fetch_span : ℕ)
      → InOrder from (started to tx_batch_size from concurrency fetch_span)
  unfolding started created
  started-InOrder concurrency fetch_span =
      pump-InOrder from to tx_batch_size concurrency fetch_span (created from)
        (record { order = record { count = 0; next_eq = omega arith; blocks = refl } })

  -- The written blocks are the first ones of those that are taken.
  written_first : (p : Phase) (w q : List ℕ) → (rest : List ℕ) × (taken_in p w q ≡ w ++ rest)
  written_first idle w q = (q, refl)
  written_first checking_wipe w q = (q, refl)
  written_first (looking_up raw) w q = (q ++ raw, refl)
  written_first (applying g k) w q = (g ++ q, refl)

take-heights :
    (from n : ℕ) (w rest : List ℕ) → w ++ rest ≡ heights from n → w ≡ heights from (length w)
take-heights from n [] rest h = refl
take-heights from zero (x ∷ w) rest h = absurd cc
take-heights from (suc n) (x ∷ w) rest h =
    let first : x ≡ from = cc in
    let more : w ++ rest ≡ heights (from + 1) n = cc in
    ap₂ ◌∷◌ first (take-heights (from + 1) n w rest more)

-- In whatever order the replies, the waits and the cooldowns end, and whatever of the calls fails:
-- while no lookup and no write fails, the job has written the blocks from the first height on, in the
-- order of height and without a gap or a repetition.
pub run-written :
    (from to tx_batch_size concurrency fetch_span : ℕ) (es : List Event)
    → All IsSuccess es
    → let j = run to tx_batch_size es (started to tx_batch_size from concurrency fetch_span) in
      j.written ≡ heights from (length j.written)
run-written from to batch concurrency fetch_span es s =
    let j = run to batch es (started to batch from concurrency fetch_span) in
    let i : InOrder from j =
      run-InOrder from to batch es _ s (started-InOrder from to batch concurrency fetch_span) in
    let (rest, e) = written_first from to batch j.phase j.written j.pending in
    take-heights from i.order.count j.written rest (sym e ∙ i.order.blocks)
