-- ===== src/Indexer/Backfill/Limits.antt =====
-- The bound on the calls of the backfill that are in flight.
use grc_explorer.Common.{
  ℕ, zero, suc, ◌+◌, ◌-◌, ◌≤◌, ◌≡◌, refl, sym, ap, ◌∙◌, subst, Bool, true, false, ◌||◌, Option,
  none, some, List, [], ◌∷◌, ◌++◌, min, leb, if◌then◌else◌, length, length-append, All, arith,
  Option-cases, inl, inr,
}
use grc_explorer.Indexer.Backfill.{
  Phase, idle, checking_wipe, looking_up, applying, Job, After, eager, last, in_loop, rejected,
  settle, stop_draining, start_flush, rewound, take_call, Event, reply, rpc_failed, wipe_answer,
  looked_up, wait_failed, applied, apply_failed, abort, cooled, finish, leave_loop, drain_loop,
  drain, collect, take_group, pump_calls, pump, on_reply, on_looked_up, on_applied, on_wipe_answer,
  step, run, created, started,
}

module _ (to tx_batch_size : ℕ) where
  finish-calls : (j : Job) → (finish to tx_batch_size j).calls ≡ j.calls
  unfolding finish stop_draining start_flush settle
  finish-calls j = ground arith

  leave_loop-calls : (j : Job) → (leave_loop to tx_batch_size j).calls ≡ j.calls
  unfolding leave_loop start_flush
  leave_loop-calls j = ground (arith, finish-calls j)

  drain_loop-calls : (j : Job) → (drain_loop to tx_batch_size j).calls ≡ j.calls
  unfolding drain_loop
  drain_loop-calls j = ground (arith, leave_loop-calls j)

  drain-calls : (j : Job) → (drain to tx_batch_size j).calls ≡ j.calls
  unfolding drain
  drain-calls j = ground (arith, drain_loop-calls j)

  on_reply-calls :
      (call : ℕ × ℕ) (rest : List (ℕ × ℕ)) (got : List ℕ) (j : Job)
      → (on_reply to tx_batch_size (call, rest) got j).calls ≡ rest
  unfolding on_reply
  on_reply-calls call rest got j = drain-calls (record j {
    blocks = got ++ j.blocks;
    next_to_fetch = rewound call got j.next_to_fetch;
    calls = rest;
  })

  take_group-calls : (j : Job) → (take_group to tx_batch_size j).calls ≡ j.calls
  unfolding take_group
  take_group-calls j =
      let (raw, next, blocks) = collect to tx_batch_size tx_batch_size j.next_to_write j.blocks in
      ground (arith, leave_loop-calls (record j { blocks = blocks; next_to_write = next }))

  on_looked_up-calls :
      (raw : List ℕ) (j : Job) → (on_looked_up to tx_batch_size raw j).calls ≡ j.calls
  unfolding on_looked_up start_flush
  on_looked_up-calls raw j =
      ground (arith, drain_loop-calls (record j { pending = j.pending ++ raw }))

  on_applied-calls :
      (group : List ℕ) (after : After) (j : Job)
      → (on_applied to tx_batch_size group after j).calls ≡ j.calls
  unfolding on_applied stop_draining settle
  on_applied-calls group in_loop j = drain_loop-calls (record j { written = j.written ++ group })
  on_applied-calls group eager j = finish-calls (record j { written = j.written ++ group })
  on_applied-calls group last j = refl

  on_wipe_answer-calls :
      (p : Phase) (answer : Bool) (j : Job)
      → (on_wipe_answer to tx_batch_size p answer j).calls ≡ j.calls
  unfolding on_wipe_answer stop_draining settle
  on_wipe_answer-calls checking_wipe true j = refl
  on_wipe_answer-calls checking_wipe false j = take_group-calls j
  on_wipe_answer-calls idle answer j = refl
  on_wipe_answer-calls (looking_up raw) answer j = refl
  on_wipe_answer-calls (applying g k) answer j = refl

  module _ (limit : ℕ) where
    choose_calls :
        (b : Bool) (j k : Job)
        → length j.calls ≤ limit
        → length k.calls ≤ limit
        → length (if b then j else k).calls ≤ limit
    choose_calls true j k h i = h
    choose_calls false j k h i = i

    phase_calls :
        (p : Phase) (f : Phase → Job)
        → length (f idle).calls ≤ limit
        → length (f checking_wipe).calls ≤ limit
        → ((raw : List ℕ) → length (f (looking_up raw)).calls ≤ limit)
        → ((g : List ℕ) (k : After) → length (f (applying g k)).calls ≤ limit)
        → length (f p).calls ≤ limit
    phase_calls idle f a b c d = a
    phase_calls checking_wipe f a b c d = b
    phase_calls (looking_up raw) f a b c d = c raw
    phase_calls (applying g k) f a b c d = d g k

    cooling_calls :
        (f : ℕ → Job)
        → length (f zero).calls ≤ limit
        → ((n : ℕ) → length (f (suc n)).calls ≤ limit)
        → (c : ℕ) → length (f c).calls ≤ limit
    cooling_calls f z s zero = z
    cooling_calls f z s (suc n) = s n

    pump_calls-limit :
        (left fetch_span : ℕ) (j : Job)
        → left + length j.calls ≤ limit
        → length (pump_calls to tx_batch_size left fetch_span j).calls ≤ limit
    unfolding pump_calls
    pump_calls-limit zero fetch_span j h = omega arith
    pump_calls-limit (suc left) fetch_span j h =
        let count = min fetch_span (to + 1 - j.next_to_fetch) in
        let call : ℕ × ℕ = (j.next_to_fetch, count) in
        let j1 : Job = record j {
          next_to_fetch = j.next_to_fetch + count;
          calls = j.calls ++ call ∷ [];
        } in
        let more : left + length j1.calls ≤ limit =
          omega (arith, length-append j.calls (call ∷ [])) in
        choose_calls (leb j.next_to_fetch to) (pump_calls to tx_batch_size left fetch_span j1) j
          (pump_calls-limit left fetch_span j1 more) (omega arith)

    pump-limit :
        (concurrency fetch_span : ℕ) (j : Job)
        → concurrency ≤ limit
        → length j.calls ≤ limit
        → length (pump to tx_batch_size concurrency fetch_span j).calls ≤ limit
    unfolding pump
    pump-limit concurrency fetch_span j c h =
        choose_calls (j.aborted || j.wipe_aborted) j
          (pump_calls to tx_batch_size (concurrency - length j.calls) fetch_span j) h
          (pump_calls-limit (concurrency - length j.calls) fetch_span j (omega arith))

    take_call-length :
        (n : ℕ) (cs : List (ℕ × ℕ)) (r : (ℕ × ℕ) × List (ℕ × ℕ))
        → take_call n cs ≡ some r
        → length r.1 ≤ length cs
    unfolding take_call
    take_call-length n [] r h = absurd cc
    take_call-length zero (c ∷ cs) r h = let e : r ≡ (c, cs) = cc in rw e (omega arith)
    take_call-length (suc n) (c ∷ cs) r h =
        let f : Option ((ℕ × ℕ) × List (ℕ × ℕ)) → Option ((ℕ × ℕ) × List (ℕ × ℕ)) =
          λ o. elim o [ none ↦ none | some q ↦ some (q.0, c ∷ q.1) ] in
        elim (Option-cases (take_call n cs)) [
          | inl e ↦ let no_call : none ≡ some r = sym (ap f e) ∙ h in absurd cc
          | inr (q, e) ↦
              let same : some (q.0, c ∷ q.1) ≡ some r = sym (ap f e) ∙ h in
              let eq : r ≡ (q.0, c ∷ q.1) = cc in rw eq (omega (arith, take_call-length n cs q e))
        ]

    -- The limit of an event's pump is at most the bound.
    abbrev pub Limited : Event → Type 0
    Limited (cooled concurrency fetch_span) = concurrency ≤ limit
    Limited _ = Unit

    step-limit :
        (e : Event) (j : Job)
        → Limited e
        → length j.calls ≤ limit
        → length (step to tx_batch_size e j).calls ≤ limit
    unfolding step settle stop_draining
    step-limit (reply n got) j l h =
        let f : Option ((ℕ × ℕ) × List (ℕ × ℕ)) → Job =
          λ o. elim o [ none ↦ j | some r ↦ on_reply to tx_batch_size r got j ] in
        elim (Option-cases (take_call n j.calls)) [
          | inl e ↦ subst (λ o. length (f o).calls ≤ limit) (sym e) h
          | inr (r, e) ↦
              let kept : (on_reply to tx_batch_size r got j).calls ≡ r.1 =
                on_reply-calls r.0 r.1 got j in
              subst (λ o. length (f o).calls ≤ limit) (sym e)
                (rw kept (omega (arith, take_call-length n j.calls r e)))
        ]
    step-limit (rpc_failed n) j l h =
        let f : Option ((ℕ × ℕ) × List (ℕ × ℕ)) → Job =
          λ o. elim o [ none ↦ j | some r ↦ settle rejected (record j { calls = r.1 }) ] in
        elim (Option-cases (take_call n j.calls)) [
          | inl e ↦ subst (λ o. length (f o).calls ≤ limit) (sym e) h
          | inr (r, e) ↦
              subst (λ o. length (f o).calls ≤ limit) (sym e)
                (omega (arith, take_call-length n j.calls r e))
        ]
    step-limit (wipe_answer answer) j l h = rw (on_wipe_answer-calls j.phase answer j) h
    step-limit looked_up j l h =
        phase_calls j.phase
          (λ p. elim p [ looking_up raw ↦ on_looked_up to tx_batch_size raw j | _ ↦ j ]) h h
          (λ raw. rw (on_looked_up-calls raw j) h) (λ g k. h)
    step-limit applied j l h =
        phase_calls j.phase
          (λ p. elim p [ applying group after ↦ on_applied to tx_batch_size group after j | _ ↦ j ])
          h h (λ raw. h) (λ g k. rw (on_applied-calls g k j) h)
    step-limit wait_failed j l h =
        phase_calls j.phase
          (λ p. elim p [
            | checking_wipe ↦ stop_draining (settle rejected j)
            | looking_up raw ↦ stop_draining (settle rejected j)
            | _ ↦ j
          ])
          h h (λ raw. h) (λ g k. h)
    step-limit apply_failed j l h =
        phase_calls j.phase
          (λ p. elim p [ applying group after ↦ stop_draining (settle rejected j) | _ ↦ j ]) h h
          (λ raw. h) (λ g k. h)
    step-limit abort j l h = h
    step-limit (cooled concurrency fetch_span) j l h =
        cooling_calls
          (λ c. elim c [
            | zero ↦ j
            | suc n ↦ pump to tx_batch_size concurrency fetch_span (record j { cooling = n })
          ])
          h (λ n. pump-limit concurrency fetch_span (record j { cooling = n }) l h) j.cooling

    run-limit :
        (es : List Event) (j : Job)
        → All Limited es
        → length j.calls ≤ limit
        → length (run to tx_batch_size es j).calls ≤ limit
    unfolding run
    run-limit [] j ls h = h
    run-limit (e ∷ es) j (l, ls) h =
        run-limit es (step to tx_batch_size e j) ls (step-limit e j l h)

    -- At no time are more calls in flight than the greatest concurrency that the job was given.
    pub run-calls-limit :
        (from concurrency fetch_span : ℕ) (es : List Event)
        → concurrency ≤ limit
        → All Limited es
        → length
            (run to tx_batch_size es (started to tx_batch_size from concurrency fetch_span)).calls
          ≤ limit
    unfolding started created
    run-calls-limit from concurrency fetch_span es c ls =
        run-limit es _ ls (pump-limit concurrency fetch_span (created from) c (omega arith))
