-- ===== src/Indexer/Backfill/Tests.antt =====
-- Tests of the backfill job, and the theorems at concrete inputs.
use grc_explorer.Common.{◌≡◌, ◌≤◌, refl, false, none, List, [], ◌∷◌, length, arith}
use grc_explorer.Indexer.Backfill.{
  idle, Event, reply, wipe_answer, looked_up, applied, apply_failed, cooled, run, started, created,
  pump, pump_calls, step, take_call, on_reply, rewound, last_got, drain, drain_loop, leave_loop,
  finish, stop_draining, settle, start_flush, on_wipe_answer, take_group, collect, on_looked_up,
  on_applied,
}
use grc_explorer.Indexer.Backfill.Order.{heights}
use grc_explorer.Indexer.Backfill.Written.{run-written}
use grc_explorer.Indexer.Backfill.Limits.{run-calls-limit}

-- Heights 0 to 2, two calls of one block each at a time. The eager flush of blocks 0 and 1 waits for
-- the database while a call that had cooled down fetches block 2, whose reply finds the drain busy.
abbrev lost_wakeup : List Event
lost_wakeup =
    reply 0 (0 ∷ [])
    ∷ wipe_answer false
    ∷ looked_up
    ∷ reply 0 (1 ∷ [])
    ∷ wipe_answer false
    ∷ looked_up
    ∷ cooled 2 1
    ∷ reply 0 (2 ∷ [])
    ∷ applied
    ∷ cooled 2 1
    ∷ cooled 2 1
    ∷ []

-- Then nothing is in flight, nobody waits, and block 2 stays in the map: the promise is never settled.
stalled : run 2 50 lost_wakeup (started 2 50 0 2 1) ≡ record {
  blocks = 2 ∷ [];
  pending = [];
  next_to_write = 2;
  next_to_fetch = 3;
  calls = [];
  cooling = 0;
  phase = idle;
  aborted = false;
  wipe_aborted = false;
  settled = none;
  written = 0 ∷ 1 ∷ [];
}
unfolding run started created pump pump_calls step take_call on_reply rewound last_got drain
    drain_loop leave_loop finish stop_draining settle start_flush on_wipe_answer take_group collect
    on_looked_up on_applied
stalled = refl

-- A write that fails loses its group, and the job goes on with the next blocks.
abbrev failed_write : List Event
failed_write =
    reply 0 (0 ∷ [])
    ∷ wipe_answer false
    ∷ looked_up
    ∷ apply_failed
    ∷ cooled 1 1
    ∷ reply 0 (1 ∷ [])
    ∷ wipe_answer false
    ∷ looked_up
    ∷ applied
    ∷ []

gap_written : (run 5 1 failed_write (started 5 1 0 1 1)).written ≡ 1 ∷ []
unfolding run started created pump pump_calls step take_call on_reply rewound last_got drain
    drain_loop leave_loop finish stop_draining settle start_flush on_wipe_answer take_group collect
    on_looked_up on_applied
gap_written = refl

run-written_example :
    (run 2 50 lost_wakeup (started 2 50 0 2 1)).written
    ≡ heights 0 (length (run 2 50 lost_wakeup (started 2 50 0 2 1)).written)
run-written_example =
    run-written 0 2 50 2 1 lost_wakeup
      (tt, (tt, (tt, (tt, (tt, (tt, (tt, (tt, (tt, (tt, (tt, tt)))))))))))

run-calls-limit_example : length (run 2 50 lost_wakeup (started 2 50 0 2 1)).calls ≤ 2
run-calls-limit_example =
    run-calls-limit 2 50 2 0 2 1 lost_wakeup (omega arith) (
      tt,
      (tt, (tt, (tt, (tt, (tt, (omega arith, (tt, (tt, (omega arith, (omega arith, tt)))))))))),
    )
