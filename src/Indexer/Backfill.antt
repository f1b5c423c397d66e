-- ===== src/Indexer/Backfill.antt =====
-- The class `BackfillJob` of packages/grc-explorer/src/services/indexer/HistoricalBackfiller.ts: the
-- fetcher and the writer of one range of heights, as a machine whose steps are the pieces of code
-- between two `await`s. A block is its height. What comes from outside is an event: a reply or a
-- failure of a call, the answers that the writer waits for, the end of a cooldown with the current
-- limits, and the abort; an event that does not fit the state does nothing.
pub mod Order
pub mod Written
pub mod Limits
mod Tests
use grc_explorer.Common.{
  ℕ, zero, suc, ◌+◌, ◌-◌, Bool, true, false, not, ◌&&◌, ◌||◌, Option, none, some, List, [], ◌∷◌,
  ◌++◌, min, ltb, leb, ◌==◌, if◌then◌else◌, any, keep, length,
}

-- What the drain does after a flush: the loop goes on, the eager flush ends, the last flush ends.
pub data After : Type 0 where
  in_loop eager last : After

-- Where the drain waits, `draining` being set in all but the first.
pub data Phase : Type 0 where
  idle checking_wipe : Phase
  looking_up : List ℕ → Phase
  applying : List ℕ → After → Phase

pub data Settlement : Type 0 where
  resolved rejected : Settlement

-- `calls` are the spans in flight, by their start and count; `cooling` counts the calls between
-- their drain and their pump; `written` are the blocks that were applied, in order.
pub record Job : Type 0 where
  pub blocks : List ℕ
  pub pending : List ℕ
  pub next_to_write : ℕ
  pub next_to_fetch : ℕ
  pub calls : List (ℕ × ℕ)
  pub cooling : ℕ
  pub phase : Phase
  pub aborted : Bool
  pub wipe_aborted : Bool
  pub settled : Option Settlement
  pub written : List ℕ

-- The first settlement of the promise counts.
unfoldable pub settle : Settlement → Job → Job
settle r j = record j { settled = elim j.settled [ none ↦ some r | some q ↦ some q ] }

abbrev pub has_block : ℕ → List ℕ → Bool
has_block h blocks = any (λ b. b == h) blocks

abbrev pub is_nil {ℓ} : {A : Type ℓ} → List A → Bool
is_nil [] = true
is_nil (x ∷ xs) = false

-- The end of a drain, after which its call cools down.
unfoldable pub stop_draining : Job → Job
stop_draining j = record j { phase = idle; cooling = j.cooling + 1 }

-- `pending.splice(0, pending.length)`, and the call of `applyBlocks`.
unfoldable pub start_flush : After → Job → Job
start_flush after j = record j { pending = []; phase = applying j.pending after }

abbrev pub is_draining : Phase → Bool
is_draining idle = false
is_draining _ = true

-- `got[got.length - 1]?.height`
pub last_got : List ℕ → Option ℕ
last_got [] = none
last_got (h ∷ hs) = elim (last_got hs) [ none ↦ some h | some l ↦ some l ]

-- `nextToFetch` after a reply: back to the first missing height where the daemon under-filled.
pub rewound : ℕ × ℕ → List ℕ → ℕ → ℕ
unfolding last_got
rewound (start, count) got next =
    let missing_from : ℕ = elim (last_got got) [ none ↦ start | some h ↦ h + 1 ] in
    if ltb (length got) count && ltb missing_from next then missing_from else next

-- The call at an index, and the others.
pub take_call : ℕ → List (ℕ × ℕ) → Option ((ℕ × ℕ) × List (ℕ × ℕ))
take_call n [] = none
take_call zero (c ∷ cs) = some (c, cs)
take_call (suc n) (c ∷ cs) = elim (take_call n cs) [ none ↦ none | some r ↦ some (r.0, c ∷ r.1) ]

pub data Event : Type 0 where
  reply : ℕ → List ℕ → Event
  rpc_failed : ℕ → Event
  wipe_answer : Bool → Event
  looked_up wait_failed applied apply_failed abort : Event
  cooled : ℕ → ℕ → Event

-- A new job, before its first pump.
pub created : ℕ → Job
created from = record {
  blocks = [];
  pending = [];
  next_to_write = from;
  next_to_fetch = from;
  calls = [];
  cooling = 0;
  phase = idle;
  aborted = false;
  wipe_aborted = false;
  settled = none;
  written = [];
}

module _ (to tx_batch_size : ℕ) where
  -- `finished || stopped`
  abbrev pub is_over : Job → Bool
  is_over j =
      (ltb to j.next_to_write && is_nil j.calls && ltb to j.next_to_fetch)
      || (j.aborted && is_nil j.calls)

  -- The end of `drain`.
  pub finish : Job → Job
  finish j =
      if is_over j
      then if is_nil j.pending then stop_draining (settle resolved j) else start_flush last j
      else stop_draining j

  -- `drain` behind its loop.
  pub leave_loop : Job → Job
  unfolding finish
  leave_loop j =
      if not (is_nil j.pending) && is_nil j.calls && not j.aborted && not j.wipe_aborted
      then start_flush eager j
      else finish j

  -- The condition of the loop of `drain`.
  pub drain_loop : Job → Job
  unfolding leave_loop
  drain_loop j =
      if has_block j.next_to_write j.blocks
      then record j { phase = checking_wipe }
      else leave_loop j

  pub drain : Job → Job
  unfolding drain_loop
  drain j =
      if is_draining j.phase || j.wipe_aborted
      then record j { cooling = j.cooling + 1 }
      else drain_loop j

  -- The inner loop, with the rounds that are left: the blocks that it takes, the height and the map
  -- afterwards.
  pub collect : ℕ → ℕ → List ℕ → List ℕ × ℕ × List ℕ
  collect zero next blocks = ([], next, blocks)
  collect (suc left) next blocks =
      let rest = keep (λ b. not (b == next)) blocks in
      let (raw, next', blocks') = collect left (next + 1) rest in
      if not (has_block next blocks)
      then ([], next, blocks)
      else if ltb to (next + 1)
      then (next ∷ [], next + 1, rest)
      else (next ∷ raw, next', blocks')

  pub take_group : Job → Job
  unfolding collect leave_loop
  take_group j =
      let (raw, next, blocks) = collect tx_batch_size j.next_to_write j.blocks in
      let j1 = record j { blocks = blocks; next_to_write = next } in
      if is_nil raw then leave_loop j1 else record j1 { phase = looking_up raw }

  -- The loop of `pump`, with the calls that it may add.
  pub pump_calls : ℕ → ℕ → Job → Job
  pump_calls zero fetch_span j = j
  pump_calls (suc left) fetch_span j =
      let start = j.next_to_fetch in
      let count = min fetch_span (to + 1 - start) in
      let next =
        pump_calls left fetch_span
          (record j { next_to_fetch = start + count; calls = j.calls ++ (start, count) ∷ [] }) in
      if leb start to then next else j

  pub pump : ℕ → ℕ → Job → Job
  unfolding pump_calls
  pump concurrency fetch_span j =
      if j.aborted || j.wipe_aborted
      then j
      else pump_calls (concurrency - length j.calls) fetch_span j

  -- A call ends with a reply.
  pub on_reply : (ℕ × ℕ) × List (ℕ × ℕ) → List ℕ → Job → Job
  unfolding rewound drain
  on_reply (call, rest) got j = drain (record j {
    blocks = got ++ j.blocks;
    next_to_fetch = rewound call got j.next_to_fetch;
    calls = rest;
  })

  -- The rest of the loop once the previous outputs are looked up.
  pub on_looked_up : List ℕ → Job → Job
  unfolding drain_loop
  on_looked_up raw j =
      let j1 = record j { pending = j.pending ++ raw } in
      if leb tx_batch_size (length j1.pending) || ltb to j1.next_to_write
      then if is_nil j1.pending then drain_loop j1 else start_flush in_loop j1
      else drain_loop j1

  -- The drain goes on behind a flush.
  pub on_applied : List ℕ → After → Job → Job
  unfolding drain_loop finish
  on_applied group in_loop j = drain_loop (record j { written = j.written ++ group })
  on_applied group eager j = finish (record j { written = j.written ++ group })
  on_applied group last j =
      stop_draining (settle resolved (record j { written = j.written ++ group }))

  -- What the writer was waiting for arrives.
  pub on_wipe_answer : Phase → Bool → Job → Job
  unfolding take_group
  on_wipe_answer checking_wipe true j =
      stop_draining (settle resolved (record j { wipe_aborted = true }))
  on_wipe_answer checking_wipe false j = take_group j
  on_wipe_answer _ answer j = j

  pub step : Event → Job → Job
  unfolding take_call on_reply on_wipe_answer on_looked_up on_applied pump
  step (reply n got) j = elim (take_call n j.calls) [ none ↦ j | some r ↦ on_reply r got j ]
  step (rpc_failed n) j = elim (take_call n j.calls) [
    | none ↦ j
    | some r ↦ settle rejected (record j { calls = r.1 })
  ]
  step (wipe_answer answer) j = on_wipe_answer j.phase answer j
  step looked_up j = elim j.phase [ looking_up raw ↦ on_looked_up raw j | _ ↦ j ]
  step wait_failed j = elim j.phase [
    | checking_wipe ↦ stop_draining (settle rejected j)
    | looking_up raw ↦ stop_draining (settle rejected j)
    | _ ↦ j
  ]
  step applied j = elim j.phase [ applying group after ↦ on_applied group after j | _ ↦ j ]
  step apply_failed j = elim j.phase [
    | applying group after ↦ stop_draining (settle rejected j)
    | _ ↦ j
  ]
  step abort j = record j { aborted = true }
  step (cooled concurrency fetch_span) j = elim j.cooling [
    | zero ↦ j
    | suc n ↦ pump concurrency fetch_span (record j { cooling = n })
  ]

  pub run : List Event → Job → Job
  unfolding step
  run [] j = j
  run (e ∷ es) j = run es (step e j)

  -- `run()` of a new job with the limits of its first pump.
  pub started : ℕ → ℕ → ℕ → Job
  unfolding created pump
  started from concurrency fetch_span = pump concurrency fetch_span (created from)
