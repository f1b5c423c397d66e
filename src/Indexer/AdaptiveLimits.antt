-- ===== src/Indexer/AdaptiveLimits.antt =====
-- packages/grc-explorer/src/services/indexer/AdaptiveLimits.ts: the controller of the backfill's
-- concurrency and fetch span. Settings, counts and times in milliseconds are natural numbers, and
-- `Date.now()` is an argument. `now - last < debounce` is written `now < last + debounce`, which is
-- the same over the integers. Logging is left out.
pub mod Bounds
pub mod Quiet
pub mod Recovery
mod Tests
use grc_explorer.Common.{
  ℕ, zero, suc, ◌+◌, ◌-◌, ◌/◌, ◌≤◌, ◌<◌, min, max, Bool, ◌&&◌, List, [], ◌∷◌, ltb, leb,
  if◌then◌else◌,
}

-- The constructor's `readonly` parameters.
pub record Settings : Type 0 where
  pub min_concurrency : ℕ
  pub max_concurrency : ℕ
  pub min_fetch_span : ℕ
  pub max_fetch_span : ℕ
  pub ramp_threshold : ℕ
  pub stress_debounce_ms : ℕ
  pub stress_quiet_ms : ℕ

pub record Limits : Type 0 where
  pub concurrency : ℕ
  pub fetch_span : ℕ
  pub success_streak : ℕ
  pub last_stress_at : ℕ
  pub quiet_until : ℕ

pub record Snapshot : Type 0 where
  pub concurrency : ℕ
  pub fetch_span : ℕ
  pub success_streak : ℕ
  pub quiet_remaining_ms : ℕ

pub is_quiet : ℕ → Limits → Bool
is_quiet now l = ltb now l.quiet_until

pub quiet_remaining_ms : ℕ → Limits → ℕ
quiet_remaining_ms now l = l.quiet_until - now

pub snapshot : ℕ → Limits → Snapshot
snapshot now l = record {
  concurrency = l.concurrency;
  fetch_span = l.fetch_span;
  success_streak = l.success_streak;
  quiet_remaining_ms = quiet_remaining_ms now l;
}

-- What the process can ask of the controller: a stress signal at a time, or a success.
pub data Signal : Type 0 where
  stress : ℕ → Signal
  success : Signal

module _ (c : Settings) where
  -- The constructor.
  pub start : Limits
  start = record {
    concurrency = c.max_concurrency;
    fetch_span = c.max_fetch_span;
    success_streak = 0;
    last_stress_at = 0;
    quiet_until = 0;
  }

  pub on_stress : ℕ → Limits → Limits
  on_stress now l =
      let quiet = max l.quiet_until (now + c.stress_quiet_ms) in
      if ltb now (l.last_stress_at + c.stress_debounce_ms)
      then record l { quiet_until = quiet; success_streak = 0 }
      else record {
        concurrency = max c.min_concurrency (l.concurrency / 2);
        fetch_span = max c.min_fetch_span (l.fetch_span / 2);
        success_streak = 0;
        last_stress_at = now;
        quiet_until = quiet;
      }

  -- The step up that `onSuccess` takes when the streak is complete; the streak starts again.
  pub ramp : Limits → Limits
  ramp l =
      if ltb l.concurrency c.max_concurrency
      then record l { concurrency = l.concurrency + 1; success_streak = 0 }
      else if ltb l.fetch_span c.max_fetch_span
      then record l {
        fetch_span = min c.max_fetch_span (l.fetch_span + max 1 (l.fetch_span / 2));
        success_streak = 0;
      }
      else record l { success_streak = 0 }

  pub on_success : Limits → Limits
  unfolding ramp
  on_success l =
      if leb c.max_concurrency l.concurrency && leb c.max_fetch_span l.fetch_span
      then record l { success_streak = 0 }
      else if ltb (l.success_streak + 1) c.ramp_threshold
      then record l { success_streak = l.success_streak + 1 }
      else ramp l

  pub signal : Signal → Limits → Limits
  signal (stress now) l = on_stress now l
  signal success l = on_success l

  -- A sequence of signals, the first at the head.
  pub signals : List Signal → Limits → Limits
  signals [] l = l
  signals (s ∷ ss) l = signals ss (signal s l)

  pub successes : ℕ → Limits → Limits
  successes zero l = l
  successes (suc n) l = successes n (on_success l)

  -- Stress signals at the given times, the first at the head.
  pub stresses : List ℕ → Limits → Limits
  stresses [] l = l
  stresses (now ∷ times) l = stresses times (on_stress now l)
