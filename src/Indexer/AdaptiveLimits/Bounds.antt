-- ===== src/Indexer/AdaptiveLimits/Bounds.antt =====
-- The knobs of AdaptiveLimits.ts stay between their configured floors and ceilings.
use grc_explorer.Common.{ℕ, ◌≤◌, ◌<◌, ◌≡◌, ◌⊎◌, List, [], ◌∷◌, arith}
use grc_explorer.Indexer.AdaptiveLimits.{
  Settings, Limits, Signal, stress, success, start, on_stress, on_success, signal, signals,
}

pub record AreOrdered (c : Settings) : Type 0 where
  pub concurrency : c.min_concurrency ≤ c.max_concurrency
  pub fetch_span : c.min_fetch_span ≤ c.max_fetch_span

-- Both knobs are in range, and the streak is short of the threshold.
pub record IsValid (c : Settings) (l : Limits) : Type 0 where
  pub concurrency_low : c.min_concurrency ≤ l.concurrency
  pub concurrency_high : l.concurrency ≤ c.max_concurrency
  pub span_low : c.min_fetch_span ≤ l.fetch_span
  pub span_high : l.fetch_span ≤ c.max_fetch_span
  pub streak : (l.success_streak ≡ 0) ⊎ (l.success_streak < c.ramp_threshold)

module _ (c : Settings) (o : AreOrdered c) where
  pub start-IsValid : IsValid c (start c)
  unfolding start
  start-IsValid = ground arith

  pub on_stress-IsValid : (now : ℕ) (l : Limits) → IsValid c l → IsValid c (on_stress c now l)
  unfolding on_stress
  on_stress-IsValid now l v = ground arith

  pub on_success-IsValid : (l : Limits) → IsValid c l → IsValid c (on_success c l)
  unfolding on_success
  on_success-IsValid l v = ground arith

  signals-IsValid_from : (ss : List Signal) (l : Limits) → IsValid c l → IsValid c (signals c ss l)
  unfolding signals signal
  signals-IsValid_from [] l v = v
  signals-IsValid_from (stress now ∷ ss) l v =
      signals-IsValid_from ss (on_stress c now l) (on_stress-IsValid now l v)
  signals-IsValid_from (success ∷ ss) l v =
      signals-IsValid_from ss (on_success c l) (on_success-IsValid l v)

  -- Where each floor is at most its ceiling, every sequence of stress and success signals that
  -- a new controller receives leaves both knobs between floor and ceiling, and the success streak
  -- at zero or below the ramp threshold.
  pub signals-start-IsValid : (ss : List Signal) → IsValid c (signals c ss (start c))
  signals-start-IsValid ss = signals-IsValid_from ss (start c) start-IsValid
