-- ===== src/Indexer/AdaptiveLimits/Quiet.antt =====
-- The quiet window and the debounce of AdaptiveLimits.ts.
use grc_explorer.Common.{ℕ, ◌+◌, ◌≤◌, ◌<◌, ◌≡◌, refl, true, List, [], ◌∷◌, All, arith, max, lt→ltb}
use grc_explorer.Indexer.AdaptiveLimits.{
  Settings, Limits, Signal, stress, success, is_quiet, on_stress, on_success, signal, signals,
  stresses,
}

module _ (c : Settings) where
  on_stress-quiet :
      (now : ℕ) (l : Limits)
      → (l.quiet_until ≤ (on_stress c now l).quiet_until)
        × (now + c.stress_quiet_ms ≤ (on_stress c now l).quiet_until)
  unfolding on_stress
  on_stress-quiet now l = ground arith

  on_success-quiet : (l : Limits) → (on_success c l).quiet_until ≡ l.quiet_until
  unfolding on_success
  on_success-quiet l = ground arith

  signals-quiet : (ss : List Signal) (l : Limits) → l.quiet_until ≤ (signals c ss l).quiet_until
  unfolding signals signal
  signals-quiet [] l = omega arith
  signals-quiet (stress now ∷ ss) l =
      omega (arith, signals-quiet ss (on_stress c now l), on_stress-quiet now l)
  signals-quiet (success ∷ ss) l =
      omega (arith, signals-quiet ss (on_success c l), on_success-quiet l)

  -- After a stress signal, debounced or not, the controller is quiet at every time before the
  -- signal's time plus the quiet period, whatever signals come in between.
  pub is_quiet-on_stress :
      (now : ℕ) (ss : List Signal) (l : Limits) (later : ℕ)
      → later < now + c.stress_quiet_ms
      → is_quiet later (signals c ss (on_stress c now l)) ≡ true
  unfolding is_quiet
  is_quiet-on_stress now ss l later h =
      lt→ltb _ _ (omega (arith, on_stress-quiet now l, signals-quiet ss (on_stress c now l)))

  -- When the quiet window ends after stress signals at the given times.
  abbrev pub latest : ℕ → List ℕ → ℕ
  latest t [] = t
  latest t (now ∷ times) = latest (max t (now + c.stress_quiet_ms)) times

  -- A debounced signal: the window moves, the streak starts again, the rest stays.
  abbrev pub hold : ℕ → Limits → Limits
  hold now l = record l {
    quiet_until = max l.quiet_until (now + c.stress_quiet_ms);
    success_streak = 0;
  }

  on_stress_debounced :
      (now : ℕ) (l : Limits)
      → now < l.last_stress_at + c.stress_debounce_ms
      → on_stress c now l ≡ hold now l
  unfolding on_stress
  on_stress_debounced now l h = rw (lt→ltb _ _ h)

  -- Stress signals that all come within the debounce time of the last one that counted change
  -- neither knob, whatever their number; each still extends the quiet window.
  pub stresses_debounced :
      (times : List ℕ) (l : Limits)
      → All (λ t. t < l.last_stress_at + c.stress_debounce_ms) times
      → ((stresses c times l).concurrency ≡ l.concurrency)
        × ((stresses c times l).fetch_span ≡ l.fetch_span)
        × ((stresses c times l).quiet_until ≡ latest l.quiet_until times)
  unfolding stresses
  stresses_debounced [] l h = (refl, refl, refl)
  stresses_debounced (now ∷ times) l (h, hs) =
      rw (on_stress_debounced now l h, stresses) (stresses_debounced times (hold now l) hs)
