-- ===== src/Indexer/AdaptiveLimits/Tests.antt =====
-- Tests of AdaptiveLimits.ts, with the settings of its unit test's helper, and the theorems at
-- concrete inputs.
use grc_explorer.Common.{◌≡◌, refl, [], ◌∷◌, max, arith}
use grc_explorer.Indexer.AdaptiveLimits.{
  Settings, Limits, stress, success, start, snapshot, on_stress, signals, successes, stresses,
  quiet_remaining_ms,
}
use grc_explorer.Indexer.AdaptiveLimits.Bounds.{IsValid, signals-start-IsValid}
use grc_explorer.Indexer.AdaptiveLimits.Recovery.{halve, IsFull, stresses-halve, successes_recover}

-- The defaults of `createAdaptiveLimitsForTest`.
abbrev for_test : Settings
for_test = record {
  min_concurrency = 1;
  max_concurrency = 8;
  min_fetch_span = 1;
  max_fetch_span = 25;
  ramp_threshold = 5;
  stress_debounce_ms = 0;
  stress_quiet_ms = 0;
}

abbrev patient : Settings
patient = record for_test { stress_debounce_ms = 1000; stress_quiet_ms = 30000 }

abbrev backed_off : Limits
backed_off = record {
  concurrency = 4;
  fetch_span = 12;
  success_streak = 3;
  last_stress_at = 5000;
  quiet_until = 35000;
}

halves_once :
    snapshot 9000 (on_stress patient 5000 (start patient))
    ≡ record { concurrency = 4; fetch_span = 12; success_streak = 0; quiet_remaining_ms = 26000 }
unfolding snapshot quiet_remaining_ms on_stress start
halves_once = refl

signals-start-IsValid_example :
    IsValid for_test
      (signals for_test (stress 5 ∷ success ∷ stress 6 ∷ stress 7 ∷ []) (start for_test))
signals-start-IsValid_example =
    signals-start-IsValid for_test (omega arith) (stress 5 ∷ success ∷ stress 6 ∷ stress 7 ∷ [])

stresses-halve_example :
    ((stresses patient (6000 ∷ 7500 ∷ []) backed_off).concurrency ≡ max 1 (halve 2 4))
    × ((stresses patient (6000 ∷ 7500 ∷ []) backed_off).fetch_span ≡ max 1 (halve 2 12))
stresses-halve_example =
    stresses-halve patient (6000 ∷ 7500 ∷ []) backed_off (omega arith) (omega arith)

successes_recover_example : IsFull patient (successes patient 100 backed_off)
successes_recover_example =
    successes_recover patient (omega arith) 100 backed_off (omega arith) (omega arith)
