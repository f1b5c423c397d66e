-- ===== src/Indexer/AdaptiveLimits/Recovery.antt =====
-- How AdaptiveLimits.ts backs off under stress and recovers after it.
use native.Mathlib.Nat.{mul-le-mul_left, mul-suc}
use grc_explorer.Common.{
  ℕ, zero, suc, ◌∙◌, ◌+◌, ◌-◌, ◌/◌, ◌*◌, ◌≤◌, ◌<◌, ◌≡◌, ◌⊎◌, inl, inr, List, [], ◌∷◌, arith, max,
  length, leb, Bool-cases,
}
use grc_explorer.Indexer.AdaptiveLimits.{
  Settings, Limits, on_stress, on_success, successes, stresses,
}
use grc_explorer.Indexer.AdaptiveLimits.Bounds.{AreOrdered, IsValid, on_success-IsValid}

-- `n` halved `k` times, rounding down.
pub halve : ℕ → ℕ → ℕ
halve zero n = n
halve (suc k) n = halve k (n / 2)

halve-le : (k n : ℕ) → halve k n ≤ n
unfolding halve
halve-le zero n = omega arith
halve-le (suc k) n = omega (arith, halve-le k (n / 2))

halve-max : (k m n : ℕ) → max m (halve k (max m n)) ≡ max m (halve k n)
halve-max k m n = elim (Bool-cases (leb m n)) [
  | inl le ↦ let e : max m n ≡ n = ground arith in rw e
  | inr gt ↦ let e : max m n ≡ m = ground arith in rw e (ground (arith, halve-le k m, halve-le k n))
]

no_deficit : (r d s : ℕ) → s < r → r * d ≤ s → d ≡ 0
no_deficit r zero s h k = omega arith
no_deficit r (suc d) s h k = absurd (omega arith)

less_deficit : (r d d' n s : ℕ) → d' + 1 ≤ d → s < r → r * d ≤ suc n + s → r * d' ≤ n
less_deficit r d d' n s h k b =
    let le : suc d' ≤ d = omega arith in omega (arith, mul-le-mul_left r le, mul-suc r d')

module _ (c : Settings) where
  -- Each time is at least the debounce time after the one before.
  abbrev pub AreSpaced : ℕ → List ℕ → Type 0
  AreSpaced last [] = Unit
  AreSpaced last (now ∷ times) = (last + c.stress_debounce_ms ≤ now) × AreSpaced now times

  on_stress_counted :
      (now : ℕ) (l : Limits)
      → l.last_stress_at + c.stress_debounce_ms ≤ now
      → ((on_stress c now l).concurrency ≡ max c.min_concurrency (l.concurrency / 2))
        × ((on_stress c now l).fetch_span ≡ max c.min_fetch_span (l.fetch_span / 2))
        × ((on_stress c now l).last_stress_at ≡ now)
  unfolding on_stress
  on_stress_counted now l h = ground arith

  stresses-halve_from :
      (times : List ℕ) (l : Limits)
      → c.min_concurrency ≤ l.concurrency
      → c.min_fetch_span ≤ l.fetch_span
      → AreSpaced l.last_stress_at times
      → ((stresses c times l).concurrency
          ≡ max c.min_concurrency (halve (length times) l.concurrency))
        × ((stresses c times l).fetch_span
            ≡ max c.min_fetch_span (halve (length times) l.fetch_span))
  unfolding stresses halve
  stresses-halve_from [] l hc hs _ = (omega arith, omega arith)
  stresses-halve_from (now ∷ times) l hc hs (h, rest) =
      let (ec, es, et) = on_stress_counted now l h in
      let (ic, is) =
        stresses-halve_from times (on_stress c now l) (omega arith) (omega arith) (rw et rest) in
      (
        ic ∙ rw ec (halve-max (length times) c.min_concurrency (l.concurrency / 2)),
        is ∙ rw es (halve-max (length times) c.min_fetch_span (l.fetch_span / 2)),
      )

  -- Stress signals at times that are at least the debounce apart halve each knob once for each
  -- signal, and no further than its floor.
  pub stresses-halve :
      (times : List ℕ) (l : Limits)
      → IsValid c l
      → AreSpaced l.last_stress_at times
      → ((stresses c times l).concurrency
          ≡ max c.min_concurrency (halve (length times) l.concurrency))
        × ((stresses c times l).fetch_span
            ≡ max c.min_fetch_span (halve (length times) l.fetch_span))
  stresses-halve times l v = stresses-halve_from times l v.concurrency_low v.span_low

  abbrev pub deficit : Limits → ℕ
  deficit l = (c.max_concurrency - l.concurrency) + (c.max_fetch_span - l.fetch_span)

  -- Both knobs are at their ceilings.
  abbrev pub IsFull : Limits → Type 0
  IsFull l = (l.concurrency ≡ c.max_concurrency) × (l.fetch_span ≡ c.max_fetch_span)

  on_success_cases :
      (l : Limits)
      → IsValid c l
      → (IsFull l × IsFull (on_success c l))
        ⊎ ((deficit (on_success c l) ≡ deficit l)
            × ((on_success c l).success_streak ≡ l.success_streak + 1))
        ⊎ ((deficit (on_success c l) + 1 ≤ deficit l) × (c.ramp_threshold ≤ l.success_streak + 1))
  unfolding on_success
  on_success_cases l v = ground arith

  on_success-IsFull : (l : Limits) → IsFull l → IsFull (on_success c l)
  unfolding on_success
  on_success-IsFull l f = ground arith

  successes-IsFull : (n : ℕ) (l : Limits) → IsFull l → IsFull (successes c n l)
  unfolding successes
  successes-IsFull zero l f = f
  successes-IsFull (suc n) l f = successes-IsFull n (on_success c l) (on_success-IsFull l f)

  module _ (o : AreOrdered c) where
    successes_recover_from :
        (n : ℕ) (l : Limits)
        → IsValid c l
        → max 1 c.ramp_threshold * deficit l ≤ n + l.success_streak
        → IsFull (successes c n l)
    unfolding successes
    successes_recover_from zero l v h =
        let e =
          no_deficit (max 1 c.ramp_threshold) (deficit l) l.success_streak (omega arith)
            (omega arith) in
        (omega arith, omega arith)
    successes_recover_from (suc n) l v h = elim (on_success_cases l v) [
      | inl (_, f) ↦ successes-IsFull n (on_success c l) f
      | inr (inl (same, streak)) ↦
          successes_recover_from n (on_success c l) (on_success-IsValid c o l v)
            (rw (same, streak) (omega arith))
      | inr (inr (less, streak)) ↦
          let ramped =
            less_deficit (max 1 c.ramp_threshold) (deficit l) (deficit (on_success c l)) n
              l.success_streak less (omega arith) h in
          successes_recover_from n (on_success c l) (on_success-IsValid c o l v) (omega arith)
    ]

    -- From any state within bounds, the ramp threshold (at least 1) times the distance of the two
    -- knobs from their ceilings is a number of successes in a row, with no stress between them,
    -- that brings both knobs to their ceilings; so does any larger number.
    pub successes_recover :
        (n : ℕ) (l : Limits)
        → IsValid c l
        → max 1 c.ramp_threshold * deficit l ≤ n
        → IsFull (successes c n l)
    successes_recover n l v h = successes_recover_from n l v (omega arith)
