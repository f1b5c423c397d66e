-- ===== src/BlockFlow/Mrc/Listed.antt =====
-- The outputs that `matchMrcPayouts` of lib/blockFlow.ts matches are in its `voutSet`.
use grc_explorer.Common.{
  ℕ, zero, suc, ◌+◌, ◌≡◌, sym, subst, Bool, true, Option, none, some, List, [], ◌∷◌, if◌then◌else◌,
  All, All-map, Bool-cases, inl, inr, arith, length,
}
use grc_explorer.Common.Int.{ℤ, pos, ltb_ℤ, eqb_ℤ}
use grc_explorer.BlockFlow.{FlowOutput, FlowMrc}
use grc_explorer.BlockFlow.Mrc.{
  MrcMatches, Pool, taken, take_foundation, net, take_claimant, take_claimants, rest_mrcs, set_at,
  pair_rest, match_mrc_payouts, pick, spendable, last_of,
}
use grc_explorer.BlockFlow.Coinstake.{has_vout}

-- The output's index is among the listed ones, where there is an output.
abbrev pub IsListed : List ℕ → Option FlowOutput → Type 0
IsListed vs none = Unit
IsListed vs (some o) = has_vout vs o.vout_n ≡ true

-- Whatever is listed is listed still.
abbrev Grows : List ℕ → List ℕ → Type 0
Grows vs ws = (n : ℕ) → has_vout vs n ≡ true → has_vout ws n ≡ true

IsListed_later :
    (vs ws : List ℕ) (o : Option FlowOutput) → Grows vs ws → IsListed vs o → IsListed ws o
IsListed_later vs ws none g h = tt
IsListed_later vs ws (some o) g h = g o.vout_n h

-- What is taken from a pool is listed in the pool afterwards.
record IsTaken (pool : Pool) (r : Option FlowOutput × Pool) : Type 0 where
  listed : IsListed r.1.vout_set r.0
  grows : Grows pool.vout_set r.1.vout_set

taken-IsTaken : (pool : Pool) (hit : FlowOutput × List FlowOutput) → IsTaken pool (taken pool hit)
taken-IsTaken pool (o, rest) = record { listed = ground arith; grows = λ n h. ground arith }

nothing-IsTaken : (pool : Pool) → IsTaken pool (none, pool)
nothing-IsTaken pool = record { listed = tt; grows = λ n h. h }

take_first-IsTaken :
    (pool : Pool) (o : Option (FlowOutput × List FlowOutput))
    → IsTaken pool (elim o [ none ↦ (none, pool) | some hit ↦ taken pool hit ])
take_first-IsTaken pool none = nothing-IsTaken pool
take_first-IsTaken pool (some hit) = taken-IsTaken pool hit

take_foundation-IsTaken : (x : ℤ) (pool : Pool) → IsTaken pool (take_foundation x pool)
unfolding take_foundation
take_foundation-IsTaken x pool =
    let found : Option FlowOutput × Pool = elim (pick (λ o. eqb_ℤ o.value x) pool.free) [
      | none ↦ (none, pool)
      | some hit ↦ taken pool hit
    ] in
    let f : Bool → Option FlowOutput × Pool = λ b. if b then found else (none, pool) in
    elim (Bool-cases (ltb_ℤ (pos 0) x)) [
      | inl y ↦
          subst (λ b. IsTaken pool (f b)) (sym y)
            (take_first-IsTaken pool (pick (λ o. eqb_ℤ o.value x) pool.free))
      | inr n ↦ subst (λ b. IsTaken pool (f b)) (sym n) (nothing-IsTaken pool)
    ]

either-IsTaken :
    (pool : Pool) (o p : Option (FlowOutput × List FlowOutput))
    → IsTaken pool (elim o [
      | some hit ↦ taken pool hit
      | none ↦ elim p [ some hit ↦ taken pool hit | none ↦ (none, pool) ]
    ])
either-IsTaken pool (some hit) p = taken-IsTaken pool hit
either-IsTaken pool none none = nothing-IsTaken pool
either-IsTaken pool none (some hit) = taken-IsTaken pool hit

take_claimant-IsTaken :
    (n : Option ℤ) (m : FlowMrc) (pool : Pool) → IsTaken pool (take_claimant n m pool)
unfolding take_claimant
take_claimant-IsTaken n m pool = either-IsTaken pool _ _

take_claimants-IsListed :
    (count : ℕ) (x y : ℤ) (ms : List FlowMrc) (pool : Pool)
    → All
        (IsListed (take_claimants count x y ms pool).1.vout_set)
        (take_claimants count x y ms pool).0
      × Grows pool.vout_set (take_claimants count x y ms pool).1.vout_set
unfolding take_claimants
take_claimants-IsListed count x y [] pool = (tt, λ n h. h)
take_claimants-IsListed count x y (m ∷ ms) pool =
    let first = take_claimant (net count x y m) m pool in
    let now = take_claimant-IsTaken (net count x y m) m pool in
    let (rest, grows) = take_claimants-IsListed count x y ms first.1 in
    (
      (IsListed_later first.1.vout_set _ first.0 grows now.listed, rest),
      λ n h. grows n (now.grows n h),
    )

set_at-IsListed :
    (i : ℕ) (o : FlowOutput) (vs : List ℕ) (cs : List (Option FlowOutput))
    → All (IsListed vs) cs
    → All (IsListed (o.vout_n ∷ vs)) (set_at i o cs)
unfolding set_at
set_at-IsListed i o vs [] h = tt
set_at-IsListed zero o vs (c ∷ cs) (h, hs) = (ground arith, All-map _ _ (λ d k. later d k) cs hs)
  where
    later : (d : Option FlowOutput) → IsListed vs d → IsListed (o.vout_n ∷ vs) d
    later d k = IsListed_later vs (o.vout_n ∷ vs) d (λ n q. ground arith) k
set_at-IsListed (suc i) o vs (c ∷ cs) (h, hs) =
    (IsListed_later vs (o.vout_n ∷ vs) c (λ n q. ground arith) h, set_at-IsListed i o vs cs hs)

pair_rest-IsListed :
    (ms : List (ℕ × FlowMrc)) (os : List FlowOutput) (cs : List (Option FlowOutput)) (vs : List ℕ)
    → All (IsListed vs) cs
    → All (IsListed (pair_rest ms os (cs, vs)).1) (pair_rest ms os (cs, vs)).0
      × Grows vs (pair_rest ms os (cs, vs)).1
unfolding pair_rest
pair_rest-IsListed [] os cs vs h = (h, λ n q. q)
pair_rest-IsListed ((i, m) ∷ ms) [] cs vs h = (h, λ n q. q)
pair_rest-IsListed ((i, m) ∷ ms) (o ∷ os) cs vs h =
    let (rest, grows) =
      pair_rest-IsListed ms os (set_at i o cs) (o.vout_n ∷ vs) (set_at-IsListed i o vs cs h) in
    (rest, λ n q. grows n (ground arith))

module _ (order_mrcs : List (ℕ × FlowMrc) → List (ℕ × FlowMrc))
    (order_outputs : List FlowOutput → List FlowOutput) where
  -- The indices of the outputs that are matched are listed.
  pub match_mrc_payouts-IsListed :
      (outputs : List FlowOutput) (ms : List FlowMrc) (x y : ℤ) (mm : MrcMatches)
      → mm ≡ match_mrc_payouts order_mrcs order_outputs outputs ms x y
      → All (IsListed mm.vout_set) mm.claimants × IsListed mm.vout_set mm.foundation
  unfolding match_mrc_payouts
  match_mrc_payouts-IsListed outputs [] x y mm e =
      subst
        (λ (k : MrcMatches).
          All (IsListed k.vout_set) k.claimants × IsListed k.vout_set k.foundation)
        (sym e) (tt, tt)
  match_mrc_payouts-IsListed outputs (m ∷ ms) x y mm e =
      let count = length (m ∷ ms) in
      let free = last_of (count + (if ltb_ℤ (pos 0) x then 1 else 0)) (spendable outputs) in
      let start : Pool = record { free = free; vout_set = [] } in
      let f = take_foundation x start in
      let found = take_foundation-IsTaken x start in
      let c = take_claimants count x y (m ∷ ms) f.1 in
      let (claimed, grows) = take_claimants-IsListed count x y (m ∷ ms) f.1 in
      let (paired, more) =
        pair_rest-IsListed (order_mrcs (rest_mrcs 0 (m ∷ ms) c.0)) (order_outputs c.1.free) c.0
          c.1.vout_set claimed in
      subst
        (λ (k : MrcMatches).
          All (IsListed k.vout_set) k.claimants × IsListed k.vout_set k.foundation)
        (sym e) (paired, IsListed_later f.1.vout_set _ f.0 (λ n h. more n (grows n h)) found.listed)
