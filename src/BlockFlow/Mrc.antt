-- ===== src/BlockFlow/Mrc.antt =====
-- `matchMrcPayouts` of lib/blockFlow.ts. The set `free` of outputs is a list in order of insertion,
-- from which a matching output is taken where it stands. How the source's two calls of `sort` order
-- equal amounts is not said by their comparison, so the two orders are parameters.
pub mod Listed
use grc_explorer.Common.{
  ℕ, zero, suc, ◌+◌, ◌-◌, Bool, not, ◌&&◌, Option, none, some, List, [], ◌∷◌, leb, ◌==◌, str_eq,
  if◌then◌else◌, keep, length, drop,
}
use grc_explorer.Common.Int.{ℤ, pos, ◌-ℤ◌, ltb_ℤ, eqb_ℤ}
use grc_explorer.BlockFlow.{FlowOutput, FlowMrc, is_data, contains}

pub record MrcMatches : Type 0 where
  pub claimants : List (Option FlowOutput)
  pub foundation : Option FlowOutput
  pub vout_set : List ℕ

-- The free outputs, and what was taken from them.
pub record Pool : Type 0 where
  pub free : List FlowOutput
  pub vout_set : List ℕ

-- The first element that passes, and the others.
unfoldable pub pick : (FlowOutput → Bool) → List FlowOutput → Option (FlowOutput × List FlowOutput)
pick p [] = none
pick p (o ∷ os) =
    let found = pick p os in
    if p o then some (o, os) else elim found [ none ↦ none | some (x, rest) ↦ some (x, o ∷ rest) ]

unfoldable pub spendable : List FlowOutput → List FlowOutput
spendable outputs = keep (λ o. leb 2 o.vout_n && not (is_data o) && ltb_ℤ (pos 0) o.value) outputs

-- `slice(-n)`, for an `n` that is not 0.
abbrev pub last_of : ℕ → List FlowOutput → List FlowOutput
last_of n os = drop (length os - n) os

-- `take`, of an output that was found among the free ones.
abbrev pub taken : Pool → FlowOutput × List FlowOutput → Option FlowOutput × Pool
taken pool (o, rest) = (some o, record { free = rest; vout_set = o.vout_n ∷ pool.vout_set })

unfoldable pub take_foundation : ℤ → Pool → Option FlowOutput × Pool
take_foundation foundation_fees pool =
    if ltb_ℤ (pos 0) foundation_fees
    then elim (pick (λ o. eqb_ℤ o.value foundation_fees) pool.free) [
      | none ↦ (none, pool)
      | some hit ↦ taken pool hit
    ]
    else (none, pool)

unfoldable pub net : ℕ → ℤ → ℤ → FlowMrc → Option ℤ
net count foundation_fees staker_fees m = elim m.fee [
  | some fee ↦ some (m.research_subsidy -ℤ fee)
  | none ↦ if count == 1 then some (m.research_subsidy -ℤ foundation_fees -ℤ staker_fees) else none
]

unfoldable pub take_claimant : Option ℤ → FlowMrc → Pool → Option FlowOutput × Pool
unfolding pick
take_claimant n m pool =
    let by_amount : Option (FlowOutput × List FlowOutput) = elim n [
      | none ↦ none
      | some x ↦ pick (λ o. eqb_ℤ o.value x) pool.free
    ] in
    elim by_amount [
      | some hit ↦ taken pool hit
      | none ↦
          elim (pick (λ o. not (str_eq o.address "") && contains m.beacon_addresses o.address)
            pool.free) [ some hit ↦ taken pool hit | none ↦ (none, pool) ]
    ]

unfoldable pub take_claimants : ℕ → ℤ → ℤ → List FlowMrc → Pool → List (Option FlowOutput) × Pool
unfolding net take_claimant
take_claimants count foundation_fees staker_fees [] pool = ([], pool)
take_claimants count foundation_fees staker_fees (m ∷ ms) pool =
    let (c, pool') = take_claimant (net count foundation_fees staker_fees m) m pool in
    let (cs, pool'') = take_claimants count foundation_fees staker_fees ms pool' in (c ∷ cs, pool'')

-- The MRCs without an output, with their positions from `i` on.
unfoldable pub rest_mrcs : ℕ → List FlowMrc → List (Option FlowOutput) → List (ℕ × FlowMrc)
rest_mrcs i (m ∷ ms) (none ∷ cs) = (i, m) ∷ rest_mrcs (i + 1) ms cs
rest_mrcs i (m ∷ ms) (some o ∷ cs) = rest_mrcs (i + 1) ms cs
rest_mrcs i _ _ = []

-- `claimants[i] = ...`
pub set_at : ℕ → FlowOutput → List (Option FlowOutput) → List (Option FlowOutput)
set_at i o [] = []
set_at zero o (c ∷ cs) = some o ∷ cs
set_at (suc i) o (c ∷ cs) = c ∷ set_at i o cs

unfoldable pub pair_rest :
    List (ℕ × FlowMrc)
    → List FlowOutput
    → List (Option FlowOutput) × List ℕ
    → List (Option FlowOutput) × List ℕ
pair_rest ((i, m) ∷ ms) (o ∷ os) (cs, vout_set) =
    pair_rest ms os (set_at i o cs, o.vout_n ∷ vout_set)
pair_rest _ _ acc = acc

module _ (order_mrcs : List (ℕ × FlowMrc) → List (ℕ × FlowMrc))
    (order_outputs : List FlowOutput → List FlowOutput) where
  unfoldable pub match_mrc_payouts : List FlowOutput → List FlowMrc → ℤ → ℤ → MrcMatches
  match_mrc_payouts outputs [] foundation_fees staker_fees = record {
    claimants = [];
    foundation = none;
    vout_set = [];
  }
  match_mrc_payouts outputs (m ∷ ms) foundation_fees staker_fees =
      let count = length (m ∷ ms) in
      let free =
        last_of (count + (if ltb_ℤ (pos 0) foundation_fees then 1 else 0)) (spendable outputs) in
      let (foundation, pool) =
        take_foundation foundation_fees (record { free = free; vout_set = [] }) in
      let (claimants, pool') = take_claimants count foundation_fees staker_fees (m ∷ ms) pool in
      let (claimants', vout_set) =
        pair_rest (order_mrcs (rest_mrcs 0 (m ∷ ms) claimants)) (order_outputs pool'.free)
          (claimants, pool'.vout_set) in
      record { claimants = claimants'; foundation = foundation; vout_set = vout_set }
