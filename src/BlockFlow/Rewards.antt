-- ===== src/BlockFlow/Rewards.antt =====
-- Which flows of a coinstake in lib/blockFlow.ts are minted, and how they fill the surplus.
use grc_explorer.Common.{
  ℕ, ◌+◌, ◌≡◌, refl, ◌∙◌, Bool, true, false, ◌&&◌, Option, none, some, List, [], ◌∷◌, ◌++◌, map,
  arith, String, if◌then◌else◌, All, All-append, Bool-cases, inl, inr,
}
use grc_explorer.Common.Int.{ℤ, pos, ◌+ℤ◌, ◌-ℤ◌, ◌≤ℤ◌, ltb_ℤ, eqb_ℤ, int_laws, eq_of_parts}
use grc_explorer.BlockFlow.{
  Flow, FlowEndpoint, FlowOutput, FlowMrc, FlowContract, sum, plain_flow, mrc_fee, minted,
}
use grc_explorer.BlockFlow.Mrc.{MrcMatches}
use grc_explorer.BlockFlow.Sources.{data_flow, data_flows, when}
use grc_explorer.BlockFlow.Coinstake.{
  rest_flows, paid_flows, mrc_flows, mrc_flow, foundation_flow, research_flow, sidestake_flow,
}
use grc_explorer.BlockFlow.Sums.{
  amount_of, minted_of, fee_of, sum_over, sum_over-append4, if_true, if_false,
}

pub sum_over-IsMinted :
    (fs : List Flow)
    → All (λ f. (minted_of f ≡ amount_of f) × (fee_of f ≡ pos 0)) fs
    → (sum_over minted_of fs ≡ sum_over amount_of fs) × (sum_over fee_of fs ≡ pos 0)
unfolding sum
sum_over-IsMinted [] _ = (refl, refl)
sum_over-IsMinted (f ∷ fs) ((m, e), hs) =
    let (ms, es) = sum_over-IsMinted fs hs in (rw (m, ms), rw (e, es) (omega int_laws))

pub All-when : (P : Flow → Type 0) (b : Bool) (f : Flow) → P f → All P (when b f)
All-when P true f h = (h, tt)
All-when P false f h = tt

-- Everything in the flows is minted.
abbrev pub IsMinted : Flow → Type 0
IsMinted f = (minted_of f ≡ amount_of f) × (fee_of f ≡ pos 0)

pub mrc_flows-IsMinted :
    (ms : List FlowMrc) (cs : List (Option FlowOutput)) → All IsMinted (mrc_flows ms cs)
unfolding mrc_flows mrc_flow research_flow
mrc_flows-IsMinted [] cs = tt
mrc_flows-IsMinted (m ∷ ms) [] = ((refl, refl), mrc_flows-IsMinted ms [])
mrc_flows-IsMinted (m ∷ ms) (some o ∷ cs) = ((refl, refl), mrc_flows-IsMinted ms cs)
mrc_flows-IsMinted (m ∷ ms) (none ∷ cs) = ((refl, refl), mrc_flows-IsMinted ms cs)

pub foundation_flow-IsMinted : (x : ℤ) (o : Option FlowOutput) → IsMinted (foundation_flow x o)
unfolding foundation_flow
foundation_flow-IsMinted x none = (refl, refl)
foundation_flow-IsMinted x (some o) = (refl, refl)

pub paid_flows-IsMinted :
    (staker : FlowEndpoint) (ms : List FlowMrc) (mm : MrcMatches) (x y : ℤ)
    → All IsMinted (paid_flows staker ms mm x y)
unfolding paid_flows
paid_flows-IsMinted staker ms mm x y =
    All-append IsMinted (mrc_flows ms mm.claimants ++ when _ (foundation_flow x mm.foundation)) _
      (All-append IsMinted (mrc_flows ms mm.claimants) (when _ (foundation_flow x mm.foundation))
        (mrc_flows-IsMinted ms mm.claimants)
        (All-when IsMinted _ _ (foundation_flow-IsMinted x mm.foundation)))
      (All-when IsMinted _ (plain_flow mrc_fee y minted staker) (refl, refl))

-- The sum of what is minted before, and of the flows for the rest of the surplus.
abbrev pub minted_with : ℤ → List Flow → ℤ
minted_with before rest = before +ℤ sum_over minted_of rest

-- The rest of the surplus is collected, unless it is minted.
pub rest_flows-sums :
    (staker : FlowEndpoint) (research block total surplus : ℤ) (rest : List Flow)
    → rest ≡ rest_flows staker research block total surplus
    → minted_with (research +ℤ block +ℤ total) rest ≤ℤ surplus
    → minted_with (research +ℤ block +ℤ total) rest +ℤ sum_over fee_of rest ≡ surplus
unfolding rest_flows sum
rest_flows-sums staker research block total surplus rest e le =
    let collected = surplus -ℤ (research +ℤ block +ℤ total) in
    let unclaimed =
      eqb_ℤ research (pos 0)
      && eqb_ℤ block (pos 0)
      && eqb_ℤ total (pos 0)
      && ltb_ℤ (pos 0) surplus in
    elim (Bool-cases unclaimed) [
      | inl y ↦
          let er : research ≡ pos 0 = eq_of_parts research (pos 0) (ground arith) in
          let eb : block ≡ pos 0 = eq_of_parts block (pos 0) (ground arith) in
          let et : total ≡ pos 0 = eq_of_parts total (pos 0) (ground arith) in
          rw (e ∙ if_true unclaimed _ _ y, er, eb, et) (omega int_laws)
      | inr n ↦ elim (Bool-cases (ltb_ℤ (pos 0) collected)) [
        | inl c ↦
            rw (e ∙ if_false unclaimed _ _ n ∙ if_true (ltb_ℤ (pos 0) collected) _ _ c)
              (omega int_laws)
        | inr z ↦
            let nil = e ∙ if_false unclaimed _ _ n ∙ if_false (ltb_ℤ (pos 0) collected) _ _ z in
            let low : collected ≤ℤ pos 0 = ground arith in
            let high : minted_with (research +ℤ block +ℤ total) [] ≤ℤ surplus = rw nil at le in
            rw nil (omega int_laws)
      ]
    ]

-- A flow that is neither minted nor a fee.
abbrev pub IsOther : Flow → Type 0
IsOther f = (minted_of f ≡ pos 0) × (fee_of f ≡ pos 0)

pub data_flows-IsOther :
    (contracts : List FlowContract) (source : FlowEndpoint) (k : ℕ) (os : List FlowOutput)
    → All IsOther (data_flows contracts source k os)
unfolding data_flows data_flow
data_flows-IsOther contracts source k [] = tt
data_flows-IsOther contracts source k (o ∷ os) =
    ((refl, refl), data_flows-IsOther contracts source (k + 1) os)

pub map-sidestake-IsOther :
    (staker : FlowEndpoint) (addrs : List String) (os : List FlowOutput)
    → All IsOther (map (sidestake_flow staker addrs) os)
unfolding sidestake_flow
map-sidestake-IsOther staker addrs [] = tt
map-sidestake-IsOther staker addrs (o ∷ os) = ((refl, refl), map-sidestake-IsOther staker addrs os)

pub sum_over-other :
    (fs : List Flow)
    → All IsOther fs
    → (sum_over minted_of fs ≡ pos 0) × (sum_over fee_of fs ≡ pos 0)
unfolding sum
sum_over-other [] h = (refl, refl)
sum_over-other (f ∷ fs) ((m, e), hs) =
    let (ms, es) = sum_over-other fs hs in
    (rw (m, ms) (omega int_laws), rw (e, es) (omega int_laws))

pub nonneg_if : (x : ℤ) → pos 0 ≤ℤ x → (if ltb_ℤ (pos 0) x then x else pos 0) ≡ x
nonneg_if x h = elim (Bool-cases (ltb_ℤ (pos 0) x)) [
  | inl y ↦ if_true _ x (pos 0) y
  | inr n ↦ if_false _ x (pos 0) n ∙ eq_of_parts (pos 0) x (ground arith)
]

pub no_if : (b : Bool) → (if b then pos 0 else pos 0) ≡ pos 0
no_if true = refl
no_if false = refl

pub reward_sums :
    (staker : FlowEndpoint) (research block surplus : ℤ) (r b paid rest : List Flow)
    → sum_over minted_of r ≡ research
    → sum_over fee_of r ≡ pos 0
    → sum_over minted_of b ≡ block
    → sum_over fee_of b ≡ pos 0
    → All IsMinted paid
    → rest ≡ rest_flows staker research block (sum_over amount_of paid) surplus
    → sum_over minted_of (r ++ b ++ paid ++ rest) ≤ℤ surplus
    → sum_over minted_of (r ++ b ++ paid ++ rest) +ℤ sum_over fee_of (r ++ b ++ paid ++ rest)
      ≡ surplus
reward_sums staker research block surplus r b paid rest rm rf bm bf p e small =
    let (pm, pf) = sum_over-IsMinted paid p in
    let m : sum_over minted_of (r ++ b ++ paid ++ rest)
        ≡ minted_with (research +ℤ block +ℤ sum_over amount_of paid) rest =
      sum_over-append4 minted_of r b paid rest ∙ rw (rm, bm, pm) in
    let f : sum_over fee_of (r ++ b ++ paid ++ rest) ≡ sum_over fee_of rest =
      sum_over-append4 fee_of r b paid rest ∙ rw (rf, bf, pf) (omega int_laws) in
    rw (m, f)
      (rest_flows-sums staker research block (sum_over amount_of paid) surplus rest e
        (rw m at small))
