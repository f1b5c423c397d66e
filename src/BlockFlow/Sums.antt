-- ===== src/BlockFlow/Sums.antt =====
-- Sums over the flows of lib/blockFlow.ts, and what `tallyTx` adds up.
use grc_explorer.Common.{
  ◌≡◌, refl, sym, ap, ◌∙◌, Bool, true, false, List, [], ◌∷◌, ◌++◌, map, arith, if◌then◌else◌,
  Bool-cases, inl, inr,
}
use grc_explorer.Common.Int.{ℤ, pos, ◌+ℤ◌, ◌-ℤ◌, ◌≤ℤ◌, ltb_ℤ, int_laws, +ℤ_assoc, zero-+ℤ, +ℤ-zero}
use grc_explorer.BlockFlow.{
  Flow, Totals, sum, mint_block, mint_research, fee, mrc_fee, tally_flow, tally_from, tally_tx,
}
use grc_explorer.BlockFlow.Sources.{when}

abbrev pub amount_of : Flow → ℤ
amount_of f = f.amount

-- What a flow adds to the minted total, and to the fees.
abbrev pub minted_of : Flow → ℤ
minted_of f = elim f.category [
  | mint_block ↦ f.amount
  | mint_research ↦ f.amount
  | mrc_fee ↦ f.amount
  | _ ↦ pos 0
]

abbrev pub fee_of : Flow → ℤ
fee_of f = elim f.category [ fee ↦ f.amount | _ ↦ pos 0 ]

abbrev pub sum_over : (Flow → ℤ) → List Flow → ℤ
sum_over g fs = sum (map g fs)

pub sum_over-append :
    (g : Flow → ℤ) (fs gs : List Flow) → sum_over g (fs ++ gs) ≡ sum_over g fs +ℤ sum_over g gs
unfolding sum
sum_over-append g [] gs = sym (zero-+ℤ _)
sum_over-append g (f ∷ fs) gs = ap (λ x. g f +ℤ x) (sum_over-append g fs gs) ∙ sym (+ℤ_assoc _ _ _)

pub when-sum :
    (g : Flow → ℤ) (b : Bool) (f : Flow) → sum_over g (when b f) ≡ (if b then g f else pos 0)
unfolding sum
when-sum g true f = +ℤ-zero (g f)
when-sum g false f = refl

pub if_true {ℓ} : {A : Type ℓ} (b : Bool) (x y : A) → b ≡ true → (if b then x else y) ≡ x
if_true b x y e = ap (λ c. if c then x else y) e

pub if_false {ℓ} : {A : Type ℓ} (b : Bool) (x y : A) → b ≡ false → (if b then x else y) ≡ y
if_false b x y e = ap (λ c. if c then x else y) e

pub positive_rest : (a b : ℤ) → b ≤ℤ a → b +ℤ (if ltb_ℤ (pos 0) (a -ℤ b) then a -ℤ b else pos 0) ≡ a
positive_rest a b le = elim (Bool-cases (ltb_ℤ (pos 0) (a -ℤ b))) [
  | inl y ↦ ap (λ x. b +ℤ x) (if_true _ (a -ℤ b) (pos 0) y) ∙ omega int_laws
  | inr n ↦
      let nn : a -ℤ b ≤ℤ pos 0 = ground arith in
      ap (λ x. b +ℤ x) (if_false _ (a -ℤ b) (pos 0) n) ∙ omega int_laws
]

-- A flow adds to the minted total and to the fees what `tally_tx` adds.
pub tally_flow-sums :
    (f : Flow) (t : Totals)
    → ((tally_flow f t).minted ≡ t.minted +ℤ minted_of f)
      × ((tally_flow f t).fee ≡ t.fee +ℤ fee_of f)
unfolding tally_flow
tally_flow-sums f t = ground (arith, +ℤ-zero t.minted, +ℤ-zero t.fee)

pub tally_from-sums :
    (fs : List Flow) (t : Totals)
    → ((tally_from t fs).minted ≡ t.minted +ℤ sum_over minted_of fs)
      × ((tally_from t fs).fee ≡ t.fee +ℤ sum_over fee_of fs)
unfolding tally_from sum
tally_from-sums [] t = (sym (+ℤ-zero _), sym (+ℤ-zero _))
tally_from-sums (f ∷ fs) t =
    let (m, e) = tally_flow-sums f t in
    let (ms, es) = tally_from-sums fs (tally_flow f t) in
    (
      ms ∙ ap (λ x. x +ℤ sum_over minted_of fs) m ∙ +ℤ_assoc _ _ _,
      es ∙ ap (λ x. x +ℤ sum_over fee_of fs) e ∙ +ℤ_assoc _ _ _,
    )

pub tally_tx-sums :
    (fs : List Flow)
    → ((tally_tx fs).minted ≡ sum_over minted_of fs) × ((tally_tx fs).fee ≡ sum_over fee_of fs)
unfolding tally_tx
tally_tx-sums fs = let (m, e) = tally_from-sums fs _ in (m ∙ zero-+ℤ _, e ∙ zero-+ℤ _)

pub sum_over-append4 :
    (g : Flow → ℤ) (ps qs rs ts : List Flow)
    → sum_over g (ps ++ qs ++ rs ++ ts)
      ≡ sum_over g ps +ℤ sum_over g qs +ℤ sum_over g rs +ℤ sum_over g ts
sum_over-append4 g ps qs rs ts = rw (
  sum_over-append g (ps ++ qs ++ rs) ts,
  sum_over-append g (ps ++ qs) rs,
  sum_over-append g ps qs,
)
