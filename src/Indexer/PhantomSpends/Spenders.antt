-- ===== src/Indexer/PhantomSpends/Spenders.antt =====
-- Which inputs of a batch are spenders, in PhantomSpendDetector.ts.
use mathlib.Core.List.Memᴰ
use grc_explorer.Common.{
  ◌≡◌, refl, sym, subst, Bool, false, ◌&&◌, ◌||◌, List, [], ◌∷◌, ◌++◌, ◌==◌, str_eq, if◌then◌else◌,
  Memᴰ, arith, Bool-cases, inl, inr,
}
use grc_explorer.Parsed.{TxInput, ParsedBlock}
use grc_explorer.Indexer.PhantomSpends.Claims.{spenders, batch_spenders}

abbrev pub same_pk : TxInput → TxInput → Bool
same_pk a b = str_eq a.tx_id b.tx_id && a.vin_n == b.vin_n

-- The inputs of a batch.
unfoldable pub batch_inputs : List ParsedBlock → List TxInput
batch_inputs [] = []
batch_inputs (b ∷ bs) = b.tx_inputs ++ batch_inputs bs

pub spenders-tail :
    (i j : TxInput) (is : List TxInput) → Memᴰ j (spenders is) → Memᴰ j (spenders (i ∷ is))
unfolding spenders
spenders-tail i j is m =
    let f : Bool → List TxInput = λ b. if b then spenders is else i ∷ spenders is in
    elim (Bool-cases (str_eq i.prev_tx "" || i.is_phantom_spend)) [
      | inl y ↦ subst (λ b. Memᴰ j (f b)) (sym y) m
      | inr n ↦ subst (λ b. Memᴰ j (f b)) (sym n) (Memᴰ.tail m)
    ]

pub spenders-head :
    (i : TxInput) (is : List TxInput)
    → (str_eq i.prev_tx "" || i.is_phantom_spend) ≡ false
    → Memᴰ i (spenders (i ∷ is))
unfolding spenders
spenders-head i is h =
    let f : Bool → List TxInput = λ b. if b then spenders is else i ∷ spenders is in
    subst (λ b. Memᴰ i (f b)) (sym h) (Memᴰ.head refl)

-- An input that spends is a spender.
spenders-Memᴰ :
    (j : TxInput) (is : List TxInput)
    → Memᴰ j is
    → (str_eq j.prev_tx "" || j.is_phantom_spend) ≡ false
    → Memᴰ j (spenders is)
spenders-Memᴰ j [] m h = elim m [ ]
spenders-Memᴰ j (i ∷ is) (Memᴰ.head e) h =
    subst (λ (x : TxInput). Memᴰ x (spenders (i ∷ is))) (sym e)
      (spenders-head i is
        (subst (λ (x : TxInput). (str_eq x.prev_tx "" || x.is_phantom_spend) ≡ false) e h))
spenders-Memᴰ j (i ∷ is) (Memᴰ.tail m) h = spenders-tail i j is (spenders-Memᴰ j is m h)

pub batch_spenders-Memᴰ :
    (j : TxInput) (bs : List ParsedBlock)
    → Memᴰ j (batch_inputs bs)
    → (str_eq j.prev_tx "" || j.is_phantom_spend) ≡ false
    → Memᴰ j (batch_spenders bs)
unfolding batch_inputs batch_spenders
batch_spenders-Memᴰ j [] m h = elim m [ ]
batch_spenders-Memᴰ j (b ∷ bs) m h = elim (Memᴰ.append_cases b.tx_inputs m) [
  | inl here ↦ Memᴰ.append_left _ (spenders-Memᴰ j b.tx_inputs here h)
  | inr later ↦ Memᴰ.append_right _ (batch_spenders-Memᴰ j bs later h)
]

spenders_used :
    (j : TxInput) (is : List TxInput) → Memᴰ j (spenders is) → str_eq j.prev_tx "" ≡ false
unfolding spenders
spenders_used j [] m = elim m [ ]
spenders_used j (i ∷ is) m =
    let f : Bool → List TxInput = λ b. if b then spenders is else i ∷ spenders is in
    elim (Bool-cases (str_eq i.prev_tx "" || i.is_phantom_spend)) [
      | inl y ↦ spenders_used j is (subst (λ b. Memᴰ j (f b)) y m)
      | inr n ↦ elim (Memᴰ.cases_cons (subst (λ b. Memᴰ j (f b)) n m)) [
        | inl e ↦ subst (λ (x : TxInput). str_eq x.prev_tx "" ≡ false) (sym e) (ground arith)
        | inr t ↦ spenders_used j is t
      ]
    ]

pub batch_spenders_used :
    (j : TxInput) (bs : List ParsedBlock) → Memᴰ j (batch_spenders bs) → str_eq j.prev_tx "" ≡ false
unfolding batch_spenders
batch_spenders_used j [] m = elim m [ ]
batch_spenders_used j (b ∷ bs) m = elim (Memᴰ.append_cases (spenders b.tx_inputs) m) [
  | inl here ↦ spenders_used j b.tx_inputs here
  | inr later ↦ batch_spenders_used j bs later
]
