-- ===== src/Indexer/BlockWriter/AddressTxs.antt =====
-- The rows of `address_txs` that BlockWriter.ts derives, against the outputs and inputs of a block.
use grc_explorer.Common.{
  ℕ, ◌≡◌, refl, sym, ap, ◌∙◌, Bool, false, Option, none, some, List, [], ◌∷◌, ◌++◌, String, str_eq,
  str_eq_iff, if◌then◌else◌, arith, Bool-cases, inl, inr,
}
use grc_explorer.Common.Int.{ℤ, pos, ◌+ℤ◌, ◌-ℤ◌, int_laws, +ℤ_assoc, zero-+ℤ, +ℤ-zero}
use grc_explorer.Parsed.{TxInput, TxOutput, ParsedBlock}
use grc_explorer.Chain.{AddressTxRow}
use grc_explorer.Indexer.BlockWriter.{
  same_address_tx, flat_map, add_movement, named, movement, output_movement, debit_movement,
  input_movement, movements, add_movements, address_txs_of,
}

-- The sum of the movements of an address.
pub moved : String → List AddressTxRow → ℤ
moved a [] = pos 0
moved a (r ∷ rs) = (if str_eq r.address a then r.delta else pos 0) +ℤ moved a rs

abbrev pub is_for : String → Option String → Bool
is_for a none = false
is_for a (some b) = str_eq b a

-- What outputs give to an address, and what inputs that are no phantoms take from it.
unfoldable pub received : String → List TxOutput → ℤ
unfolding named
received a [] = pos 0
received a (o ∷ os) = (if is_for a (named o.address) then o.value else pos 0) +ℤ received a os

-- The value of an input, 0 where it is not known.
abbrev pub known_value : Option ℤ → ℤ
known_value none = pos 0
known_value (some v) = v

abbrev pub debit_if : Bool → String → Option String → Option ℤ → ℤ
debit_if phantom a address value =
    if phantom then pos 0 else if is_for a address then known_value value else pos 0

unfoldable pub debit_of : String → TxInput → ℤ
unfolding named
debit_of a i = debit_if i.is_phantom_spend a (named i.address) i.value

unfoldable pub spent : String → List TxInput → ℤ
unfolding debit_of
spent a [] = pos 0
spent a (i ∷ is) = debit_of a i +ℤ spent a is

moved-append :
    (a : String) (rs ss : List AddressTxRow) → moved a (rs ++ ss) ≡ moved a rs +ℤ moved a ss
unfolding moved
moved-append a [] ss = sym (zero-+ℤ _)
moved-append a (r ∷ rs) ss =
    ap (λ x. (if str_eq r.address a then r.delta else pos 0) +ℤ x) (moved-append a rs ss)
    ∙ sym (+ℤ_assoc _ _ _)

moved-add_movement :
    (a : String) (m : AddressTxRow) (rs : List AddressTxRow)
    → moved a (add_movement m rs) ≡ moved a rs +ℤ moved a (m ∷ [])
unfolding moved add_movement
moved-add_movement a m [] = omega int_laws
moved-add_movement a m (r ∷ rs) = elim (Bool-cases (same_address_tx r m)) [
  | inl same ↦
      let e : r.address ≡ m.address = (str_eq_iff r.address m.address).0 (ground arith) in
      rw same (
        rw e (elim (Bool-cases (str_eq m.address a)) [
          | inl on ↦ rw on (omega int_laws)
          | inr off ↦ rw off (omega int_laws)
        ]))
  | inr other ↦ rw other (
      ap (λ x. (if str_eq r.address a then r.delta else pos 0) +ℤ x) (moved-add_movement a m rs)
      ∙ sym (+ℤ_assoc _ _ _))
]

moved-add_movements :
    (a : String) (ms rs : List AddressTxRow)
    → moved a (add_movements ms rs) ≡ moved a rs +ℤ moved a ms
unfolding moved add_movements
moved-add_movements a [] rs = sym (+ℤ-zero _)
moved-add_movements a (m ∷ ms) rs =
    moved-add_movements a ms (add_movement m rs)
    ∙ ap (λ x. x +ℤ moved a ms) (moved-add_movement a m rs)
    ∙ +ℤ_assoc _ _ _
    ∙ ap (λ x. moved a rs +ℤ x) (sym (moved-append a (m ∷ []) ms))

moved-movement :
    (a : String) (height : ℕ) (tx_id : String) (o : Option String) (v : ℤ)
    → moved a (movement height tx_id o v) ≡ (if is_for a o then v else pos 0)
unfolding moved movement
moved-movement a height tx_id none v = refl
moved-movement a height tx_id (some b) v = +ℤ-zero _

moved-debit_movement :
    (a : String) (height : ℕ) (tx_id : String) (o : Option String) (v : Option ℤ)
    → moved a (debit_movement height tx_id o v)
      ≡ pos 0 -ℤ (if is_for a o then known_value v else pos 0)
unfolding debit_movement moved
moved-debit_movement a height tx_id o none = elim (Bool-cases (is_for a o)) [
  | inl on ↦ rw on (omega int_laws)
  | inr off ↦ rw off (omega int_laws)
]
moved-debit_movement a height tx_id o (some v) =
    moved-movement a height tx_id o _
    ∙ elim (Bool-cases (is_for a o)) [ inl on ↦ rw on | inr off ↦ rw off (omega int_laws) ]

moved-outputs :
    (a : String) (height : ℕ) (os : List TxOutput)
    → moved a (flat_map (output_movement height) os) ≡ received a os
unfolding flat_map moved received output_movement
moved-outputs a height [] = refl
moved-outputs a height (o ∷ os) =
    moved-append a (output_movement height o) (flat_map (output_movement height) os)
    ∙ rw (moved-movement a height o.tx_id (named o.address) o.value, moved-outputs a height os)

zero_less : pos 0 ≡ pos 0 -ℤ pos 0
zero_less = omega int_laws

moved-input_movement :
    (a : String) (height : ℕ) (i : TxInput)
    → moved a (input_movement height i) ≡ pos 0 -ℤ debit_of a i
unfolding input_movement debit_of moved
moved-input_movement a height i =
    let rows : Bool → List AddressTxRow =
      λ b. if b then [] else debit_movement height i.tx_id (named i.address) i.value in
    let debit : Bool → ℤ = λ b. pos 0 -ℤ debit_if b a (named i.address) i.value in
    elim (Bool-cases i.is_phantom_spend) [
      | inl phantom ↦ ap (λ b. moved a (rows b)) phantom ∙ zero_less ∙ ap debit (sym phantom)
      | inr real ↦
          ap (λ b. moved a (rows b)) real
          ∙ moved-debit_movement a height i.tx_id (named i.address) i.value
          ∙ ap debit (sym real)
    ]

moved-inputs :
    (a : String) (height : ℕ) (is : List TxInput)
    → moved a (flat_map (input_movement height) is) ≡ pos 0 -ℤ spent a is
unfolding flat_map moved spent
moved-inputs a height [] = omega int_laws
moved-inputs a height (i ∷ is) =
    moved-append a (input_movement height i) (flat_map (input_movement height) is)
    ∙ rw (moved-input_movement a height i, moved-inputs a height is) (omega int_laws)

-- In the rows of a block, the movements of an address add up to the outputs to it less the inputs
-- from it that are no phantoms; an empty address is none.
pub address_txs_of-moved :
    (a : String) (p : ParsedBlock)
    → moved a (address_txs_of p) ≡ received a p.tx_outputs -ℤ spent a p.tx_inputs
unfolding address_txs_of movements moved
address_txs_of-moved a p =
    moved-add_movements a (movements p) []
    ∙ zero-+ℤ _
    ∙ moved-append a (flat_map (output_movement p.block.height) p.tx_outputs) _
    ∙ rw (moved-outputs a p.block.height p.tx_outputs, moved-inputs a p.block.height p.tx_inputs)
        (omega int_laws)
