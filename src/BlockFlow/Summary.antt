-- ===== src/BlockFlow/Summary.antt =====
-- `summarizeBlock` of lib/blockFlow.ts, against the totals of the block's transactions.
use grc_explorer.Common.{
  ℕ, ◌+◌, ◌≡◌, refl, sym, subst, Bool, false, not, ◌&&◌, Option, none, some, List, [], ◌∷◌, ◌++◌,
  arith, String, str_eq, length, if◌then◌else◌,
}
use grc_explorer.Common.Int.{ℤ, pos, ◌+ℤ◌, int_laws, +ℤ_assoc}
use grc_explorer.BlockFlow.{
  Flow, transfer, mint_block, mint_research, stake_return, sidestake, data_record, mrc_fee,
  ContractKind, stamp, vote, beacon, poll, project, unknown, Detail, TxFlow, Totals, tally_flow,
  tally_from, tally_tx, contains,
}

pub record DataCounts : Type 0 where
  pub stamps : ℕ
  pub votes : ℕ
  pub beacons : ℕ
  pub polls : ℕ
  pub projects : ℕ
  pub other : ℕ

-- `recipients` is the set beside the summary, whose size becomes `sidestaked.recipients`.
pub record BlockFlowSummary : Type 0 where
  pub height : ℕ
  pub minted_block : ℤ
  pub minted_research : ℤ
  pub minted_mrc : ℤ
  pub minted_cpid : Option String
  pub minted_magnitude : Option ℕ
  pub moved : ℤ
  pub staked : ℤ
  pub sidestaked_total : ℤ
  pub recipients : List String
  pub counts : DataCounts
  pub tx_count : ℕ

-- `DATA_BUCKET`
pub count_kind : ContractKind → DataCounts → DataCounts
count_kind stamp d = record d { stamps = d.stamps + 1 }
count_kind vote d = record d { votes = d.votes + 1 }
count_kind beacon d = record d { beacons = d.beacons + 1 }
count_kind poll d = record d { polls = d.polls + 1 }
count_kind project d = record d { projects = d.projects + 1 }
count_kind _ d = record d { other = d.other + 1 }

abbrev pub detail_is_mrc : Option Detail → Bool
detail_is_mrc none = false
detail_is_mrc (some d) = d.is_mrc

abbrev pub kind_of : Option Detail → ContractKind
kind_of none = unknown
kind_of (some d) = elim d.contract [ none ↦ unknown | some (k, summary) ↦ k ]

-- A text that is there and not empty.
abbrev pub is_truthy : Option String → Bool
is_truthy none = false
is_truthy (some a) = not (str_eq a "")

abbrev pub first_cpid : Option String → Option Detail → Option String
first_cpid found none = found
first_cpid found (some d) = if not (is_truthy found) && is_truthy d.cpid then d.cpid else found

abbrev pub first_magnitude : Option ℕ → Option Detail → Option ℕ
first_magnitude (some m) detail = some m
first_magnitude none none = none
first_magnitude none (some d) = d.magnitude

abbrev pub add_recipient : Option String → List String → List String
add_recipient none rs = rs
add_recipient (some a) rs = if str_eq a "" then rs else if contains rs a then rs else rs ++ a ∷ []

pub summarize_flow : Flow → BlockFlowSummary → BlockFlowSummary
unfolding count_kind
summarize_flow f s = elim f.category [
  | mint_block ↦ record s { minted_block = s.minted_block +ℤ f.amount }
  | mrc_fee ↦ record s { minted_mrc = s.minted_mrc +ℤ f.amount }
  | mint_research ↦
      if detail_is_mrc f.detail
      then record s { minted_mrc = s.minted_mrc +ℤ f.amount }
      else record s {
        minted_research = s.minted_research +ℤ f.amount;
        minted_cpid = first_cpid s.minted_cpid f.detail;
        minted_magnitude = first_magnitude s.minted_magnitude f.detail;
      }
  | transfer ↦ record s { moved = s.moved +ℤ f.amount }
  | stake_return ↦ record s { staked = s.staked +ℤ f.amount }
  | sidestake ↦ record s {
    sidestaked_total = s.sidestaked_total +ℤ f.amount;
    recipients = add_recipient f.to.address s.recipients;
  }
  | data_record ↦ record s { counts = count_kind (kind_of f.detail) s.counts }
  | _ ↦ s
]

pub summarize_flows : BlockFlowSummary → List Flow → BlockFlowSummary
summarize_flows s [] = s
summarize_flows s (f ∷ fs) = summarize_flows (summarize_flow f s) fs

pub summarize_txs : BlockFlowSummary → List TxFlow → BlockFlowSummary
summarize_txs s [] = s
summarize_txs s (t ∷ ts) = summarize_txs (summarize_flows s t.flows) ts

pub summarize_block : ℕ → List TxFlow → BlockFlowSummary
unfolding summarize_txs
summarize_block height txs =
    summarize_txs
      (record {
        height = height;
        minted_block = pos 0;
        minted_research = pos 0;
        minted_mrc = pos 0;
        minted_cpid = none;
        minted_magnitude = none;
        moved = pos 0;
        staked = pos 0;
        sidestaked_total = pos 0;
        recipients = [];
        counts = record { stamps = 0; votes = 0; beacons = 0; polls = 0; projects = 0; other = 0 };
        tx_count = length txs;
      })
      txs

-- The sum of the counts.
pub all_counts : DataCounts → ℕ
all_counts d = d.stamps + d.votes + d.beacons + d.polls + d.projects + d.other

-- The summary holds the totals, less the fees.
pub record Holds (s : BlockFlowSummary) (t : Totals) : Type 0 where
  pub minted : s.minted_block +ℤ s.minted_research +ℤ s.minted_mrc ≡ t.minted
  pub moved : s.moved ≡ t.moved
  pub staked : s.staked ≡ t.staked
  pub sidestaked : s.sidestaked_total ≡ t.sidestaked
  pub counts : all_counts s.counts ≡ t.data_records

count_kind-all :
    (k : ContractKind) (d : DataCounts) → all_counts (count_kind k d) ≡ all_counts d + 1
unfolding count_kind all_counts
count_kind-all k d = ground arith

add_first : (a b c x : ℤ) → a +ℤ x +ℤ b +ℤ c ≡ a +ℤ b +ℤ c +ℤ x
add_first a b c x = omega int_laws

add_second : (a b c x : ℤ) → a +ℤ (b +ℤ x) +ℤ c ≡ a +ℤ b +ℤ c +ℤ x
add_second a b c x = omega int_laws

summarize_flow-Holds :
    (f : Flow) (s : BlockFlowSummary) (t : Totals)
    → Holds s t
    → Holds (summarize_flow f s) (tally_flow f t)
unfolding summarize_flow tally_flow
summarize_flow-Holds f s t h = record {
  minted = ground (
    arith,
    h.minted,
    add_first s.minted_block s.minted_research s.minted_mrc f.amount,
    add_second s.minted_block s.minted_research s.minted_mrc f.amount,
    +ℤ_assoc (s.minted_block +ℤ s.minted_research) s.minted_mrc f.amount,
  );
  moved = ground (arith, h.moved);
  staked = ground (arith, h.staked);
  sidestaked = ground (arith, h.sidestaked);
  counts = ground (arith, h.counts, count_kind-all (kind_of f.detail) s.counts);
}

summarize_flows-Holds :
    (fs : List Flow) (s : BlockFlowSummary) (t : Totals)
    → Holds s t
    → Holds (summarize_flows s fs) (tally_from t fs)
unfolding summarize_flows tally_from
summarize_flows-Holds [] s t h = h
summarize_flows-Holds (f ∷ fs) s t h =
    summarize_flows-Holds fs (summarize_flow f s) (tally_flow f t) (summarize_flow-Holds f s t h)

tally_from-append :
    (fs gs : List Flow) (t : Totals) → tally_from t (fs ++ gs) ≡ tally_from (tally_from t fs) gs
unfolding tally_from
tally_from-append [] gs t = refl
tally_from-append (f ∷ fs) gs t = tally_from-append fs gs (tally_flow f t)

-- The flows of all transactions of a block.
pub all_flows : List TxFlow → List Flow
all_flows [] = []
all_flows (t ∷ ts) = t.flows ++ all_flows ts

summarize_txs-Holds :
    (ts : List TxFlow) (s : BlockFlowSummary) (t : Totals)
    → Holds s t
    → Holds (summarize_txs s ts) (tally_from t (all_flows ts))
unfolding summarize_txs all_flows tally_from
summarize_txs-Holds [] s t h = h
summarize_txs-Holds (x ∷ ts) s t h =
    subst (Holds (summarize_txs (summarize_flows s x.flows) ts))
      (sym (tally_from-append x.flows (all_flows ts) t))
      (summarize_txs-Holds ts (summarize_flows s x.flows) (tally_from t x.flows)
        (summarize_flows-Holds x.flows s t h))

-- The summary of a block and the tally of all its flows agree: the three minted amounts of the
-- summary add up to the minted total, the moved, the staked and the sidestaked amounts are equal,
-- and the counts of the kinds of data records add up to the number of data records.
pub summarize_block-Holds :
    (height : ℕ) (txs : List TxFlow) → Holds (summarize_block height txs) (tally_tx (all_flows txs))
unfolding summarize_block tally_tx
summarize_block-Holds height txs = summarize_txs-Holds txs _ _ (record {
  minted = omega int_laws;
  moved = refl;
  staked = refl;
  sidestaked = refl;
  counts = unfold all_counts in refl;
})
