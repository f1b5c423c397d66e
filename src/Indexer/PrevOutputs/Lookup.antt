-- ===== src/Indexer/PrevOutputs/Lookup.antt =====
-- What the lookup of prevOutputs.ts finds.
use grc_explorer.Common.{
  ◌≡◌, refl, sym, ap, ◌∙◌, Bool, true, false, not, ◌&&◌, Option, none, some, List, [], ◌∷◌,
  str_eq_iff, if◌then◌else◌, keep, keep-true, keep-false, arith, Bool-cases, inl, inr,
}
use grc_explorer.Common.Int.{ℤ}
use grc_explorer.Indexer.PhantomSpends.{Key, key_eq, has_key}
use grc_explorer.Indexer.PrevOutputs.{
  CacheEntry, TxLite, PendingRow, OutputRow, Cache, cache_get, cache_has, set_all, pending_entries,
  stored_entries, is_wanted, block_refs, block_entries, batch_cache,
  build_prev_outputs_lookup_multi,
}

abbrev pub or_else : Option CacheEntry → Option CacheEntry → Option CacheEntry
or_else none later = later
or_else (some e) later = some e

-- The last of the entries for a key.
pub last_entry : List (Key × CacheEntry) → Key → Option CacheEntry
last_entry [] k = none
last_entry ((x, e) ∷ es) k = or_else (last_entry es k) (if key_eq x k then some e else none)

or_else_assoc : (a b c : Option CacheEntry) → or_else (or_else a b) c ≡ or_else a (or_else b c)
or_else_assoc none b c = refl
or_else_assoc (some e) b c = refl

or_else-none : (a : Option CacheEntry) → or_else a none ≡ a
or_else-none none = refl
or_else-none (some e) = refl

cache_get-nil : (k : Key) → cache_get [] k ≡ none
unfolding cache_get
cache_get-nil k = refl

-- A stored entry is used where the cache has none.
stored_unless :
    (o l : Option CacheEntry)
    → or_else (if not (elim o [ none ↦ false | some e ↦ true ]) then l else none) o ≡ or_else o l
stored_unless none l = or_else-none l
stored_unless (some e) l = refl

cache_get-cons :
    (x : Key) (e : CacheEntry) (c : Cache) (k : Key)
    → cache_get ((x, e) ∷ c) k ≡ or_else (if key_eq x k then some e else none) (cache_get c k)
unfolding cache_get
cache_get-cons x e c k = elim (Bool-cases (key_eq x k)) [ inl y ↦ rw y | inr n ↦ rw n ]

cache_get-set_all :
    (es : List (Key × CacheEntry)) (c : Cache) (k : Key)
    → cache_get (set_all es c) k ≡ or_else (last_entry es k) (cache_get c k)
unfolding set_all last_entry
cache_get-set_all [] c k = refl
cache_get-set_all ((x, e) ∷ es) c k =
    cache_get-set_all es ((x, e) ∷ c) k
    ∙ ap (or_else (last_entry es k)) (cache_get-cons x e c k)
    ∙ sym (or_else_assoc (last_entry es k) (if key_eq x k then some e else none) (cache_get c k))

key_eq-eq : (x k : Key) → key_eq x k ≡ true → x ≡ k
key_eq-eq (t, n) (u, m) h =
    let a : t ≡ u = (str_eq_iff t u).0 (ground arith) in
    let b : n ≡ m = ground arith in λ i. (a i, b i)

last_entry-keep :
    (p : Key → Bool) (es : List (Key × CacheEntry)) (k : Key)
    → last_entry (keep (λ e. p e.0) es) k ≡ (if p k then last_entry es k else none)
unfolding last_entry
last_entry-keep p [] k = elim (Bool-cases (p k)) [ inl y ↦ rw y | inr n ↦ rw n ]
last_entry-keep p ((x, e) ∷ es) k =
    let q : Key × CacheEntry → Bool = λ e. p e.0 in
    let ih = last_entry-keep p es k in
    elim (Bool-cases (key_eq x k)) [
      | inl same ↦
          let ex = key_eq-eq x k same in
          elim (Bool-cases (p x)) [
            | inl on ↦
                let onk : p k ≡ true = ap p (sym ex) ∙ on in
                let ih' : last_entry (keep q es) k ≡ last_entry es k = ih ∙ rw onk in
                ap (λ l. last_entry l k) (keep-true q (x, e) es on) ∙ rw (onk, ih', last_entry)
            | inr off ↦
                let offk : p k ≡ false = ap p (sym ex) ∙ off in
                let ih' : last_entry (keep q es) k ≡ none = ih ∙ rw offk in
                ap (λ l. last_entry l k) (keep-false q (x, e) es off) ∙ ih' ∙ rw offk
          ]
      | inr other ↦
          let skip : (l : List (Key × CacheEntry)) → last_entry ((x, e) ∷ l) k ≡ last_entry l k =
            λ l. rw (other, last_entry) (or_else-none (last_entry l k)) in
          let goal : last_entry (keep q es) k ≡ (if p k then last_entry ((x, e) ∷ es) k else none) =
            ih ∙ ap (λ l. if p k then l else none) (sym (skip es)) in
          elim (Bool-cases (p x)) [
            | inl on ↦ ap (λ l. last_entry l k) (keep-true q (x, e) es on) ∙ skip (keep q es) ∙ goal
            | inr off ↦ ap (λ l. last_entry l k) (keep-false q (x, e) es off) ∙ goal
          ]
    ]

module _ (V : Type 0) (halford : V → ℤ) where
  batch_cache-get :
      (blocks : List (List (TxLite V))) (pending : List PendingRow) (k : Key)
      → cache_get (batch_cache V halford blocks pending) k
        ≡ or_else
            (last_entry (block_entries V halford blocks) k)
            (last_entry (pending_entries pending) k)
  unfolding batch_cache
  batch_cache-get blocks pending k =
      cache_get-set_all (block_entries V halford blocks) (set_all (pending_entries pending) []) k
      ∙ ap (or_else (last_entry (block_entries V halford blocks) k)) (
          cache_get-set_all (pending_entries pending) [] k
          ∙ ap (or_else (last_entry (pending_entries pending) k)) (cache_get-nil k)
          ∙ or_else-none (last_entry (pending_entries pending) k))

  -- The lookup of an outpoint that an input of the batch spends finds the last output of the batch
  -- at that outpoint; where there is none, the last pending row; and where there is none either,
  -- the last stored row.
  pub build_prev_outputs_lookup_multi_lem :
      (blocks : List (List (TxLite V))) (pending : List PendingRow) (stored : List OutputRow)
      (k : Key)
      → has_key (block_refs V halford blocks) k ≡ true
      → build_prev_outputs_lookup_multi V halford blocks pending stored k
        ≡ or_else (last_entry (block_entries V halford blocks) k) (
            or_else (last_entry (pending_entries pending) k) (last_entry (stored_entries stored) k))
  unfolding build_prev_outputs_lookup_multi is_wanted cache_has
  build_prev_outputs_lookup_multi_lem blocks pending stored k h =
      let c = batch_cache V halford blocks pending in
      let es = stored_entries stored in
      let refs = block_refs V halford blocks in
      cache_get-set_all (keep (λ e. is_wanted refs c e.0) es) c k
      ∙ ap (λ o. or_else o (cache_get c k)) (last_entry-keep (is_wanted refs c) es k)
      ∙ ap
          (λ b.
            or_else (if b && not (cache_has c k) then last_entry es k else none) (cache_get c k))
          h
      ∙ stored_unless (cache_get c k) (last_entry es k)
      ∙ ap (λ o. or_else o (last_entry es k)) (batch_cache-get blocks pending k)
      ∙ or_else_assoc (last_entry (block_entries V halford blocks) k)
          (last_entry (pending_entries pending) k) (last_entry es k)
