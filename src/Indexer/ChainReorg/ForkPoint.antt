-- ===== src/Indexer/ChainReorg/ForkPoint.antt =====
-- What `findForkPoint` of ChainReorgHandler.ts finds.
use native.Mathlib.Decide.{ℕ_discrete}
use grc_explorer.Common.{
  ℕ, zero, suc, ◌+◌, ◌-◌, ◌≤◌, ◌<◌, ◌≡◌, refl, sym, ap, ◌∙◌, subst, true, false, Option, none, some,
  List, String, ltb, leb, arith, leb→le, Bool-cases, Option-cases, inl, inr, false-ne-true,
}
use grc_explorer.Parsed.{BlockRow}
use grc_explorer.Indexer.ChainReorg.{
  CursorPosition, Error, rpc_failed, ok, err, Daemon, stored_hash, hash_agrees, fork_walk,
  find_fork_point,
}

module _ (daemon : Daemon) (blocks : List BlockRow) where
  -- The daemon answers at the height, with the hash that is stored there, which is not empty.
  pub record Agrees (h : ℕ) (hash : String) : Type 0 where
    pub onchain : daemon h ≡ some hash
    pub stored : hash_agrees (stored_hash blocks h) hash ≡ true

  -- Whatever the daemon answers at the height, it is not what is stored.
  abbrev pub Differs : ℕ → Type 0
  Differs h =
      (hash : String) → daemon h ≡ some hash → hash_agrees (stored_hash blocks h) hash ≡ false

  -- The daemon answers at the height, with a hash that is not what is stored.
  abbrev pub Rejects : ℕ → Type 0
  Rejects h =
      (hash : String) × (daemon h ≡ some hash) × (hash_agrees (stored_hash blocks h) hash ≡ false)

  -- The greatest height at most `from - walk` where both agree, less than `left` heights below.
  pub record IsFork (from left walk : ℕ) (fork : CursorPosition) : Type 0 where
    pub low : fork.height + walk ≤ from
    pub near : from < fork.height + walk + left
    pub agrees : Agrees fork.height fork.hash
    pub above : (k : ℕ) → fork.height < k → k + walk ≤ from → Differs k

  module _ (from : ℕ) (m : ℕ) where
    fork_walk_step :
        (left walk : ℕ) (onchain : String)
        → ltb from walk ≡ false
        → daemon (from - walk) ≡ some onchain
        → hash_agrees (stored_hash blocks (from - walk)) onchain ≡ false
        → (fork_walk m daemon blocks from (suc left) walk
            ≡ fork_walk m daemon blocks from left (walk + 1))
          × Differs (from - walk)
    unfolding fork_walk
    fork_walk_step left walk onchain lt d a = (
      rw (lt, d, a),
      λ hash e.
          let eq : ◌≡◌ {A = Option String} (some hash) (some onchain) = sym e ∙ d in
          let same : hash ≡ onchain = cc in rw same a,
    )

    fork_walk-IsFork :
        (left walk : ℕ) (fork : CursorPosition)
        → fork_walk m daemon blocks from left walk ≡ ok (some fork)
        → IsFork from left walk fork
    unfolding fork_walk
    fork_walk-IsFork zero walk fork h = absurd (ground arith)
    fork_walk-IsFork (suc left) walk fork h = elim (Bool-cases (ltb from walk)) [
      | inl over ↦ absurd (ground arith)
      | inr in_range ↦ elim (Option-cases (daemon (from - walk))) [
        | inl failed ↦ absurd (ground arith)
        | inr (onchain, d) ↦
            elim (Bool-cases (hash_agrees (stored_hash blocks (from - walk)) onchain)) [
              | inl same ↦
                  let le : walk ≤ from = ground arith in
                  let eh : fork.height ≡ from - walk = ground arith in
                  let es : fork.hash ≡ onchain = ground arith in
                  record {
                    low = omega arith;
                    near = omega arith;
                    agrees = record { onchain = rw (eh, es) d; stored = rw (eh, es) same };
                    above = λ k lt le. absurd (omega arith);
                  }
              | inr other ↦
                  let (eq, differs) = fork_walk_step left walk onchain in_range d other in
                  let le : walk ≤ from = ground arith in
                  let found = fork_walk-IsFork left (walk + 1) fork (sym eq ∙ h) in
                  record {
                    low = omega arith;
                    near = omega arith;
                    agrees = found.agrees;
                    above = λ k lt le. elim (ℕ_discrete k (from - walk)) [
                      | yes e ↦ subst Differs (sym e) differs
                      | no ne ↦ found.above k lt (omega arith)
                    ];
                  }
            ]
      ]
    ]

    fork_walk-Rejects :
        (left walk : ℕ)
        → fork_walk m daemon blocks from left walk ≡ ok none
        → (k : ℕ) → k + walk ≤ from
        → from < k + walk + left
        → Rejects k
    unfolding fork_walk
    fork_walk-Rejects zero walk h k low near = absurd (omega arith)
    fork_walk-Rejects (suc left) walk h k low near = elim (Bool-cases (ltb from walk)) [
      | inl over ↦ absurd (ground arith)
      | inr in_range ↦ elim (Option-cases (daemon (from - walk))) [
        | inl failed ↦ absurd (ground arith)
        | inr (onchain, d) ↦
            elim (Bool-cases (hash_agrees (stored_hash blocks (from - walk)) onchain)) [
              | inl same ↦ absurd (ground arith)
              | inr other ↦
                  let (eq, _) = fork_walk_step left walk onchain in_range d other in
                  elim (ℕ_discrete k (from - walk)) [
                    | yes e ↦ subst Rejects (sym e) (onchain, d, other)
                    | no ne ↦
                        fork_walk-Rejects left (walk + 1) (sym eq ∙ h) k (omega arith) (omega arith)
                  ]
            ]
      ]
    ]

    -- Within the depth, the daemon does not answer at some height.
    abbrev IsUnanswered : ℕ → ℕ → Type 0
    IsUnanswered left walk =
        (k : ℕ) × (k + walk ≤ from) × (from < k + walk + left) × (daemon k ≡ none)

    fork_walk-err :
        (left walk : ℕ) (e : Error)
        → fork_walk m daemon blocks from left walk ≡ err e
        → (e ≡ rpc_failed) × IsUnanswered left walk
    unfolding fork_walk
    fork_walk-err zero walk e h = absurd cc
    fork_walk-err (suc left) walk e h = elim (Bool-cases (ltb from walk)) [
      | inl over ↦ absurd (ground arith)
      | inr in_range ↦ elim (Option-cases (daemon (from - walk))) [
        | inl failed ↦ (ground arith, (from - walk, ground arith, ground arith, failed))
        | inr (onchain, d) ↦
            elim (Bool-cases (hash_agrees (stored_hash blocks (from - walk)) onchain)) [
              | inl same ↦ absurd (ground arith)
              | inr other ↦
                  let (eq, _) = fork_walk_step left walk onchain in_range d other in
                  let (same, (k, low, near, failed)) =
                    fork_walk-err left (walk + 1) e (sym eq ∙ h) in
                  (same, (k, omega arith, omega arith, failed))
            ]
      ]
    ]

  module _ (m from : ℕ) where
    module _ (fork : CursorPosition)
        (h : find_fork_point m daemon blocks from ≡ ok (some fork)) where
      found : IsFork from (m + 1) 0 fork
      unfolding find_fork_point
      found = fork_walk-IsFork from m (m + 1) 0 fork h

      -- A position that the search returns is at most the maximal depth below the height where it
      -- began, and there the daemon has the hash that is stored, which is not empty.
      pub find_fork_point-Agrees :
          (fork.height ≤ from) × (from ≤ fork.height + m) × Agrees fork.height fork.hash
      find_fork_point-Agrees =
          let low = found.low in let near = found.near in (omega arith, omega arith, found.agrees)

      -- Above the position that the search returns, and up to the height where it began, no hash of
      -- the daemon is the stored one.
      pub find_fork_point-highest :
          (k : ℕ) (hash : String)
          → fork.height < k
          → k ≤ from
          → daemon k ≡ some hash
          → hash_agrees (stored_hash blocks k) hash ≡ false
      find_fork_point-highest k hash lt le = found.above k lt (omega arith) hash

    -- Where the search returns `null`, the daemon answers at every height within the maximal depth,
    -- and not with the stored hash.
    pub find_fork_point-Rejects :
        find_fork_point m daemon blocks from ≡ ok none
        → (k : ℕ) → k ≤ from
        → from ≤ k + m
        → Rejects k
    unfolding find_fork_point
    find_fork_point-Rejects h k low near =
        fork_walk-Rejects from m (m + 1) 0 h k (omega arith) (omega arith)

    pub find_fork_point-none :
        find_fork_point m daemon blocks from ≡ ok none
        → (k : ℕ) (hash : String) → k ≤ from
        → from ≤ k + m
        → daemon k ≡ some hash
        → hash_agrees (stored_hash blocks k) hash ≡ false
    find_fork_point-none h k hash low near d =
        let (onchain, answer, other) = find_fork_point-Rejects h k low near in
        let eq : ◌≡◌ {A = Option String} (some onchain) (some hash) = sym answer ∙ d in
        let same : onchain ≡ hash = cc in
        subst (λ x. hash_agrees (stored_hash blocks k) x ≡ false) same other

    -- Where the search throws, the daemon does not answer at a height within the maximal depth.
    pub find_fork_point-err :
        (e : Error)
        → find_fork_point m daemon blocks from ≡ err e
        → (e ≡ rpc_failed) × ((k : ℕ) × (k ≤ from) × (from ≤ k + m) × (daemon k ≡ none))
    unfolding find_fork_point
    find_fork_point-err e h =
        let (same, (k, low, near, failed)) = fork_walk-err from m (m + 1) 0 e h in
        (same, (k, omega arith, omega arith, failed))

  fork_walk-ok :
      (m from : ℕ)
      → ((h : ℕ) → (hash : String) × (daemon h ≡ some hash))
      → (left walk : ℕ)
      → (r : Option CursorPosition) × (fork_walk m daemon blocks from left walk ≡ ok r)
  unfolding fork_walk
  fork_walk-ok m from answers zero walk = (none, refl)
  fork_walk-ok m from answers (suc left) walk = elim (Bool-cases (ltb from walk)) [
    | inl over ↦ (none, rw (over, fork_walk))
    | inr in_range ↦
        let (onchain, d) = answers (from - walk) in
        elim (Bool-cases (hash_agrees (stored_hash blocks (from - walk)) onchain)) [
          | inl same ↦ (
            some (record { height = from - walk; hash = onchain }),
            rw (in_range, d, same, fork_walk),
          )
          | inr other ↦
              let (r, e) = fork_walk-ok m from answers left (walk + 1) in
              (r, (fork_walk_step from m left walk onchain in_range d other).0 ∙ e)
        ]
  ]

  -- Where the daemon answers at every height and has the stored hash, not empty, at a height within
  -- the maximal depth, the search returns a position, and it is not below that height.
  pub find_fork_point-found :
      (m from : ℕ)
      → ((h : ℕ) → (hash : String) × (daemon h ≡ some hash))
      → (k : ℕ) (hash : String) → k ≤ from
      → from ≤ k + m
      → Agrees k hash
      → (fork : CursorPosition) × (find_fork_point m daemon blocks from ≡ ok (some fork))
        × (k ≤ fork.height)
  unfolding find_fork_point
  find_fork_point-found m from answers k hash low near agrees =
      let (r, found) = fork_walk-ok m from answers (m + 1) 0 in
      elim (Option-cases r) [
        | inl nil ↦
            let e = found ∙ ap ok nil in
            absurd (
              false-ne-true (
                sym (find_fork_point-none m from e k hash low near agrees.onchain) ∙ agrees.stored))
        | inr (fork, at) ↦
            let e = found ∙ ap ok at in
            elim (Bool-cases (leb k fork.height)) [
              | inl le ↦ (fork, e, leb→le k fork.height le)
              | inr nle ↦
                  let lt : fork.height < k = ground arith in
                  absurd (
                    false-ne-true (
                      sym (find_fork_point-highest m from fork e k hash lt low agrees.onchain)
                      ∙ agrees.stored))
            ]
      ]
