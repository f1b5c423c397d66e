-- ===== src/Script/Encoding.antt =====
-- What `tokenize` of htlc.ts computes, against the format of scripts as a relation.
use grc_explorer.Common.{
  ℕ, zero, suc, ◌+◌, ◌*◌, ◌≤◌, ◌<◌, ◌≡◌, refl, ◌≢◌, ◌↔◌, ◌⊎◌, inl, inr, Option, some, List, [], ◌∷◌,
  ◌++◌, arith, length, take, drop, Option-cases, take-append, drop-append, take-append-drop, subst,
  sym, ap, ◌∙◌, length-append, length-take, true, false, ◌&&◌, leb, ltb, ◌==◌, Bool-cases,
  none-ne-some,
}
use grc_explorer.Script.{
  Token, op, bytes, push, push_data1, push_data2, push_data4, next_token, tokenize_from, tokenize,
}

-- The bytes before a push of a given length: the four ways to write it.
pub data PushPrefix : List ℕ → ℕ → Type 0 where
  direct : {n : ℕ} → 1 ≤ n → n ≤ 0x4b → PushPrefix (n ∷ []) n
  data1 : {n : ℕ} → PushPrefix (0x4c ∷ n ∷ []) n
  data2 : {a b n : ℕ} → n ≡ a + 256 * b → PushPrefix (0x4d ∷ a ∷ b ∷ []) n
  data4 :
      {a b c d n : ℕ}
      → n ≡ a + 256 * b + 65536 * c + 16777216 * d
      → PushPrefix (0x4e ∷ a ∷ b ∷ c ∷ d ∷ []) n

-- An opcode that begins no push.
abbrev pub IsPlain : ℕ → Type 0
IsPlain o = ((o ≡ 0) ⊎ (0x4b < o)) × (o ≢ 0x4c) × (o ≢ 0x4d) × (o ≢ 0x4e)

-- The bytes spell the tokens.
pub data Encodes : List ℕ → List Token → Type 0 where
  done : Encodes [] []
  plain :
      {o : ℕ} {rest : List ℕ} {ts : List Token}
      → IsPlain o
      → Encodes rest ts
      → Encodes (o ∷ rest) (op o ∷ ts)
  pushed :
      {prefix buf d rest : List ℕ} {ts : List Token}
      → PushPrefix prefix (length d)
      → buf ≡ prefix ++ (d ++ rest)
      → Encodes rest ts
      → Encodes buf (bytes d ∷ ts)

push_inv :
    (n : ℕ) (rest : List ℕ) (t : Token) (later : List ℕ)
    → push n rest ≡ some (t, later)
    → (n ≤ length rest) × (t ≡ bytes (take n rest)) × (later ≡ drop n rest)
push_inv n rest t later h = ground arith

-- The bytes begin with the spelling of a token, and the others follow.
pub data Starts : List ℕ → Token → List ℕ → Type 0 where
  plain_at : {o : ℕ} {rest : List ℕ} → IsPlain o → Starts (o ∷ rest) (op o) rest
  pushed_at :
      {prefix buf d rest : List ℕ}
      → PushPrefix prefix (length d)
      → buf ≡ prefix ++ (d ++ rest)
      → Starts buf (bytes d) rest

Starts-Encodes :
    {buf : List ℕ} {t : Token} {rest : List ℕ} {ts : List Token}
    → Starts buf t rest
    → Encodes rest ts
    → Encodes buf (t ∷ ts)
Starts-Encodes (plain_at p) e = plain p e
Starts-Encodes (pushed_at q eb) e = pushed q eb e

push-Starts :
    {p : List ℕ} {n : ℕ}
    → PushPrefix p n
    → (rest : List ℕ) (t : Token) (later : List ℕ) → push n rest ≡ some (t, later)
    → Starts (p ++ rest) t later
push-Starts {p} {n} q rest t later h =
    let (le, et, el) = push_inv n rest t later h in
    let en : length (take n rest) ≡ n = omega (arith, length-take n rest) in
    rw et (
      pushed_at (subst (PushPrefix p) (sym en) q) (
        ap (λ r. p ++ r) (sym (take-append-drop n rest))
        ∙ ap (λ r. p ++ (take n rest ++ r)) (sym el)))

module _ (t : Token) (later : List ℕ) where
  push_data1-Starts :
      (rest : List ℕ) → push_data1 rest ≡ some (t, later) → Starts (0x4c ∷ rest) t later
  push_data1-Starts [] h = cc
  push_data1-Starts (n ∷ rest) h = push-Starts (data1 {n = n}) rest t later h

  push_data2-Starts :
      (rest : List ℕ) → push_data2 rest ≡ some (t, later) → Starts (0x4d ∷ rest) t later
  push_data2-Starts [] h = cc
  push_data2-Starts (a ∷ []) h = cc
  push_data2-Starts (a ∷ b ∷ rest) h = push-Starts (data2 {a = a} {b = b} refl) rest t later h

  push_data4-Starts :
      (rest : List ℕ) → push_data4 rest ≡ some (t, later) → Starts (0x4e ∷ rest) t later
  push_data4-Starts [] h = cc
  push_data4-Starts (a ∷ []) h = cc
  push_data4-Starts (a ∷ b ∷ []) h = cc
  push_data4-Starts (a ∷ b ∷ c ∷ []) h = cc
  push_data4-Starts (a ∷ b ∷ c ∷ d ∷ rest) h =
      push-Starts (data4 {a = a} {b = b} {c = c} {d = d} refl) rest t later h

pub next_token-Starts :
    (o : ℕ) (rest : List ℕ) (t : Token) (later : List ℕ)
    → next_token o rest ≡ some (t, later)
    → Starts (o ∷ rest) t later
unfolding next_token
next_token-Starts o rest t later h = elim (Bool-cases (leb 1 o && leb o 0x4b)) [
  | inl direct_push ↦
      push-Starts (direct {n = o} (ground arith) (ground arith)) rest t later (rw direct_push at h)
  | inr not_direct ↦ elim (Bool-cases (o == 0x4c)) [
    | inl is_1 ↦
        let eo : o ≡ 0x4c = ground arith in
        rw eo (push_data1-Starts t later rest (rw (not_direct, is_1) at h))
    | inr not_1 ↦ elim (Bool-cases (o == 0x4d)) [
      | inl is_2 ↦
          let eo : o ≡ 0x4d = ground arith in
          rw eo (push_data2-Starts t later rest (rw (not_direct, not_1, is_2) at h))
      | inr not_2 ↦ elim (Bool-cases (o == 0x4e)) [
        | inl is_4 ↦
            let eo : o ≡ 0x4e = ground arith in
            rw eo (push_data4-Starts t later rest (rw (not_direct, not_1, not_2, is_4) at h))
        | inr not_4 ↦
            let eq : ◌≡◌ {A = Option (Token × List ℕ)} (some (op o, rest)) (some (t, later)) =
              rw (not_direct, not_1, not_2, not_4) at h in
            let et : t ≡ op o = cc in
            let el : later ≡ rest = cc in rw (et, el) (plain_at {o = o} (ground arith))
      ]
    ]
  ]
]

next_token-Encodes :
    (o : ℕ) (rest : List ℕ) (t : Token) (later : List ℕ) (ts : List Token)
    → next_token o rest ≡ some (t, later)
    → Encodes later ts
    → Encodes (o ∷ rest) (t ∷ ts)
next_token-Encodes o rest t later ts h e = Starts-Encodes (next_token-Starts o rest t later h) e

push-append : (d rest : List ℕ) → push (length d) (d ++ rest) ≡ some (bytes d, rest)
push-append d rest =
    let e : length d ≤ length (d ++ rest) = omega (arith, length-append d rest) in
    let b : ltb (length (d ++ rest)) (length d) ≡ false = ground arith in
    rw (b, take-append d rest, drop-append d rest)

next_token_plain : (o : ℕ) (rest : List ℕ) → IsPlain o → next_token o rest ≡ some (op o, rest)
unfolding next_token
next_token_plain o rest h = ground arith

tokenize_from-Encodes :
    (fuel : ℕ) (buf : List ℕ) (ts : List Token) → tokenize_from fuel buf ≡ some ts → Encodes buf ts
unfolding tokenize_from
tokenize_from-Encodes fuel [] ts h = let e : ts ≡ [] = cc in rw e done
tokenize_from-Encodes zero (o ∷ rest) ts h = cc
tokenize_from-Encodes (suc fuel) (o ∷ rest) ts h = elim (Option-cases (next_token o rest)) [
  | inl stop ↦ absurd (none-ne-some (rw (stop, tokenize_from) at h))
  | inr ((t, later), step) ↦ elim (Option-cases (tokenize_from fuel later)) [
    | inl stop ↦ absurd (none-ne-some (rw (step, stop, tokenize_from) at h))
    | inr (us, more) ↦
        let eq : ◌≡◌ {A = Option (List Token)} (some (t ∷ us)) (some ts) =
          rw (step, more, tokenize_from) at h in
        let e : ts ≡ t ∷ us = cc in
        rw e (next_token-Encodes o rest t later us step (tokenize_from-Encodes fuel later us more))
  ]
]

-- A prefix is one byte and what `next_token` reads after it.
next_token_pushed :
    {p : List ℕ} {n : ℕ}
    → PushPrefix p n
    → (d rest : List ℕ) → n ≡ length d
    → (o : ℕ) × (r : List ℕ) × (p ++ (d ++ rest) ≡ o ∷ r)
      × (next_token o r ≡ some (bytes d, rest))
      × (length rest ≤ length r)
unfolding next_token
next_token_pushed (direct {n} lo hi) d rest e =
    let b : (leb 1 n && leb n 75) ≡ true = ground arith in
    (n, d ++ rest, refl, rw (b, e, push-append d rest), omega (arith, length-append d rest))
next_token_pushed (data1 {n}) d rest e =
    (0x4c, n ∷ (d ++ rest), refl, rw (e, push-append d rest), omega (arith, length-append d rest))
next_token_pushed (data2 {a} {b} q) d rest e = (
  0x4d,
  a ∷ b ∷ (d ++ rest),
  refl,
  rw (← q, e, push-append d rest),
  omega (arith, length-append d rest),
)
next_token_pushed (data4 {a} {b} {c} {d = x} q) d rest e = (
  0x4e,
  a ∷ b ∷ c ∷ x ∷ (d ++ rest),
  refl,
  rw (← q, e, push-append d rest),
  omega (arith, length-append d rest),
)

tokenize_from_complete :
    {buf : List ℕ} {ts : List Token}
    → Encodes buf ts
    → (fuel : ℕ) → length buf ≤ fuel
    → tokenize_from fuel buf ≡ some ts
unfolding tokenize_from
tokenize_from_complete done fuel h = refl
tokenize_from_complete (plain p e) zero h = absurd (omega arith)
tokenize_from_complete (plain {o} {rest} p e) (suc fuel) h =
    rw (next_token_plain o rest p, tokenize_from_complete e fuel (omega arith), tokenize_from)
tokenize_from_complete (pushed {d} {rest} q eb e) zero h =
    let (o, r, es, step, le) = next_token_pushed q d rest refl in
    absurd (omega (arith, ap length (eb ∙ es)))
tokenize_from_complete (pushed {d} {rest} q eb e) (suc fuel) h =
    let (o, r, es, step, le) = next_token_pushed q d rest refl in
    let ih = tokenize_from_complete e fuel (omega (arith, ap length (eb ∙ es))) in
    rw (eb ∙ es) (rw (step, ih, tokenize_from))

-- `tokenize` returns a list of tokens exactly when the bytes spell that list: opcodes stand for
-- themselves, and a push is written directly or behind PUSHDATA1, 2 or 4 with its full length. So
-- it returns `null` exactly when they spell no list.
pub tokenize_iff : (buf : List ℕ) (ts : List Token) → (tokenize buf ≡ some ts) ↔ Encodes buf ts
unfolding tokenize
tokenize_iff buf ts = (
  tokenize_from-Encodes (length buf) buf ts,
  λ e. tokenize_from_complete e (length buf) (omega arith),
)
