-- ===== src/Script/Disassembly.antt =====
-- packages/grc-explorer/src/lib/scriptAsm.ts: the disassembler, and its agreement with the tokenizer
-- of lib/htlc.ts. A text is the list of its character codes.
mod Tests
use grc_explorer.Common.{
  ℕ, zero, suc, ◌+◌, ◌*◌, ◌≤◌, ◌≡◌, refl, ap, ◌⊎◌, inl, inr, Option, none, some, List, [], ◌∷◌,
  ◌++◌, map, arith, length, take, drop, Bool, true, false, ◌&&◌, ◌==◌, leb, ltb, if◌then◌else◌,
  Option-cases, Bool-cases, none-ne-some, sym, ◌∙◌, String, length-drop,
}
use grc_explorer.Common.Hex.{codes, from_hex, from_hex_nil, to_hex}
use grc_explorer.Script.{
  Token, op, bytes, push, push_data1, push_data2, push_data4, next_token, tokenize_from, tokenize,
}
use grc_explorer.Script.OpNames.{op_names}
use grc_explorer.Script.Encoding.{next_token-Starts}
use grc_explorer.Script.Cut.{CutAfter, CutAfter-here, Starts-CutAfter, next_token-BeginsPush}

abbrev pub Text : Type 0
Text = List ℕ

-- `OP_NAMES[op]`
pub name_in : List (ℕ × String) → ℕ → Option String
name_in [] o = none
name_in ((k, name) ∷ names) o = if k == o then some name else name_in names o

-- `OP_NAMES[op] ?? ...`; two hexadecimal digits write a byte.
pub op_text : ℕ → Text
op_text o = elim (name_in op_names o) [
  | none ↦ codes "OP_UNKNOWN(0x" ++ to_hex (o ∷ []) ++ codes ")"
  | some name ↦ codes name
]

abbrev pub error_mark : Text
error_mark = codes "[error]"

-- A push of `n` bytes, or the mark where they are not there; `later` is the rest of the loop.
abbrev pub push_text : ℕ → List ℕ → (List ℕ → List Text) → List Text
push_text n rest later =
    if ltb (length rest) n then error_mark ∷ [] else to_hex (take n rest) ∷ later (drop n rest)

abbrev pub push_text1 : List ℕ → (List ℕ → List Text) → List Text
push_text1 [] later = error_mark ∷ []
push_text1 (n ∷ rest) later = push_text n rest later

abbrev pub push_text2 : List ℕ → (List ℕ → List Text) → List Text
push_text2 (a ∷ b ∷ rest) later = push_text (a + 256 * b) rest later
push_text2 _ later = error_mark ∷ []

abbrev pub push_text4 : List ℕ → (List ℕ → List Text) → List Text
push_text4 (a ∷ b ∷ c ∷ d ∷ rest) later =
    push_text (a + 256 * b + 65536 * c + 16777216 * d) rest later
push_text4 _ later = error_mark ∷ []

-- The body of the loop.
pub texts_step : ℕ → List ℕ → (List ℕ → List Text) → List Text
texts_step o rest later =
    if leb 0x01 o && leb o 0x4b
    then push_text o rest later
    else if o == 0x4c
    then push_text1 rest later
    else if o == 0x4d
    then push_text2 rest later
    else if o == 0x4e
    then push_text4 rest later
    else op_text o ∷ later rest

-- The loop, with fuel.
pub texts_from : ℕ → List ℕ → List Text
texts_from fuel [] = []
texts_from zero (o ∷ rest) = []
texts_from (suc fuel) (o ∷ rest) = texts_step o rest (λ r. texts_from fuel r)

-- `out.join(' ')`
pub join : List Text → Text
join [] = []
join (t ∷ []) = t
join (t ∷ u ∷ ts) = t ++ b' ' ∷ join (u ∷ ts)

pub disassemble_script : Text → Text
disassemble_script hex =
    let buf = from_hex hex in if length hex == 0 then [] else join (texts_from (length buf) buf)

-- How a token is written.
pub token_text : Token → Text
token_text (op o) = op_text o
token_text (bytes d) = to_hex d

-- A step of the disassembler follows a step of the tokenizer.
texts_step-some :
    (o : ℕ) (rest : List ℕ) (later : List ℕ → List Text) (t : Token) (r : List ℕ)
    → next_token o rest ≡ some (t, r)
    → texts_step o rest later ≡ token_text t ∷ later r
unfolding next_token texts_step token_text
texts_step-some o rest later t r h = ground arith

texts_step-none :
    (o : ℕ) (rest : List ℕ) (later : List ℕ → List Text)
    → next_token o rest ≡ none
    → texts_step o rest later ≡ error_mark ∷ []
unfolding next_token texts_step
texts_step-none o rest later h = ground arith

texts_from-some :
    (fuel : ℕ) (buf : List ℕ) (ts : List Token)
    → tokenize_from fuel buf ≡ some ts
    → texts_from fuel buf ≡ map token_text ts
unfolding texts_from tokenize_from
texts_from-some fuel [] ts h = let e : ts ≡ [] = cc in rw e
texts_from-some zero (o ∷ rest) ts h = absurd (none-ne-some h)
texts_from-some (suc fuel) (o ∷ rest) ts h = elim (Option-cases (next_token o rest)) [
  | inl stop ↦ absurd (none-ne-some (rw (stop, tokenize_from) at h))
  | inr ((t, r), step) ↦ elim (Option-cases (tokenize_from fuel r)) [
    | inl stop ↦ absurd (none-ne-some (rw (step, stop, tokenize_from) at h))
    | inr (us, more) ↦
        let eq : ◌≡◌ {A = Option (List Token)} (some (t ∷ us)) (some ts) =
          rw (step, more, tokenize_from) at h in
        let e : ts ≡ t ∷ us = cc in
        let here = texts_step-some o rest (λ x. texts_from fuel x) t r step in
        rw e (here ∙ ap (λ l. token_text t ∷ l) (texts_from-some fuel r us more))
  ]
]

push-length :
    (n : ℕ) (rest : List ℕ) (t : Token) (r : List ℕ)
    → push n rest ≡ some (t, r)
    → length r ≤ length rest
push-length n rest t r h = ground (arith, length-drop n rest)

push_data1-length :
    (rest : List ℕ) (t : Token) (r : List ℕ)
    → push_data1 rest ≡ some (t, r)
    → length r ≤ length rest
push_data1-length [] t r h = absurd (none-ne-some h)
push_data1-length (n ∷ rest) t r h = omega (arith, push-length n rest t r h)

push_data2-length :
    (rest : List ℕ) (t : Token) (r : List ℕ)
    → push_data2 rest ≡ some (t, r)
    → length r ≤ length rest
push_data2-length [] t r h = absurd (none-ne-some h)
push_data2-length (a ∷ []) t r h = absurd (none-ne-some h)
push_data2-length (a ∷ b ∷ rest) t r h = omega (arith, push-length _ rest t r h)

push_data4-length :
    (rest : List ℕ) (t : Token) (r : List ℕ)
    → push_data4 rest ≡ some (t, r)
    → length r ≤ length rest
push_data4-length [] t r h = absurd (none-ne-some h)
push_data4-length (a ∷ []) t r h = absurd (none-ne-some h)
push_data4-length (a ∷ b ∷ []) t r h = absurd (none-ne-some h)
push_data4-length (a ∷ b ∷ c ∷ []) t r h = absurd (none-ne-some h)
push_data4-length (a ∷ b ∷ c ∷ d ∷ rest) t r h = omega (arith, push-length _ rest t r h)

next_token-length :
    (o : ℕ) (rest : List ℕ) (t : Token) (r : List ℕ)
    → next_token o rest ≡ some (t, r)
    → length r ≤ length rest
unfolding next_token
next_token-length o rest t r h = elim (Bool-cases (leb 1 o && leb o 0x4b)) [
  | inl y ↦ push-length o rest t r (rw y at h)
  | inr n ↦ elim (Bool-cases (o == 0x4c)) [
    | inl y ↦ push_data1-length rest t r (rw (n, y) at h)
    | inr n1 ↦ elim (Bool-cases (o == 0x4d)) [
      | inl y ↦ push_data2-length rest t r (rw (n, n1, y) at h)
      | inr n2 ↦ elim (Bool-cases (o == 0x4e)) [
        | inl y ↦ push_data4-length rest t r (rw (n, n1, n2, y) at h)
        | inr n4 ↦ ground arith
      ]
    ]
  ]
]

texts_from-none :
    (fuel : ℕ) (buf : List ℕ)
    → length buf ≤ fuel
    → tokenize_from fuel buf ≡ none
    → (ts : List Token) × CutAfter buf ts
      × (texts_from fuel buf ≡ map token_text ts ++ error_mark ∷ [])
unfolding texts_from tokenize_from
texts_from-none fuel [] le h = absurd (none-ne-some (sym h))
texts_from-none zero (o ∷ rest) le h = absurd (omega arith)
texts_from-none (suc fuel) (o ∷ rest) le h = elim (Option-cases (next_token o rest)) [
  | inl stop ↦ (
    [],
    CutAfter-here (o ∷ rest) (next_token-BeginsPush o rest stop),
    texts_step-none o rest (λ x. texts_from fuel x) stop,
  )
  | inr ((t, r), step) ↦ elim (Option-cases (tokenize_from fuel r)) [
    | inl stop ↦
        let (ts, cut, e) =
          texts_from-none fuel r (omega (arith, next_token-length o rest t r step)) stop in
        let here = texts_step-some o rest (λ x. texts_from fuel x) t r step in
        (
          t ∷ ts,
          Starts-CutAfter (next_token-Starts o rest t r step) cut,
          here ∙ ap (λ l. token_text t ∷ l) e,
        )
    | inr (us, more) ↦ absurd (none-ne-some (sym (rw (step, more, tokenize_from) at h)))
  ]
]

-- The disassembly of a script that the tokenizer reads is the tokens' texts, joined by spaces.
pub disassemble_script-tokenize :
    (hex : Text) (ts : List Token)
    → tokenize (from_hex hex) ≡ some ts
    → disassemble_script hex ≡ join (map token_text ts)
unfolding disassemble_script tokenize texts_from tokenize_from join
disassemble_script-tokenize [] ts h =
    let nil : ◌≡◌ {A = Option (List Token)} (some []) (some ts) = rw from_hex_nil at h in
    let e : ts ≡ [] = cc in rw e
disassemble_script-tokenize (c ∷ cs) ts h =
    let buf = from_hex (c ∷ cs) in
    let b : (length (c ∷ cs) == 0) ≡ false = ground arith in
    rw b (ap join (texts_from-some (length buf) buf ts h))

-- A script that the tokenizer refuses spells some tokens and then begins a push without its last
-- bytes, and its disassembly is the texts of those tokens and then the mark `[error]`, joined by
-- spaces.
pub disassemble_script-CutAfter :
    (hex : Text)
    → tokenize (from_hex hex) ≡ none
    → (ts : List Token) × CutAfter (from_hex hex) ts
      × (disassemble_script hex ≡ join (map token_text ts ++ error_mark ∷ []))
unfolding disassemble_script tokenize texts_from tokenize_from join
disassemble_script-CutAfter [] h = absurd (none-ne-some (sym (rw from_hex_nil at h)))
disassemble_script-CutAfter (c ∷ cs) h =
    let buf = from_hex (c ∷ cs) in
    let b : (length (c ∷ cs) == 0) ≡ false = ground arith in
    let (ts, cut, e) = texts_from-none (length buf) buf (omega arith) h in
    (ts, cut, rw b (ap join e))
