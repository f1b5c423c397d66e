-- ===== src/Script/Cut.antt =====
-- Scripts that end within a push, which `tokenize` of lib/htlc.ts refuses.
use grc_explorer.Common.{
  ℕ, zero, suc, ◌+◌, ◌-◌, ◌*◌, ◌≡◌, refl, sym, ap, ◌∙◌, subst, ◌≢◌, none, List, [], ◌∷◌, ◌++◌,
  append-nil, append_assoc, arith, length, length-append, replicate, Bool-cases, inl, inr, ltb, leb,
  ◌&&◌, ◌==◌, true,
}
use grc_explorer.Script.{Token, bytes, push, push_data1, push_data2, push_data4, next_token}
use grc_explorer.Script.Encoding.{
  PushPrefix, direct, data1, data2, data4, Encodes, done, plain, pushed, Starts, plain_at,
  pushed_at,
}

-- The bytes are a push without its last bytes; at least one is there and at least one is missing.
pub record BeginsPush (tail : List ℕ) : Type 0 where
  pub more : List ℕ
  pub data_bytes : List ℕ
  pub not_empty : tail ≢ []
  pub missing : more ≢ []
  pub whole : Encodes (tail ++ more) (bytes data_bytes ∷ [])

-- The bytes spell the tokens up to a push that is cut off.
pub record CutAfter (buf : List ℕ) (ts : List Token) : Type 0 where
  pub front : List ℕ
  pub tail : List ℕ
  pub split : buf ≡ front ++ tail
  pub spelled : Encodes front ts
  pub begins : BeginsPush tail

pub CutAfter-here : (buf : List ℕ) → BeginsPush buf → CutAfter buf []
CutAfter-here buf h = record { front = []; tail = buf; split = refl; spelled = done; begins = h }

pub Starts-CutAfter :
    {buf : List ℕ} {t : Token} {rest : List ℕ} {ts : List Token}
    → Starts buf t rest
    → CutAfter rest ts
    → CutAfter buf (t ∷ ts)
Starts-CutAfter (plain_at {o} p) c = record {
  front = o ∷ c.front;
  tail = c.tail;
  split = ap (λ l. o ∷ l) c.split;
  spelled = plain p c.spelled;
  begins = c.begins;
}
Starts-CutAfter (pushed_at {prefix} {d} q eb) c = record {
  front = prefix ++ (d ++ c.front);
  tail = c.tail;
  split =
      eb
      ∙ ap (λ r. prefix ++ (d ++ r)) c.split
      ∙ ap (λ r. prefix ++ r) (sym (append_assoc d c.front c.tail))
      ∙ sym (append_assoc prefix (d ++ c.front) c.tail);
  spelled = pushed q refl c.spelled;
  begins = c.begins;
}

length-replicate : (n x : ℕ) → length (replicate n x) ≡ n
length-replicate zero x = refl
length-replicate (suc n) x = omega (arith, length-replicate n x)

-- Too few bytes for the length that stands before them.
push-BeginsPush :
    {p : List ℕ} {n : ℕ}
    → PushPrefix p n
    → (rest : List ℕ) → p ++ rest ≢ []
    → push n rest ≡ none
    → BeginsPush (p ++ rest)
push-BeginsPush {p} {n} q rest ne h =
    let short : ltb (length rest) n ≡ true = ground arith in
    let more : List ℕ = replicate (n - length rest) 0 in
    let size = length-replicate (n - length rest) 0 in
    let long : length (rest ++ more) ≡ n = ground (arith, length-append rest more, size) in
    record {
      more = more;
      data_bytes = rest ++ more;
      not_empty = ne;
      missing = λ e. absurd (ground (arith, size, ap length e));
      whole =
          pushed (subst (PushPrefix p) (sym long) q)
            (append_assoc p rest more ∙ ap (λ l. p ++ l) (sym (append-nil (rest ++ more)))) done;
    }

-- A length of two or four bytes that is not there is completed by zeros, and by what it asks for.
cut_length : (p more : List ℕ) (n : ℕ) → p ≢ [] → PushPrefix (p ++ 0 ∷ more) n → BeginsPush p
cut_length p more n ne q =
    let data_bytes : List ℕ = replicate n 0 in
    record {
      more = 0 ∷ more ++ data_bytes;
      data_bytes = data_bytes;
      not_empty = ne;
      missing = λ e. cc;
      whole =
          pushed (subst (PushPrefix (p ++ 0 ∷ more)) (sym (length-replicate n 0)) q)
            (sym (append_assoc p (0 ∷ more) data_bytes)
              ∙ ap (λ l. (p ++ 0 ∷ more) ++ l) (sym (append-nil data_bytes)))
            done;
    }

push_data1-BeginsPush : (rest : List ℕ) → push_data1 rest ≡ none → BeginsPush (0x4c ∷ rest)
push_data1-BeginsPush [] h = cut_length (0x4c ∷ []) [] 0 (λ e. cc) data1
push_data1-BeginsPush (n ∷ rest) h = push-BeginsPush (data1 {n = n}) rest (λ e. cc) h

push_data2-BeginsPush : (rest : List ℕ) → push_data2 rest ≡ none → BeginsPush (0x4d ∷ rest)
push_data2-BeginsPush [] h = cut_length (0x4d ∷ []) (0 ∷ []) 0 (λ e. cc) (data2 refl)
push_data2-BeginsPush (a ∷ []) h = cut_length (0x4d ∷ a ∷ []) [] a (λ e. cc) (data2 (omega arith))
push_data2-BeginsPush (a ∷ b ∷ rest) h =
    push-BeginsPush (data2 {a = a} {b = b} refl) rest (λ e. cc) h

push_data4-BeginsPush : (rest : List ℕ) → push_data4 rest ≡ none → BeginsPush (0x4e ∷ rest)
push_data4-BeginsPush [] h = cut_length (0x4e ∷ []) (0 ∷ 0 ∷ 0 ∷ []) 0 (λ e. cc) (data4 refl)
push_data4-BeginsPush (a ∷ []) h =
    cut_length (0x4e ∷ a ∷ []) (0 ∷ 0 ∷ []) a (λ e. cc) (data4 (omega arith))
push_data4-BeginsPush (a ∷ b ∷ []) h =
    cut_length (0x4e ∷ a ∷ b ∷ []) (0 ∷ []) (a + 256 * b) (λ e. cc) (data4 (omega arith))
push_data4-BeginsPush (a ∷ b ∷ c ∷ []) h =
    cut_length (0x4e ∷ a ∷ b ∷ c ∷ []) [] (a + 256 * b + 65536 * c) (λ e. cc) (data4 (omega arith))
push_data4-BeginsPush (a ∷ b ∷ c ∷ d ∷ rest) h =
    push-BeginsPush (data4 {a = a} {b = b} {c = c} {d = d} refl) rest (λ e. cc) h

-- Where no token is read, a push is cut off.
pub next_token-BeginsPush :
    (o : ℕ) (rest : List ℕ) → next_token o rest ≡ none → BeginsPush (o ∷ rest)
unfolding next_token
next_token-BeginsPush o rest h = elim (Bool-cases (leb 1 o && leb o 0x4b)) [
  | inl direct_push ↦
      push-BeginsPush (direct {n = o} (ground arith) (ground arith)) rest (λ e. cc)
        (rw direct_push at h)
  | inr not_direct ↦ elim (Bool-cases (o == 0x4c)) [
    | inl is_1 ↦
        let eo : o ≡ 0x4c = ground arith in
        rw eo (push_data1-BeginsPush rest (rw (not_direct, is_1) at h))
    | inr not_1 ↦ elim (Bool-cases (o == 0x4d)) [
      | inl is_2 ↦
          let eo : o ≡ 0x4d = ground arith in
          rw eo (push_data2-BeginsPush rest (rw (not_direct, not_1, is_2) at h))
      | inr not_2 ↦ elim (Bool-cases (o == 0x4e)) [
        | inl is_4 ↦
            let eo : o ≡ 0x4e = ground arith in
            rw eo (push_data4-BeginsPush rest (rw (not_direct, not_1, not_2, is_4) at h))
        | inr not_4 ↦ absurd (ground arith)
      ]
    ]
  ]
]
