-- ===== src/Address/Base58.antt =====
-- The two directions of Base58 in lib/address.ts.
use mathlib.Core.List.{reverse-cons, reverse-append, reverse-reverse}
use grc_explorer.Common.{
  ℕ, zero, suc, ◌+◌, ◌*◌, ◌<◌, ◌≡◌, ◌≢◌, refl, sym, ap, ◌∙◌, subst, Bool, true, false, ◌&&◌, Option,
  none, some, List, [], ◌∷◌, ◌++◌, map, reverse, ◌==◌, All, All-append, arith, Bool-cases, inl, inr,
  replicate, drop, false-ne-true,
}
use grc_explorer.Address.{
  digits, value_from, base58_char, position_from, base58_index, count_leading, base58_encode,
  index_value, base58_bytes,
}
use grc_explorer.Address.Digits.{
  value, value_from-reverse, IsBase_58, IsBase_256, value-digits, digits-below, digits-last,
  digits-zero, IsNormal, digits-value, snoc-IsNormal,
}

abbrev is_position : Option ℕ → ℕ → Bool
is_position none d = false
is_position (some i) d = i == d

is_position-some : (o : Option ℕ) (d : ℕ) → is_position o d ≡ true → o ≡ some d
is_position-some none d h = absurd (false-ne-true h)
is_position-some (some i) d h = ap some (ground arith)

-- The digits below a bound are read back from their characters.
reads_back : ℕ → Bool
reads_back zero = true
reads_back (suc d) = is_position (base58_index (base58_char d)) d && reads_back d

all_read_back : reads_back 58 ≡ true
unfolding reads_back base58_index base58_char position_from
all_read_back = refl

base58_index-char_below :
    (n d : ℕ) → reads_back n ≡ true → d < n → base58_index (base58_char d) ≡ some d
unfolding reads_back
base58_index-char_below zero d h lt = absurd (omega arith)
base58_index-char_below (suc n) d h lt = elim (Bool-cases (d == n)) [
  | inl e ↦ let same : d ≡ n = ground arith in rw same (is_position-some _ n (ground arith))
  | inr ne ↦ base58_index-char_below n d (ground arith) (ground arith)
]

base58_index-one : base58_index b'1' ≡ some 0
unfolding base58_index position_from
base58_index-one = refl

base58_char-ne-one : (d : ℕ) → 0 < d → d < 58 → base58_char d ≢ b'1'
base58_char-ne-one d pos lt e =
    let a = base58_index-char_below 58 d all_read_back lt in
    let both : ◌≡◌ {A = Option ℕ} (some d) (some 0) =
      sym a ∙ ap base58_index e ∙ base58_index-one in
    let zero_d : d ≡ 0 = cc in absurd (omega arith)

replicate-snoc : (n x : ℕ) → replicate n x ++ x ∷ [] ≡ x ∷ replicate n x
replicate-snoc zero x = refl
replicate-snoc (suc n) x = ap (λ l. x ∷ l) (replicate-snoc n x)

reverse-replicate : (n x : ℕ) → reverse (replicate n x) ≡ replicate n x
reverse-replicate zero x = refl
reverse-replicate (suc n) x =
    reverse-cons x (replicate n x)
    ∙ ap (λ l. l ++ x ∷ []) (reverse-replicate n x)
    ∙ replicate-snoc n x

-- The list does not begin with the element.
abbrev NotFirst : ℕ → List ℕ → Type 0
NotFirst x [] = Unit
NotFirst x (y ∷ ys) = y ≢ x

count_leading-replicate :
    (n x : ℕ) (ys : List ℕ) → NotFirst x ys → count_leading x (replicate n x ++ ys) ≡ n
unfolding count_leading
count_leading-replicate zero x [] h = refl
count_leading-replicate zero x (y ∷ ys) h = ground arith
count_leading-replicate (suc n) x ys h =
    let e : (x == x) ≡ true = ground arith in rw (e, count_leading-replicate n x ys h) (omega arith)

drop-replicate : (n x : ℕ) (ys : List ℕ) → drop n (replicate n x ++ ys) ≡ ys
drop-replicate zero x ys = refl
drop-replicate (suc n) x ys = drop-replicate n x ys

All-append-right : (P : ℕ → Type 0) (xs ys : List ℕ) → All P (xs ++ ys) → All P ys
All-append-right P [] ys h = h
All-append-right P (x ∷ xs) ys (h, hs) = All-append-right P xs ys hs

-- Every list is some of the element, and then a list that does not begin with it.
split_leading :
    (x : ℕ) (xs : List ℕ)
    → (ys : List ℕ) × (xs ≡ replicate (count_leading x xs) x ++ ys) × NotFirst x ys
unfolding count_leading
split_leading x [] = ([], refl, tt)
split_leading x (y ∷ xs) = elim (Bool-cases (y == x)) [
  | inl e ↦
      let (ys, eq, h) = split_leading x xs in
      let same : y ≡ x = ground arith in
      let n : count_leading x xs + 1 ≡ suc (count_leading x xs) = omega arith in
      (ys, rw (e, n, same) (ap (λ l. x ∷ l) eq), h)
  | inr ne ↦ (y ∷ xs, rw ne, ground arith)
]

value_from-zeros :
    (n : ℕ) (ys : List ℕ) → value_from 256 0 (replicate n 0 ++ ys) ≡ value_from 256 0 ys
unfolding value_from
value_from-zeros zero ys = refl
value_from-zeros (suc n) ys = value_from-zeros n ys

map-append : (f : ℕ → ℕ) (xs ys : List ℕ) → map f (xs ++ ys) ≡ map f xs ++ map f ys
map-append f [] ys = refl
map-append f (x ∷ xs) ys = ap (λ l. f x ∷ l) (map-append f xs ys)

map-reverse : (f : ℕ → ℕ) (xs : List ℕ) → reverse (map f xs) ≡ map f (reverse xs)
map-reverse f [] = refl
map-reverse f (x ∷ xs) =
    reverse-cons (f x) (map f xs)
    ∙ ap (λ l. l ++ f x ∷ []) (map-reverse f xs)
    ∙ sym (map-append f (reverse xs) (x ∷ []))
    ∙ ap (map f) (sym (reverse-cons x xs))

All-reverse : (P : ℕ → Type 0) (xs : List ℕ) → All P xs → All P (reverse xs)
All-reverse P [] h = tt
All-reverse P (x ∷ xs) (h, hs) =
    subst (All P) (sym (reverse-cons x xs))
      (All-append P (reverse xs) (x ∷ []) (All-reverse P xs hs) (h, tt))

index_value-map :
    (n : ℕ) (ds : List ℕ)
    → All (λ d. d < 58) ds
    → index_value n (map base58_char ds) ≡ some (value_from 58 n ds)
unfolding index_value value_from
index_value-map n [] h = refl
index_value-map n (d ∷ ds) (h, hs) =
    rw (base58_index-char_below 58 d all_read_back h, index_value)
      (index_value-map (n * 58 + d) ds hs)

NotFirst-chars :
    (ds : List ℕ) → All (λ d. d < 58) ds → NotFirst 0 ds → NotFirst b'1' (map base58_char ds)
NotFirst-chars [] a h = tt
NotFirst-chars (d ∷ ds) (lt, a) h = base58_char-ne-one d (omega (arith, h)) lt

NotFirst-digits : (n : ℕ) → NotFirst 0 (reverse (digits 58 n n))
NotFirst-digits n = elim (Bool-cases (n == 0)) [
  | inl z ↦ let e : n ≡ 0 = ground arith in rw (e, digits-zero 58 IsBase_58 0) tt
  | inr nz ↦
      let (ds, h, e, pos) = digits-last 58 IsBase_58 n n (ground arith) (omega arith) in
      let top : reverse (digits 58 n n) ≡ h ∷ reverse ds =
        ap reverse e ∙ reverse-append ds (h ∷ []) in
      let ne : h ≢ 0 = ground arith in subst (NotFirst 0) (sym top) ne
]

base58_encode-eq :
    (bytes : List ℕ)
    → base58_encode bytes
      ≡ replicate (count_leading 0 bytes) b'1'
        ++ map base58_char (reverse (digits 58 (value_from 256 0 bytes) (value_from 256 0 bytes)))
unfolding base58_encode
base58_encode-eq bytes =
    let n = value_from 256 0 bytes in
    let z = count_leading 0 bytes in
    reverse-append (map base58_char (digits 58 n n)) (replicate z b'1')
    ∙ ap (λ l. l ++ reverse (map base58_char (digits 58 n n))) (reverse-replicate z b'1')
    ∙ ap (λ l. replicate z b'1' ++ l) (map-reverse base58_char (digits 58 n n))

reverse-IsNormal : (ys : List ℕ) → NotFirst 0 ys → IsNormal 256 IsBase_256 (reverse ys)
reverse-IsNormal [] h = tt
reverse-IsNormal (y ∷ ys) h =
    let pos : 0 < y = omega (arith, h) in
    subst (IsNormal 256 IsBase_256) (sym (reverse-cons y ys))
      (snoc-IsNormal 256 IsBase_256 (reverse ys) y pos)

-- The digits of the bytes' number are the bytes behind the leading zeros.
digits-bytes :
    (ys : List ℕ)
    → NotFirst 0 ys
    → All (λ b. b < 256) ys
    → reverse (digits 256 (value_from 256 0 ys) (value_from 256 0 ys)) ≡ ys
digits-bytes ys h a =
    let e : value_from 256 0 ys ≡ value 256 (reverse ys) =
      ap (value_from 256 0) (sym (reverse-reverse ys)) ∙ value_from-reverse 256 (reverse ys) in
    let v = value 256 (reverse ys) in
    ap (λ n. reverse (digits 256 n n)) e
    ∙ ap reverse (
        digits-value 256 IsBase_256 (reverse ys) v (reverse-IsNormal ys h)
          (All-reverse (λ b. b < 256) ys a) (omega arith))
    ∙ reverse-reverse ys

base58_bytes-some :
    (s : List ℕ) (z : ℕ) (chars : List ℕ) (n : ℕ)
    → count_leading b'1' s ≡ z
    → drop z s ≡ chars
    → index_value 0 chars ≡ some n
    → base58_bytes s ≡ some (reverse (digits 256 n n ++ replicate z 0))
unfolding base58_bytes
base58_bytes-some s z chars n c d i =
    let at : index_value 0 (drop (count_leading b'1' s) s) ≡ some n =
      ap (λ k. index_value 0 (drop k s)) c ∙ ap (index_value 0) d ∙ i in
    let f : ℕ → Option ℕ → Option (List ℕ) =
      λ k o. elim o [ none ↦ none | some m ↦ some (reverse (digits 256 m m ++ replicate k 0)) ] in
    ap (f (count_leading b'1' s)) at ∙ ap (λ k. f k (some n)) c

-- Every list of bytes is read back from its Base58 text.
pub base58_bytes-encode :
    (bytes : List ℕ) → All (λ b. b < 256) bytes → base58_bytes (base58_encode bytes) ≡ some bytes
base58_bytes-encode bytes a =
    let n = value_from 256 0 bytes in
    let z = count_leading 0 bytes in
    let ds = reverse (digits 58 n n) in
    let below = All-reverse (λ d. d < 58) (digits 58 n n) (digits-below 58 IsBase_58 n n) in
    let (ys, eb, first) = split_leading 0 bytes in
    let chars = map base58_char ds in
    let c : count_leading b'1' (replicate z b'1' ++ chars) ≡ z =
      count_leading-replicate z b'1' chars (NotFirst-chars ds below (NotFirst-digits n)) in
    let i : index_value 0 chars ≡ some n =
      index_value-map 0 ds below
      ∙ ap some
          (value_from-reverse 58 (digits 58 n n) ∙ value-digits 58 IsBase_58 n n (omega arith)) in
    let en : n ≡ value_from 256 0 ys = ap (value_from 256 0) eb ∙ value_from-zeros z ys in
    let back : reverse (digits 256 n n ++ replicate z 0) ≡ bytes =
      reverse-append (digits 256 n n) (replicate z 0)
      ∙ ap (λ l. l ++ reverse (digits 256 n n)) (reverse-replicate z 0)
      ∙ ap (λ k. replicate z 0 ++ reverse (digits 256 k k)) en
      ∙ ap (λ l. replicate z 0 ++ l)
          (digits-bytes ys first
            (All-append-right (λ b. b < 256) (replicate z 0) ys (subst (All (λ b. b < 256)) eb a)))
      ∙ sym eb in
    ap base58_bytes (base58_encode-eq bytes)
    ∙ base58_bytes-some (replicate z b'1' ++ chars) z chars n c (drop-replicate z b'1' chars) i
    ∙ ap some back
