-- ===== src/Script/Htlc.antt =====
-- packages/grc-explorer/src/lib/htlc.ts: which inputs redeem a hash-timelock contract.
mod Tests
use grc_explorer.Common.{
  ℕ, ◌<◌, ◌+◌, ◌≡◌, refl, sym, ◌∙◌, ◌≢◌, ◌↔◌, ◌⊎◌, inl, inr, Option, none, some, List, [], ◌∷◌,
  ◌++◌, arith, length, Bool, true, false, ◌&&◌, ◌||◌, ◌==◌, Bool-cases, Option-cases, none-ne-some,
  false-ne-true, ap, subst, if◌then◌else◌,
}
use grc_explorer.Common.Hex.{from_hex, length-from_hex-pos}
use grc_explorer.Script.{Token, op, bytes, tokenize, tokenize_from}
use grc_explorer.Script.Encoding.{Encodes, tokenize_iff}

abbrev pub op_if : ℕ
op_if = 0x63

abbrev pub op_notif : ℕ
op_notif = 0x64

abbrev pub op_endif : ℕ
op_endif = 0x68

abbrev pub op_equal : ℕ
op_equal = 0x87

abbrev pub op_equalverify : ℕ
op_equalverify = 0x88

abbrev pub op_hash160 : ℕ
op_hash160 = 0xa9

abbrev pub op_sha256 : ℕ
op_sha256 = 0xa8

abbrev pub op_hash256 : ℕ
op_hash256 = 0xaa

abbrev pub op_checklocktimeverify : ℕ
op_checklocktimeverify = 0xb1

abbrev pub op_checksequenceverify : ℕ
op_checksequenceverify = 0xb2

-- The set `ops`, as the list of what is added to it.
pub opcodes : List Token → List ℕ
opcodes [] = []
opcodes (op o ∷ ts) = o ∷ opcodes ts
opcodes (bytes d ∷ ts) = opcodes ts

-- `ops.has(o)`
pub has : List ℕ → ℕ → Bool
has [] o = false
has (x ∷ xs) o = x == o || has xs o

pub has_timelock : List ℕ → Bool
has_timelock ops = has ops op_checklocktimeverify || has ops op_checksequenceverify

pub has_hashlock : List ℕ → Bool
has_hashlock ops =
    (has ops op_hash160 || has ops op_sha256 || has ops op_hash256)
    && (has ops op_equal || has ops op_equalverify)

pub has_branch : List ℕ → Bool
has_branch ops = (has ops op_if || has ops op_notif) && has ops op_endif

pub has_htlc_shape : List ℕ → Bool
has_htlc_shape ops = has_timelock ops && has_hashlock ops && has_branch ops

-- `tokens[tokens.length - 1]`
pub last_token : List Token → Option Token
last_token [] = none
last_token (t ∷ []) = some t
last_token (t ∷ u ∷ ts) = last_token (u ∷ ts)

-- What is decided from the tokens of the redeemScript; `null` where it does not parse.
pub redeem_tokens_are_htlc : Option (List Token) → Bool
redeem_tokens_are_htlc none = false
redeem_tokens_are_htlc (some redeem) = has_htlc_shape (opcodes redeem)

-- What is decided from the last item of the scriptSig.
pub last_is_htlc : Option Token → Bool
last_is_htlc none = false
last_is_htlc (some (op o)) = false
last_is_htlc (some (bytes [])) = false
last_is_htlc (some (bytes (b ∷ bs))) = redeem_tokens_are_htlc (tokenize (b ∷ bs))

pub sig_tokens_are_htlc : Option (List Token) → Bool
sig_tokens_are_htlc none = false
sig_tokens_are_htlc (some ts) = last_is_htlc (last_token ts)

-- `null`, `undefined` and the empty text are no scriptSig. (No tokens come of an empty buffer, so
-- the source's test of its length is the first case of `last_is_htlc`.)
pub redeem_script_is_htlc : Option (List ℕ) → Bool
redeem_script_is_htlc none = false
redeem_script_is_htlc (some hex) =
    let sig = from_hex hex in
    if length hex == 0 || length sig == 0 then false else sig_tokens_are_htlc (tokenize sig)

-- The opcode stands among the tokens; what a push carries does not count.
abbrev pub HasOp : ℕ → List Token → Type 0
HasOp o [] = ⊥
HasOp o (op x ∷ ts) = (x ≡ o) ⊎ HasOp o ts
HasOp o (bytes d ∷ ts) = HasOp o ts

-- A timelock, a hashlock and a branch.
pub record IsHtlc (ts : List Token) : Type 0 where
  pub timelock : HasOp op_checklocktimeverify ts ⊎ HasOp op_checksequenceverify ts
  pub hash : HasOp op_hash160 ts ⊎ HasOp op_sha256 ts ⊎ HasOp op_hash256 ts
  pub equal : HasOp op_equal ts ⊎ HasOp op_equalverify ts
  pub branch : HasOp op_if ts ⊎ HasOp op_notif ts
  pub end_branch : HasOp op_endif ts

has_iff : (ts : List Token) (o : ℕ) → (has (opcodes ts) o ≡ true) ↔ HasOp o ts
unfolding has opcodes
has_iff [] o = ground arith
has_iff (op x ∷ ts) o = ground (arith, has_iff ts o)
has_iff (bytes d ∷ ts) o = has_iff ts o

module _ (ts : List Token) where
  has_timelock_iff :
      (has_timelock (opcodes ts) ≡ true)
      ↔ (HasOp op_checklocktimeverify ts ⊎ HasOp op_checksequenceverify ts)
  unfolding has_timelock
  has_timelock_iff =
      ground (arith, has_iff ts op_checklocktimeverify, has_iff ts op_checksequenceverify)

  has_hashlock_iff : (has_hashlock (opcodes ts) ≡ true) ↔ (
      (HasOp op_hash160 ts ⊎ HasOp op_sha256 ts ⊎ HasOp op_hash256 ts)
      × (HasOp op_equal ts ⊎ HasOp op_equalverify ts))
  unfolding has_hashlock
  has_hashlock_iff = ground (
    arith,
    has_iff ts op_hash160,
    has_iff ts op_sha256,
    has_iff ts op_hash256,
    has_iff ts op_equal,
    has_iff ts op_equalverify,
  )

  has_branch_iff :
      (has_branch (opcodes ts) ≡ true) ↔ ((HasOp op_if ts ⊎ HasOp op_notif ts) × HasOp op_endif ts)
  unfolding has_branch
  has_branch_iff = ground (arith, has_iff ts op_if, has_iff ts op_notif, has_iff ts op_endif)

  has_htlc_shape_iff : (has_htlc_shape (opcodes ts) ≡ true) ↔ IsHtlc ts
  unfolding has_htlc_shape
  has_htlc_shape_iff = ground (arith, has_timelock_iff, has_hashlock_iff, has_branch_iff)

last_token-eq-some :
    (ts : List Token) (t : Token) → last_token ts ≡ some t → (us : List Token) × (ts ≡ us ++ t ∷ [])
unfolding last_token
last_token-eq-some [] t h = absurd (none-ne-some h)
last_token-eq-some (x ∷ []) t h = ([], ground arith)
last_token-eq-some (x ∷ y ∷ ts) t h =
    let (us, e) = last_token-eq-some (y ∷ ts) t h in (x ∷ us, ap (λ l. x ∷ l) e)

last_token-append : (us : List Token) (t : Token) → last_token (us ++ t ∷ []) ≡ some t
unfolding last_token
last_token-append [] t = refl
last_token-append (x ∷ []) t = refl
last_token-append (x ∷ y ∷ us) t = last_token-append (y ∷ us) t

-- The scriptSig ends in a push of a script that parses and has the shape of a contract.
pub record Redeems (sig : List ℕ) : Type 0 where
  pub before : List Token
  pub redeem : List ℕ
  pub tokens : List Token
  pub spelled : Encodes sig (before ++ bytes redeem ∷ [])
  pub not_empty : redeem ≢ []
  pub script : Encodes redeem tokens
  pub shape : IsHtlc tokens

last_is_htlc_sound :
    (sig : List ℕ) (ts : List Token) (last : Option Token)
    → Encodes sig ts
    → last_token ts ≡ last
    → last_is_htlc last ≡ true
    → Redeems sig
unfolding last_is_htlc redeem_tokens_are_htlc
last_is_htlc_sound sig ts none e q h = absurd (false-ne-true h)
last_is_htlc_sound sig ts (some (op o)) e q h = absurd (false-ne-true h)
last_is_htlc_sound sig ts (some (bytes [])) e q h = absurd (false-ne-true h)
last_is_htlc_sound sig ts (some (bytes (b ∷ bs))) e q h =
    let (us, eu) = last_token-eq-some ts (bytes (b ∷ bs)) q in
    elim (Option-cases (tokenize (b ∷ bs))) [
      | inl bad ↦ absurd (false-ne-true (rw bad at h))
      | inr (rs, good) ↦ record {
        before = us;
        redeem = b ∷ bs;
        tokens = rs;
        spelled = subst (Encodes sig) eu e;
        not_empty = ground arith;
        script = (tokenize_iff (b ∷ bs) rs).0 good;
        shape = (has_htlc_shape_iff rs).0 (rw good at h);
      }
    ]

redeem_script_sound :
    (hex : List ℕ) → redeem_script_is_htlc (some hex) ≡ true → Redeems (from_hex hex)
unfolding redeem_script_is_htlc sig_tokens_are_htlc
redeem_script_sound hex h = elim (Option-cases (tokenize (from_hex hex))) [
  | inl bad ↦ absurd (ground arith)
  | inr (ts, good) ↦
      last_is_htlc_sound (from_hex hex) ts (last_token ts) ((tokenize_iff _ ts).0 good) refl
        (ground arith)
]

snoc-ne-nil {ℓ} : {A : Type ℓ} (xs : List A) (x : A) → xs ++ x ∷ [] ≢ []
snoc-ne-nil [] x = ground arith
snoc-ne-nil (y ∷ ys) x = ground arith

tokenize_nil : (sig : List ℕ) (ts : List Token) → tokenize sig ≡ some ts → sig ≡ [] → ts ≡ []
unfolding tokenize tokenize_from
tokenize_nil [] ts h e = cc
tokenize_nil (b ∷ bs) ts h e = cc

length-pos : {A : Type 0} (xs : List A) → xs ≢ [] → 0 < length xs
length-pos [] h = absurd (h refl)
length-pos (x ∷ xs) h = omega arith

last_is_htlc_complete :
    (d : List ℕ) (rs : List Token)
    → d ≢ []
    → tokenize d ≡ some rs
    → IsHtlc rs
    → last_is_htlc (some (bytes d)) ≡ true
unfolding last_is_htlc redeem_tokens_are_htlc
last_is_htlc_complete [] rs h t s = absurd (h refl)
last_is_htlc_complete (b ∷ bs) rs h t s = rw t ((has_htlc_shape_iff rs).1 s)

redeem_script_complete :
    (hex : List ℕ) → Redeems (from_hex hex) → redeem_script_is_htlc (some hex) ≡ true
unfolding redeem_script_is_htlc sig_tokens_are_htlc
redeem_script_complete hex r =
    let spelled = (tokenize_iff _ _).1 r.spelled in
    let ne : from_hex hex ≢ [] = λ e. snoc-ne-nil r.before _ (tokenize_nil _ _ spelled e) in
    let long = length-pos (from_hex hex) ne in
    let some_hex = length-from_hex-pos hex ne in
    let tests : (length hex == 0 || length (from_hex hex) == 0) ≡ false = ground arith in
    rw (tests, spelled, last_token-append r.before (bytes r.redeem))
      (last_is_htlc_complete r.redeem r.tokens r.not_empty ((tokenize_iff _ _).1 r.script) r.shape)

-- A scriptSig text is flagged as a redemption of a hash-timelock contract exactly when its bytes
-- spell tokens that end in a push of a non-empty script, that script parses, and among its opcodes
-- are a timelock, a hash, an equality test, an opening and a closing of a branch, in any order and
-- not necessarily inside the branch. What any push carries plays no part.
pub redeem_script_is_htlc_iff :
    (hex : List ℕ) → (redeem_script_is_htlc (some hex) ≡ true) ↔ Redeems (from_hex hex)
redeem_script_is_htlc_iff hex = (redeem_script_sound hex, redeem_script_complete hex)
