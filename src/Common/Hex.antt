-- ===== src/Common/Hex.antt =====
-- Hexadecimal text as lists of character codes: what the source uses of Node's `Buffer.from(s,
-- 'hex')` (which stops at the first pair that is no byte) and `toString('hex')`.
use Prim.Native.Nat.{ℕ, ◌+◌, ◌-◌, ◌*◌, ◌/◌, ◌%◌, ◌<◌}
use Prim.Native.Char.{code}
use Prim.Native.String.{String}
use mathlib.Core.Path.{◌≡◌, refl, ap}
use mathlib.Core.Bool.{◌&&◌}
use mathlib.Core.Logic.{◌≢◌}
use mathlib.Core.List.{List, [], ◌∷◌}
use mathlib.Core.Option.{Option, none, some}
use native.Mathlib.Omega.{arith}
use grc_explorer.Common.Tests.{leb, ltb, if◌then◌else◌}
use grc_explorer.Common.Lists.{All, length}

-- The code points of a text.
abbrev pub codes : String → List ℕ
codes String.[] = []
codes (String.◌∷◌ c s) = code c ∷ codes s

-- A digit below 16, in lower case.
pub hex_digit : ℕ → ℕ
hex_digit d = if ltb d 10 then b'0' + d else b'a' + (d - 10)

pub hex_value : ℕ → Option ℕ
hex_value c =
    if leb b'0' c && leb c b'9'
    then some (c - b'0')
    else if leb b'a' c && leb c b'f'
    then some (c - b'a' + 10)
    else if leb b'A' c && leb c b'F'
    then some (c - b'A' + 10)
    else none

pub to_hex : List ℕ → List ℕ
unfolding hex_digit
to_hex [] = []
to_hex (b ∷ bs) = hex_digit (b / 16) ∷ hex_digit (b % 16) ∷ to_hex bs

abbrev hex_pair : Option ℕ → Option ℕ → List ℕ → List ℕ
hex_pair (some h) (some l) rest = (h * 16 + l) ∷ rest
hex_pair _ _ rest = []

unfoldable pub from_hex : List ℕ → List ℕ
unfolding hex_value
from_hex [] = []
from_hex (h ∷ []) = []
from_hex (h ∷ l ∷ cs) = hex_pair (hex_value h) (hex_value l) (from_hex cs)

pub hex_value-hex_digit : (d : ℕ) → d < 16 → hex_value (hex_digit d) ≡ some d
unfolding hex_value hex_digit
hex_value-hex_digit d h = ground arith

-- Every list of bytes is read back from its hexadecimal text.
pub from_hex-to_hex : (bs : List ℕ) → All (λ b. b < 256) bs → from_hex (to_hex bs) ≡ bs
unfolding from_hex to_hex
from_hex-to_hex [] h = refl
from_hex-to_hex (b ∷ bs) (h, hs) =
    rw
      (
        hex_value-hex_digit (b / 16) (omega arith),
        hex_value-hex_digit (b % 16) (omega arith),
        from_hex-to_hex bs hs,
      )
      (ap (λ x. x ∷ bs) (omega arith))

pub length-from_hex-pos : (cs : List ℕ) → from_hex cs ≢ [] → 0 < length cs
unfolding from_hex
length-from_hex-pos [] h = absurd (h refl)
length-from_hex-pos (c ∷ cs) h = omega arith

pub from_hex_nil : from_hex [] ≡ []
unfolding from_hex
from_hex_nil = refl
