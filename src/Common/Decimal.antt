-- ===== src/Common/Decimal.antt =====
-- The verb %d and strconv.Itoa on natural numbers.
use Prim.Native.Nat.{ℕ, zero, suc, ◌/◌, ◌%◌}
use Prim.Native.String
use Prim.Native.String.{String}
use mathlib.Core.List.{List, [], ◌∷◌}
use icn_nodus.Common.Tests.{ltb, if◌then◌else◌}

abbrev pub digit_from : List String → ℕ → String
digit_from [] i = ""
digit_from (d ∷ ds) zero = d
digit_from (d ∷ ds) (suc i) = digit_from ds i

abbrev pub digits : List String
digits =
    "0" ∷ "1" ∷ "2" ∷ "3" ∷ "4" ∷ "5" ∷ "6" ∷ "7" ∷ "8" ∷ "9" ∷ "a" ∷ "b" ∷ "c" ∷ "d" ∷ "e" ∷ "f"
    ∷ []

abbrev pub digit : ℕ → String
digit = digit_from digits

-- Each round takes one digit off, so `n + 1` rounds are more than enough.
unfoldable pub itoa_rounds : ℕ → ℕ → String
itoa_rounds zero n = ""
itoa_rounds (suc fuel) n =
    let higher = String.◌++◌ (itoa_rounds fuel (n / 10)) (digit (n % 10)) in
    if ltb n 10 then digit n else higher

unfoldable pub itoa : ℕ → String
unfolding itoa_rounds
itoa n = itoa_rounds (suc n) n

-- The verb %02x on a byte.
unfoldable pub hex_byte : ℕ → String
hex_byte n = String.◌++◌ (digit (n / 16)) (digit (n % 16))
