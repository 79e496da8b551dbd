-- ===== src/Common/Int.antt =====
-- Signed integers, with their decimal text: strconv.ParseInt in base ten and the verb %d.
use Prim.Native.Nat.{ℕ, suc, ◌+◌, ◌-◌, ◌*◌}
use Prim.Native.Char.{code}
use Prim.Native.String
use Prim.Native.String.{String, [], ◌∷◌}
use mathlib.Core.Bool.{◌&&◌}
use mathlib.Core.Option.{Option, none, some}
use icn_nodus.Common.Tests.{ltb, leb, nat_eq, if◌then◌else◌}
use icn_nodus.Common.Decimal.{itoa}

-- `negsuc n` is -(n + 1).
pub data ℤ : Type 0 where
  pos : ℕ → ℤ
  negsuc : ℕ → ℤ

unfoldable pub int_text : ℤ → String
int_text (pos n) = itoa n
int_text (negsuc n) = String.◌++◌ "-" (itoa (suc n))

-- The value of a run of digits behind `acc`.
unfoldable pub scan_digits : ℕ → String → Option ℕ
scan_digits acc [] = some acc
scan_digits acc (c ∷ s) =
    let rest = scan_digits (acc * 10 + (code c - b'0')) s in
    if leb b'0' (code c) && leb (code c) b'9' then rest else none

abbrev digits_value : String → Option ℕ
digits_value [] = none
digits_value (c ∷ s) = scan_digits 0 (c ∷ s)

abbrev below_limit : Option ℕ → Option ℤ
below_limit none = none
below_limit (some n) = if ltb n 32768 then some (pos n) else none

abbrev negated : Option ℕ → Option ℤ
negated none = none
negated (some n) =
    if nat_eq n 0 then some (pos 0) else if leb n 32768 then some (negsuc (n - 1)) else none

-- strconv.ParseInt(s, 10, 16), `none` for any of its errors
unfoldable pub parse_int16 : String → Option ℤ
unfolding scan_digits
parse_int16 [] = none
parse_int16 (c ∷ s) =
    if nat_eq (code c) b'-'
    then negated (digits_value s)
    else if nat_eq (code c) b'+'
    then below_limit (digits_value s)
    else below_limit (digits_value (c ∷ s))
