-- ===== src/Common/Text.antt =====
-- What the program uses of Go's `strings` and `strconv`, on native texts. A separator or a cut
-- character is given by its code.
pub mod Splitting
pub mod Digits
use Prim.Native.Nat.{ℕ, zero, suc}
use Prim.Native.Char.{Char, code}
use Prim.Native.String
use Prim.Native.String.{String, [], ◌∷◌}
use mathlib.Core.Bool.{Bool, true, false, ◌&&◌, ◌||◌}
use mathlib.Core.List.{List, [], ◌∷◌}
use icn_nodus.Common.Tests.{leb, nat_eq, if◌then◌else◌}

-- The pieces of a text in order, as `Sprintf` with `%s` verbs or a chain of `+` joins them.
abbrev pub sprint : List String → String
sprint [] = ""
sprint (a ∷ []) = a
sprint (a ∷ b ∷ r) = String.◌++◌ a (sprint (b ∷ r))

abbrev pub is_blank : String → Bool
is_blank [] = true
is_blank (c ∷ s) = false

-- A character put in front of the first part.
abbrev pub push_head : Char → List String → List String
push_head c [] = (c ∷ []) ∷ []
push_head c (p ∷ ps) = (c ∷ p) ∷ ps

-- strings.Split with a separator of one character: always at least one part.
unfoldable pub split : ℕ → String → List String
split sep [] = "" ∷ []
split sep (c ∷ s) =
    let rest = split sep s in if nat_eq (code c) sep then "" ∷ rest else push_head c rest

unfoldable pub is_prefix : String → String → Bool
is_prefix [] s = true
is_prefix (c ∷ t) [] = false
is_prefix (c ∷ t) (d ∷ s) = nat_eq (code c) (code d) && is_prefix t s

-- strings.Contains
unfoldable pub contains : String → String → Bool
unfolding is_prefix
contains [] t = is_prefix t ""
contains (c ∷ s) t = is_prefix t (c ∷ s) || contains s t

-- strings.TrimLeft, strings.TrimRight and strings.Trim with a set of one character
unfoldable pub trim_left : ℕ → String → String
trim_left cut [] = ""
trim_left cut (c ∷ s) = let rest = trim_left cut s in if nat_eq (code c) cut then rest else c ∷ s

abbrev pub drop_blank : Bool → Char → String → String
drop_blank hit c [] = if hit then "" else c ∷ []
drop_blank hit c (d ∷ s) = c ∷ d ∷ s

unfoldable pub trim_right : ℕ → String → String
trim_right cut [] = ""
trim_right cut (c ∷ s) = drop_blank (nat_eq (code c) cut) c (trim_right cut s)

unfoldable pub trim : ℕ → String → String
unfolding trim_left trim_right
trim cut s = trim_right cut (trim_left cut s)

-- Space, tab, line feed, vertical tab, form feed and carriage return.
abbrev pub is_space : ℕ → Bool
is_space n = nat_eq n 32 || (leb 9 n && leb n 13)

unfoldable pub trim_left_space : String → String
trim_left_space [] = ""
trim_left_space (c ∷ s) = let rest = trim_left_space s in if is_space (code c) then rest else c ∷ s

unfoldable pub trim_right_space : String → String
trim_right_space [] = ""
trim_right_space (c ∷ s) = drop_blank (is_space (code c)) c (trim_right_space s)

-- strings.TrimSpace
unfoldable pub trim_space : String → String
unfolding trim_left_space trim_right_space
trim_space s = trim_right_space (trim_left_space s)

-- The parts that are not empty.
abbrev pub filled : List String → List String
filled [] = []
filled ([] ∷ ps) = filled ps
filled ((c ∷ p) ∷ ps) = (c ∷ p) ∷ filled ps

unfoldable pub split_spaces : String → List String
split_spaces [] = "" ∷ []
split_spaces (c ∷ s) =
    let rest = split_spaces s in if is_space (code c) then "" ∷ rest else push_head c rest

-- strings.Fields
unfoldable pub fields : String → List String
unfolding split_spaces
fields s = filled (split_spaces s)

-- strings.TrimPrefix
unfoldable pub strip_prefix : String → String → String → String
strip_prefix whole [] s = s
strip_prefix whole (c ∷ t) [] = whole
strip_prefix whole (c ∷ t) (d ∷ s) =
    if nat_eq (code c) (code d) then strip_prefix whole t s else whole

unfoldable pub trim_prefix : String → String → String
unfolding strip_prefix
trim_prefix s t = strip_prefix s t s

-- strings.Join with the separator ","
unfoldable pub join_comma : List String → String
join_comma [] = ""
join_comma (a ∷ []) = a
join_comma (a ∷ b ∷ r) = String.◌++◌ a (String.◌++◌ "," (join_comma (b ∷ r)))

-- s[:len(s)-1]
unfoldable pub drop_last : String → String
drop_last [] = ""
drop_last (c ∷ []) = ""
drop_last (c ∷ d ∷ s) = c ∷ drop_last (d ∷ s)

-- s[:n] of a text that is long enough
unfoldable pub take_text : ℕ → String → String
take_text zero s = ""
take_text (suc n) [] = ""
take_text (suc n) (c ∷ s) = c ∷ take_text n s

-- strings.Replace(s, "br-", "", -1), with the characters still to be dropped
unfoldable pub without_br : ℕ → String → String
unfolding is_prefix
without_br k [] = ""
without_br zero (c ∷ s) =
    let kept = without_br zero s in
    let dropped = without_br 2 s in if is_prefix "br-" (c ∷ s) then dropped else c ∷ kept
without_br (suc k) (c ∷ s) = without_br k s
