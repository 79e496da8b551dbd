-- ===== src/Common/Text/Digits.antt =====
-- Decimal texts have no separator in them.
use Prim.Native.String
use icn_nodus.Common.{
  ltb, if◌then◌else◌, digit_from, digits, digit, itoa_rounds, itoa, All, ℕ, zero, suc, ◌/◌, ◌%◌,
  String, refl, Bool, true, false, List, [], ◌∷◌,
}
use icn_nodus.Common.Text.Splitting.{Lacks, Lacks-append}

digit_from-All : (ds : List String) (i : ℕ) → All (Lacks b',') ds → Lacks b',' (digit_from ds i)
digit_from-All [] i h = tt
digit_from-All (d ∷ ds) zero (h, k) = h
digit_from-All (d ∷ ds) (suc i) (h, k) = digit_from-All ds i k

digits-Lack : All (Lacks b',') digits
digits-Lack = (
  (refl, tt),
  (
    (refl, tt),
    (
      (refl, tt),
      (
        (refl, tt),
        (
          (refl, tt),
          (
            (refl, tt),
            (
              (refl, tt),
              (
                (refl, tt),
                (
                  (refl, tt),
                  (
                    (refl, tt),
                    (
                      (refl, tt),
                      ((refl, tt), ((refl, tt), ((refl, tt), ((refl, tt), ((refl, tt), tt))))),
                    ),
                  ),
                ),
              ),
            ),
          ),
        ),
      ),
    ),
  ),
)

comma_in_digits : (i : ℕ) → Lacks b',' (digit i)
comma_in_digits i = digit_from-All digits i digits-Lack

Lacks-if :
    (sep : ℕ) (b : Bool) (s t : String) → Lacks sep s → Lacks sep t → Lacks sep (if b then s else t)
Lacks-if sep true s t h k = h
Lacks-if sep false s t h k = k

Lacks-itoa_rounds : (fuel n : ℕ) → Lacks b',' (itoa_rounds fuel n)
unfolding itoa_rounds
Lacks-itoa_rounds zero n = tt
Lacks-itoa_rounds (suc fuel) n =
    Lacks-if b',' (ltb n 10) (digit n) (String.◌++◌ (itoa_rounds fuel (n / 10)) (digit (n % 10)))
      (comma_in_digits n)
      (Lacks-append b',' (itoa_rounds fuel (n / 10)) (digit (n % 10))
        (Lacks-itoa_rounds fuel (n / 10)) (comma_in_digits (n % 10)))

pub Lacks-itoa : (n : ℕ) → Lacks b',' (itoa n)
unfolding itoa
Lacks-itoa n = Lacks-itoa_rounds (suc n) n
