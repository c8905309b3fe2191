-- ===== src/Py/Decimal.antt =====
-- `int(s)` of a text, and the text of a number.
use traust_contracts.Base.{
  ℕ, zero, suc, ◌+◌, ◌-◌, ◌*◌, ◌/◌, ◌%◌, ◌==◌, ltb, leb, Text, Bool, true, false, ◌&&◌, Option,
  none, some, List, [], ◌∷◌, ◌++◌, Result, ok, err, value_error, if◌then◌else◌,
}
use traust_contracts.Py.Numbers.{ℤ, pos, negsuc}
use traust_contracts.Py.Strings.{strip}

-- The zeros of the decimal digits of Unicode 14, each followed by its nine other digits.
abbrev zeros : List ℕ
zeros =
    48 ∷ 1632 ∷ 1776 ∷ 1984 ∷ 2406 ∷ 2534 ∷ 2662 ∷ 2790 ∷ 2918 ∷ 3046 ∷ 3174 ∷ 3302 ∷ 3430 ∷ 3558
    ∷ 3664 ∷ 3792 ∷ 3872 ∷ 4160 ∷ 4240 ∷ 6112 ∷ 6160 ∷ 6470 ∷ 6608 ∷ 6784 ∷ 6800 ∷ 6992 ∷ 7088
    ∷ 7232 ∷ 7248 ∷ 42528 ∷ 43216 ∷ 43264 ∷ 43472 ∷ 43504 ∷ 43600 ∷ 44016 ∷ 65296 ∷ 66720 ∷ 68912
    ∷ 69734 ∷ 69872 ∷ 69942 ∷ 70096 ∷ 70384 ∷ 70736 ∷ 70864 ∷ 71248 ∷ 71360 ∷ 71472 ∷ 71904 ∷ 72016
    ∷ 72784 ∷ 73040 ∷ 73120 ∷ 92768 ∷ 92864 ∷ 93008 ∷ 120782 ∷ 120792 ∷ 120802 ∷ 120812 ∷ 120822
    ∷ 123200 ∷ 123632 ∷ 125264 ∷ 130032 ∷ []

unfoldable pub digit_from : List ℕ → ℕ → Option ℕ
digit_from [] c = none
digit_from (z ∷ zs) c = if leb z c && ltb c (z + 10) then some (c - z) else digit_from zs c

-- The value of a character of the category Nd, which is `\d` too.
unfoldable pub digit_value : ℕ → Option ℕ
unfolding digit_from
digit_value c = digit_from zeros c

abbrev pub is_digit : Option ℕ → Bool
is_digit none = false
is_digit (some d) = true

unfoldable pub all_digits : Text → Bool
unfolding digit_value
all_digits [] = true
all_digits (c ∷ s) = is_digit (digit_value c) && all_digits s

-- Digits, with single underscores between them; `ready` says that the last character was a digit.
unfoldable pub digits_from : (ready : Bool) (value : ℕ) → Text → Option ℕ
digits_from ready value [] = if ready then some value else none
digits_from ready value (c ∷ s) = elim (c == b'_') [
  | true ↦ elim ready [ true ↦ digits_from false value s | false ↦ none ]
  | false ↦ elim (digit_value c) [ none ↦ none | some d ↦ digits_from true (value * 10 + d) s ]
]

unfoldable pub positive : Option ℕ → Result ℤ
positive none = err value_error
positive (some n) = ok (pos n)

unfoldable pub negative : Option ℕ → Result ℤ
negative none = err value_error
negative (some zero) = ok (pos 0)
negative (some (suc n)) = ok (negsuc n)

unfoldable pub signed : Text → Result ℤ
unfolding digits_from positive negative
signed [] = err value_error
signed (c ∷ s) =
    if c == b'-'
    then negative (digits_from false 0 s)
    else positive (digits_from false 0 (if c == b'+' then s else c ∷ s))

-- `int(s)`
unfoldable pub int_of : Text → Result ℤ
unfolding signed strip
int_of s = signed (strip s)

unfoldable pub decimal_from : (fuel : ℕ) → ℕ → Text
decimal_from zero n = []
decimal_from (suc fuel) n =
    let front = decimal_from fuel (n / 10) in
    if ltb n 10 then (48 + n) ∷ [] else front ++ (48 + n % 10) ∷ []

-- `str(n)`
unfoldable pub decimal : ℕ → Text
unfolding decimal_from
decimal n = decimal_from (suc n) n

-- `str(n)` of an integer.
unfoldable pub integer_text : ℤ → Text
unfolding decimal
integer_text (pos n) = decimal n
integer_text (negsuc n) = b'-' ∷ decimal (suc n)

unfoldable pub plus_one : ℤ → ℤ
plus_one (pos n) = pos (suc n)
plus_one (negsuc zero) = pos 0
plus_one (negsuc (suc n)) = negsuc n
