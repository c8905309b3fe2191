-- ===== src/Py/Reads.antt =====
-- `int` of the text of an integer, and `split` at a character.
use traust_contracts.Base.{
  ℕ, zero, suc, ◌≡◌, refl, sym, ap, ◌∙◌, ◌+◌, ◌-◌, ◌*◌, ◌/◌, ◌%◌, ◌==◌, ltb, leb, Text, Bool, true,
  false, ◌&&◌, ◌||◌, none, some, List, [], ◌∷◌, ◌++◌, ok, arith, if◌then◌else◌,
}
use mathlib.Core.List.{append-nil, append_assoc}
use traust_contracts.Py.Numbers.{ℤ, pos, negsuc}
use traust_contracts.Py.Strings.{is_space, lstrip, rstrip, unless_space, strip, split, cons_first}
use traust_contracts.Py.Decimal.{
  digit_from, digit_value, digits_from, positive, negative, signed, int_of, decimal_from, decimal,
  integer_text,
}

-- "-" or a digit of ASCII.
abbrev pub is_figure : ℕ → Bool
is_figure c = c == b'-' || leb 48 c && ltb c 58

unfoldable pub figures : Text → Bool
figures [] = true
figures (c ∷ s) = is_figure c && figures s

figures-append : (s t : Text) → figures s ≡ true → figures t ≡ true → figures (s ++ t) ≡ true
unfolding figures
figures-append [] t hs ht = ht
figures-append (c ∷ s) t hs ht = ground (arith, figures-append s t)

figure_not_space : (c : ℕ) → is_figure c ≡ true → is_space c ≡ false
unfolding is_space
figure_not_space c h = ground arith

lstrip-figures : (s : Text) → figures s ≡ true → lstrip s ≡ s
unfolding figures lstrip
lstrip-figures [] h = refl
lstrip-figures (c ∷ s) h = ground (arith, figure_not_space c)

unless_figure : (c : ℕ) (s : Text) → is_figure c ≡ true → unless_space c s ≡ c ∷ s
unfolding unless_space
unless_figure c [] h = ground (arith, figure_not_space c)
unless_figure c (d ∷ s) h = refl

rstrip-figures : (s : Text) → figures s ≡ true → rstrip s ≡ s
unfolding figures rstrip
rstrip-figures [] h = refl
rstrip-figures (c ∷ s) h = rw (rstrip-figures s (ground arith)) (unless_figure c s (ground arith))

strip-figures : (s : Text) → figures s ≡ true → strip s ≡ s
unfolding strip
strip-figures s h = rw (lstrip-figures s h) (rstrip-figures s h)

digit_first : (zs : List ℕ) (d : ℕ) → ltb d 10 ≡ true → digit_from (48 ∷ zs) (48 + d) ≡ some d
unfolding digit_from
digit_first zs d h = let cancel : 48 + d - 48 ≡ d = omega arith in ground (arith, cancel)

digit_value-digit : (d : ℕ) → ltb d 10 ≡ true → digit_value (48 + d) ≡ some d
unfolding digit_value
digit_value-digit d h = search (digit_first)

digits_from-digit :
    (ready : Bool) (value d : ℕ) (s : Text)
    → ltb d 10 ≡ true
    → digits_from ready value ((48 + d) ∷ s) ≡ digits_from true (value * 10 + d) s
unfolding digits_from
digits_from-digit ready value d s h = ground (arith, digit_value-digit d h)

from_zero : (n : ℕ) → 0 * 10 + n ≡ n
from_zero n = omega arith

tens : (n : ℕ) → n / 10 * 10 + n % 10 ≡ n
tens n = omega arith

-- With the text of the number's front, in both cases of its size.
digits_by_size :
    (small : Bool) (front : Text) (n : ℕ) (s : Text)
    → ltb n 10 ≡ small
    → (ltb n 10 ≡ false
        → (t : Text) → digits_from false 0 (front ++ t) ≡ digits_from true (n / 10) t)
    → digits_from false 0 ((if small then (48 + n) ∷ [] else front ++ (48 + n % 10) ∷ []) ++ s)
      ≡ digits_from true n s
digits_by_size true front n s e ih =
    digits_from-digit false 0 n s e ∙ ap (λ m. digits_from true m s) (from_zero n)
digits_by_size false front n s e ih = rw (append_assoc front ((48 + n % 10) ∷ []) s) (
    ih e ((48 + n % 10) ∷ s)
    ∙ digits_from-digit true (n / 10) (n % 10) s (ground arith)
    ∙ ap (λ m. digits_from true m s) (tens n))

digits_from-decimal_from :
    (fuel n : ℕ) (s : Text)
    → ltb n fuel ≡ true
    → digits_from false 0 (decimal_from fuel n ++ s) ≡ digits_from true n s
unfolding decimal_from
digits_from-decimal_from zero n s h = absurd (ground arith)
digits_from-decimal_from (suc fuel) n s h =
    digits_by_size (ltb n 10) (decimal_from fuel (n / 10)) n s refl
      (λ large t. digits_from-decimal_from fuel (n / 10) t (ground arith))

figures_if :
    (small : Bool) (front : Text) (n : ℕ)
    → ltb n 10 ≡ small
    → figures front ≡ true
    → figures (if small then (48 + n) ∷ [] else front ++ (48 + n % 10) ∷ []) ≡ true
unfolding figures
figures_if true front n e h = ground arith
figures_if false front n e h = figures-append front ((48 + n % 10) ∷ []) h (ground arith)

pub figures-decimal_from : (fuel n : ℕ) → figures (decimal_from fuel n) ≡ true
unfolding decimal_from figures
figures-decimal_from zero n = refl
figures-decimal_from (suc fuel) n =
    let front = figures-decimal_from fuel (n / 10) in
    figures_if (ltb n 10) (decimal_from fuel (n / 10)) n refl front

digits_from-decimal : (n : ℕ) → digits_from false 0 (decimal n) ≡ some n
unfolding decimal digits_from
digits_from-decimal n =
    ap (digits_from false 0) (sym (append-nil (decimal_from (suc n) n)))
    ∙ digits_from-decimal_from (suc n) n [] (ground arith)

figures-decimal : (n : ℕ) → figures (decimal n) ≡ true
unfolding decimal
figures-decimal n = figures-decimal_from (suc n) n

minus_no_digit : digit_value b'-' ≡ none
unfolding digit_value digit_from
minus_no_digit = refl

plus_no_digit : digit_value b'+' ≡ none
unfolding digit_value digit_from
plus_no_digit = refl

starts_with_digit :
    (c : ℕ) (s : Text) (n : ℕ)
    → digits_from false 0 (c ∷ s) ≡ some n
    → ((c == b'-') ≡ false) × ((c == b'+') ≡ false)
unfolding digits_from
starts_with_digit c s n h = (ground (arith, minus_no_digit), ground (arith, plus_no_digit))

digits_of_none : (n : ℕ) → ¬ digits_from false 0 [] ≡ some n
unfolding digits_from
digits_of_none n h = cc

signed_digits : (t : Text) (n : ℕ) → digits_from false 0 t ≡ some n → signed t ≡ ok (pos n)
unfolding signed positive
signed_digits [] n h = absurd (digits_of_none n h)
signed_digits (c ∷ s) n h =
    let free = starts_with_digit c s n h in rw free.0 (rw free.1 (rw h refl))

signed_minus :
    (t : Text) (n : ℕ) → digits_from false 0 t ≡ some (suc n) → signed (b'-' ∷ t) ≡ ok (negsuc n)
unfolding signed negative
signed_minus t n h = rw h refl

figures_minus : (n : ℕ) → figures (b'-' ∷ decimal (suc n)) ≡ true
unfolding figures
figures_minus n = figures-decimal (suc n)

-- `int` of the text of an integer is that integer.
pub int_of-integer_text : (z : ℤ) → int_of (integer_text z) ≡ ok z
unfolding int_of integer_text
int_of-integer_text (pos n) =
    rw (strip-figures (decimal n) (figures-decimal n))
      (signed_digits (decimal n) n (digits_from-decimal n))
int_of-integer_text (negsuc n) =
    rw (strip-figures (b'-' ∷ decimal (suc n)) (figures_minus n))
      (signed_minus (decimal (suc n)) n (digits_from-decimal (suc n)))

pub figures-integer_text : (z : ℤ) → figures (integer_text z) ≡ true
unfolding integer_text
figures-integer_text (pos n) = figures-decimal n
figures-integer_text (negsuc n) = figures_minus n

-- A dot is no figure, so `split` takes the figures in front of it as one part.
pub split-figures : (s t : Text) → figures s ≡ true → split b'.' (s ++ b'.' ∷ t) ≡ s ∷ split b'.' t
unfolding figures split cons_first
split-figures [] t h = refl
split-figures (c ∷ s) t h =
    let rest = split-figures s t (ground arith) in
    let no_dot : (c == b'.') ≡ false = ground arith in rw no_dot (rw rest refl)

pub split-all_figures : (s : Text) → figures s ≡ true → split b'.' s ≡ s ∷ []
unfolding figures split cons_first
split-all_figures [] h = refl
split-all_figures (c ∷ s) h =
    let rest = split-all_figures s (ground arith) in
    let no_dot : (c == b'.') ≡ false = ground arith in rw no_dot (rw rest refl)
