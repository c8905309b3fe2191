-- ===== src/Base/Texts.antt =====
-- Python's `str` as the list of its code points, lone surrogates included.
use Prim.Native.Nat.{ℕ}
use Prim.Native.Char.{code}
use Prim.Native.String.{String}
use mathlib.Core.Path.{◌≡◌, refl}
use mathlib.Core.Logic.{◌↔◌}
use mathlib.Core.Bool.{Bool, true, false, not, ◌&&◌, ◌||◌}
use mathlib.Core.Option.{Option, none, some}
use mathlib.Core.List.{List, [], ◌∷◌, ◌++◌}
use native.Mathlib.Omega.{arith}
use traust_contracts.Base.Tests.{◌==◌, if◌then◌else◌}

abbrev pub Text : Type 0
Text = List ℕ

-- The code points of a literal of the source.
unfoldable pub codes : String → Text
codes String.[] = []
codes (String.◌∷◌ c s) = code c ∷ codes s

-- `s == t`
unfoldable pub text_eq : Text → Text → Bool
text_eq [] [] = true
text_eq [] (d ∷ t) = false
text_eq (c ∷ s) [] = false
text_eq (c ∷ s) (d ∷ t) = c == d && text_eq s t

pub text_eq_refl : (s : Text) → text_eq s s ≡ true
unfolding text_eq
text_eq_refl [] = refl
text_eq_refl (c ∷ s) = ground (arith, text_eq_refl s)

pub text_eq_sound : (s t : Text) → text_eq s t ≡ true → s ≡ t
unfolding text_eq
text_eq_sound [] [] h = refl
text_eq_sound [] (d ∷ t) h = cc
text_eq_sound (c ∷ s) [] h = cc
text_eq_sound (c ∷ s) (d ∷ t) h = ground (arith, text_eq_sound s t)

pub text_eq_iff : (s t : Text) → (text_eq s t ≡ true) ↔ (s ≡ t)
text_eq_iff s t = (text_eq_sound s t, λ e. rw e (text_eq_refl t))

-- Equality of `str | None` values.
unfoldable pub option_text_eq : Option Text → Option Text → Bool
option_text_eq none none = true
option_text_eq none (some t) = false
option_text_eq (some s) none = false
option_text_eq (some s) (some t) = text_eq s t

pub option_text_eq_iff : (s t : Option Text) → (option_text_eq s t ≡ true) ↔ (s ≡ t)
unfolding option_text_eq
option_text_eq_iff none none = ground arith
option_text_eq_iff none (some t) = ground arith
option_text_eq_iff (some s) none = ground arith
option_text_eq_iff (some s) (some t) = ground (arith, text_eq_iff s t)

pub option_text_eq_refl : (s : Option Text) → option_text_eq s s ≡ true
option_text_eq_refl s = (option_text_eq_iff s s).1 refl

-- `s == "literal"`
unfoldable pub is : Text → String → Bool
unfolding codes text_eq
is s literal = text_eq s (codes literal)

-- `s in (...)`
unfoldable pub elem : Text → List Text → Bool
unfolding text_eq
elem s [] = false
elem s (t ∷ ts) = text_eq s t || elem s ts

-- No text twice.
unfoldable pub distinct_texts : List Text → Bool
unfolding elem
distinct_texts [] = true
distinct_texts (s ∷ ss) = not (elem s ss) && distinct_texts ss

pub elem-append : (s : Text) (xs ys : List Text) → elem s (xs ++ ys) ≡ (elem s xs || elem s ys)
unfolding elem
elem-append s [] ys = refl
elem-append s (x ∷ xs) ys = ground (arith, elem-append s xs ys)

-- What is left of a text after the prefix.
unfoldable pub after : Text → Text → Option Text
after [] s = some s
after (c ∷ p) [] = none
after (c ∷ p) (d ∷ s) = let rest = after p s in if c == d then rest else none

abbrev pub starts : Text → Text → Bool
starts p s = elim (after p s) [ none ↦ false | some rest ↦ true ]
