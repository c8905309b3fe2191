-- ===== src/Downstream/Keys.antt =====
-- ci/bump_downstream.py: the expression for `tag = "..."` or `rev = "..."`, on a text in which the
-- value is replaced.
use traust_contracts.Base.{
  ℕ, ◌==◌, ◌≡◌, ◌≢◌, refl, Text, Bool, true, false, ◌&&◌, ◌||◌, Option, none, some, [], ◌∷◌, ◌++◌,
  arith, if◌then◌else◌,
}
use traust_contracts.Py.{is_space}
use traust_contracts.Downstream.Pins.{
  cons_split, one, spaces, then_spaces, equals, until_quote, not_empty, quoted, key_value,
  key_equals,
}

unfoldable pub has_quote : Text → Bool
has_quote [] = false
has_quote (c ∷ s) = c == b'"' || has_quote s

abbrev pub is_some {ℓ} : {A : Type ℓ} → Option A → Bool
is_some none = false
is_some (some a) = true

-- Whether `\s*"[^"]+"` and `\s*=\s*"[^"]+"` match.
unfoldable pub opens_value : Text → Bool
opens_value [] = false
opens_value (c ∷ s) = if is_space c then opens_value s else is_some (quoted (c ∷ s))

unfoldable pub opens_key : Text → Bool
opens_key [] = false
opens_key (c ∷ s) = if is_space c then opens_key s else c == b'=' && opens_value s

spaces-opens_value : (s : Text) → is_some (quoted (spaces s).1) ≡ opens_value s
unfolding spaces opens_value quoted
spaces-opens_value [] = refl
spaces-opens_value (c ∷ s) = ground (arith, spaces-opens_value s)

has_quote-append : (x y : Text) → has_quote (x ++ y) ≡ (has_quote x || has_quote y)
unfolding has_quote
has_quote-append [] y = refl
has_quote-append (c ∷ x) y = ground (arith, has_quote-append x y)

has_quote_later : (c : ℕ) (s : Text) → has_quote s ≡ true → has_quote (c ∷ s) ≡ true
unfolding has_quote
has_quote_later c s h = ground arith

until_quote-some : (s : Text) → has_quote s ≡ true → until_quote s ≢ none
unfolding has_quote until_quote cons_split
until_quote-some [] h e = absurd (cc)
until_quote-some (c ∷ s) h e = ground (arith, until_quote-some s)

quoted-some :
    (x f o : Text) (c d : ℕ)
    → (c == b'"') ≡ false
    → (d == b'"') ≡ false
    → has_quote o ≡ true
    → is_some (quoted (x ++ c ∷ f)) ≡ true
    → is_some (quoted (x ++ d ∷ o)) ≡ true
unfolding quoted until_quote not_empty cons_split
quoted-some [] f o c d hc hd q h = ground arith
quoted-some (e ∷ []) f o c d hc hd q h = ground (arith, until_quote-some o)
quoted-some (e ∷ e' ∷ x) f o c d hc hd q h =
    ground (arith, until_quote-some (x ++ d ∷ o), has_quote-append x (d ∷ o), has_quote_later d o)

-- `equals` and the value, by the tests above.
pub equals-opens_key : (s : Text) → is_some (key_equals (equals s)) ≡ opens_key s
unfolding equals spaces then_spaces key_equals key_value one opens_key
equals-opens_key [] = refl
equals-opens_key (c ∷ s) =
    ground (arith, equals-opens_key s, spaces-opens_value s, spaces-opens_value (c ∷ s))

pub space_r : is_space b'r' ≡ false
unfolding is_space
space_r = refl

-- A value that opens in what replaces a key opened in front of the key.
module _ (f o : Text) (d : ℕ) (space : is_space d ≡ false) (quote : (d == b'"') ≡ false)
    (sign : (d == b'=') ≡ false) (q : has_quote o ≡ true) where
  opens_value_back :
      (x : Text) → opens_value (x ++ b'r' ∷ f) ≡ true → opens_value (x ++ d ∷ o) ≡ true
  unfolding opens_value quoted
  opens_value_back [] h = absurd (ground (arith, space_r))
  opens_value_back (c ∷ x) h = ground (arith, opens_value_back x, quoted-some (c ∷ x) f o b'r' d)

  pub opens_key_back : (x : Text) → opens_key (x ++ b'r' ∷ f) ≡ true → opens_key (x ++ d ∷ o) ≡ true
  unfolding opens_key
  opens_key_back [] h = absurd (ground (arith, space_r))
  opens_key_back (c ∷ x) h = ground (arith, opens_key_back x, opens_value_back x)
