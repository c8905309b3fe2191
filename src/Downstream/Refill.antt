-- ===== src/Downstream/Refill.antt =====
-- ci/bump_downstream.py: a key whose value is replaced is found with the new value, and no key is
-- found in front of it.
use traust_contracts.Base.{
  ℕ, ◌==◌, ◌≡◌, refl, sym, ◌∙◌, ap, Text, codes, after, Bool, true, false, ◌&&◌, ◌||◌, Option, none,
  some, [], ◌∷◌, ◌++◌, arith,
}
use mathlib.Core.List.{append_assoc}
use traust_contracts.Py.{is_space}
use traust_contracts.Downstream.Pins.{
  Split, one, spaces, then_spaces, equals, quoted, Key, key_value, key_equals, key_word, key_rest,
  key_at,
}
use traust_contracts.Downstream.Keys.{is_some, opens_key, equals-opens_key}

unfoldable pub is_word : ℕ → ℕ → ℕ → Bool
is_word a b c = a == b't' && b == b'a' && c == b'g' || a == b'r' && b == b'e' && c == b'v'

unfoldable pub opens_word : Text → Bool
opens_word (a ∷ b ∷ c ∷ s) = is_word a b c && opens_key s
opens_word _ = false

pub key_at-opens_word : (s : Text) → is_some (key_at s) ≡ opens_word s
unfolding key_at key_word key_rest opens_word is_word after codes
key_at-opens_word [] = refl
key_at-opens_word (a ∷ []) = ground arith
key_at-opens_word (a ∷ b ∷ []) = ground arith
key_at-opens_word (a ∷ b ∷ c ∷ s) = ground (arith, equals-opens_key s)

-- The parts of a key that is found.
pub record Parts (s : Text) (key : Key) : Type 0 where
  pub a : ℕ
  pub b : ℕ
  pub c : ℕ
  pub more : Text
  pub tail : Text
  pub whole : s ≡ a ∷ b ∷ c ∷ more
  pub word : is_word a b c ≡ true
  pub sign : equals more ≡ some (key.gap, tail)
  pub opened : quoted tail ≡ some (key.value, key.rest)

value_parts :
    (gap : Text) (found : Option Split) (key : Key)
    → key_value gap found ≡ some key
    → (gap ≡ key.gap) × (found ≡ some (key.value, key.rest))
unfolding key_value
value_parts gap none key h = absurd (cc)
value_parts gap (some (value, rest)) key h = (ground arith, ground arith)

equals_parts :
    (found : Option Split) (key : Key)
    → key_equals found ≡ some key
    → (tail : Text) × (found ≡ some (key.gap, tail)) × (quoted tail ≡ some (key.value, key.rest))
unfolding key_equals
equals_parts none key h = absurd (cc)
equals_parts (some (gap, tail)) key h =
    let parts = value_parts gap (quoted tail) key h in
    (tail, ap (λ g. some (g, tail)) parts.0, parts.1)

pub key_at-Parts : (s : Text) (key : Key) → key_at s ≡ some key → Parts s key
unfolding key_at key_word after codes is_word
key_at-Parts [] key h = absurd (ground (arith))
key_at-Parts (a ∷ []) key h = absurd (ground (arith))
key_at-Parts (a ∷ b ∷ []) key h = absurd (ground (arith))
key_at-Parts (a ∷ b ∷ c ∷ s) key h =
    let word : is_word a b c ≡ true = ground arith in
    let found = equals_parts (equals s) key (ground arith) in
    record {
      a = a;
      b = b;
      c = c;
      more = s;
      tail = found.0;
      whole = refl;
      word = word;
      sign = found.1;
      opened = found.2;
    }

-- White space that was split off is split off again.
spaces_again :
    (s z : Text) (d : ℕ)
    → is_space d ≡ false
    → spaces ((spaces s).0 ++ d ∷ z) ≡ ((spaces s).0, d ∷ z)
unfolding spaces
spaces_again [] z d h = ground arith
spaces_again (c ∷ s) z d h = ground (arith, spaces_again s z d h)

pub one_parts :
    (c : ℕ) (s : Text) (front rest : Text)
    → one c s ≡ some (front, rest)
    → (front ≡ c ∷ []) × (s ≡ c ∷ rest)
unfolding one
one_parts c [] front rest h = absurd (cc)
one_parts c (d ∷ s) front rest h = (ground arith, ground arith)

space_equals : is_space b'=' ≡ false
unfolding is_space
space_equals = refl

pub sign_parts :
    (front : Text) (found : Option Split) (gap tail : Text)
    → then_spaces front found ≡ some (gap, tail)
    → (sign : Text) × (after_sign : Text) × (found ≡ some (sign, after_sign))
      × (gap ≡ front ++ sign ++ (spaces after_sign).0)
      × (tail ≡ (spaces after_sign).1)
unfolding then_spaces
sign_parts front none gap tail h = absurd (cc)
sign_parts front (some (sign, s)) gap tail h = (sign, s, refl, ground arith, ground arith)

-- The parts of `\s*=\s*`.
pub record Sign (gap : Text) : Type 0 where
  pub before : Text
  pub beyond : Text
  pub whole : gap ≡ (spaces before).0 ++ b'=' ∷ (spaces beyond).0

pub equals-Sign : (s gap tail : Text) → equals s ≡ some (gap, tail) → Sign gap
unfolding equals
equals-Sign s gap tail h =
    let parts = sign_parts (spaces s).0 (one b'=' (spaces s).1) gap tail h in
    let sign = one_parts b'=' (spaces s).1 parts.0 parts.1 parts.2 in
    record {
      before = s;
      beyond = parts.1;
      whole =
          parts.3
          ∙ ap (λ x. (spaces s).0 ++ x ++ (spaces parts.1).0) sign.0
          ∙ append_assoc (spaces s).0 (b'=' ∷ []) (spaces parts.1).0;
    }

equals_front :
    (front t : Text)
    → spaces (front ++ b'=' ∷ t) ≡ (front, b'=' ∷ t)
    → equals (front ++ b'=' ∷ t) ≡ some (front ++ b'=' ∷ (spaces t).0, (spaces t).1)
unfolding equals one then_spaces
equals_front front t h =
    rw h (ap (λ x. some (x, (spaces t).1)) (append_assoc front (b'=' ∷ []) (spaces t).0))

-- `\s*=\s*` matches again what it has matched, in front of another text.
pub equals_again :
    (s gap tail z : Text) (d : ℕ)
    → is_space d ≡ false
    → equals s ≡ some (gap, tail)
    → equals (gap ++ d ∷ z) ≡ some (gap, d ∷ z)
equals_again s gap tail z d h e =
    let sign = equals-Sign s gap tail e in
    let f = (spaces sign.before).0 in
    let b = (spaces sign.beyond).0 in
    ap (λ x. equals (x ++ d ∷ z)) sign.whole
    ∙ ap equals (append_assoc f (b'=' ∷ b) (d ∷ z))
    ∙ equals_front f (b ++ d ∷ z) (spaces_again sign.before (b ++ d ∷ z) b'=' space_equals)
    ∙ ap (λ x. some (f ++ b'=' ∷ x.0, x.1)) (spaces_again sign.beyond z d h)
    ∙ ap (λ x. some (x, d ∷ z)) (sym sign.whole)

spaces_whole : (s : Text) → s ≡ (spaces s).0 ++ (spaces s).1
unfolding spaces
spaces_whole [] = refl
spaces_whole (c ∷ s) = ground (arith, spaces_whole s)

pub equals_whole : (s gap tail : Text) → equals s ≡ some (gap, tail) → s ≡ gap ++ tail
unfolding equals
equals_whole s gap tail h =
    let parts = sign_parts (spaces s).0 (one b'=' (spaces s).1) gap tail h in
    let sign = one_parts b'=' (spaces s).1 parts.0 parts.1 parts.2 in
    let f = (spaces s).0 in
    let b = (spaces parts.1).0 in
    spaces_whole s
    ∙ ap (λ x. f ++ x)
        (sign.1 ∙ ap (λ x. b'=' ∷ x) (spaces_whole parts.1 ∙ ap (λ x. b ++ x) (sym parts.4)))
    ∙ sym (append_assoc f (b'=' ∷ b) tail)
    ∙ ap (λ x. x ++ tail) (sym (append_assoc f (b'=' ∷ []) b))
    ∙ ap (λ x. f ++ x ++ b ++ tail) (sym sign.0)
    ∙ ap (λ x. x ++ tail) (sym parts.3)
