-- ===== src/Downstream/Repin.antt =====
-- ci/bump_downstream.py: the key that `_pin_source` writes is the key that is found after it.
use traust_contracts.Base.{
  ◌≡◌, ◌≢◌, refl, sym, ◌∙◌, ap, Text, codes, after, true, false, some, [], ◌∷◌, ◌++◌, arith,
}
use mathlib.Core.List.{append_assoc}
use traust_contracts.Py.{is_space}
use traust_contracts.Downstream.Pins.{
  Split, cons_split, one, spaces, equals, until_quote, not_empty, quoted, Key, key_value,
  key_equals, key_word, key_rest, key_at, rev_key,
}
use traust_contracts.Downstream.Keys.{has_quote}
use traust_contracts.Downstream.Refill.{Parts, key_at-Parts, equals_again, sign_parts, one_parts}

-- A value that `"[^"]+"` matches.
pub record IsValue (sha : Text) : Type 0 where
  pub not_empty : sha ≢ []
  pub no_quote : has_quote sha ≡ false

until_quote_new :
    (sha rest : Text) → has_quote sha ≡ false → until_quote (sha ++ b'"' ∷ rest) ≡ some (sha, rest)
unfolding has_quote until_quote cons_split
until_quote_new [] rest h = refl
until_quote_new (c ∷ sha) rest h = ground (arith, until_quote_new sha rest)

quoted_new :
    (sha rest : Text) → IsValue sha → quoted (b'"' ∷ (sha ++ b'"' ∷ rest)) ≡ some (sha, rest)
unfolding quoted not_empty
quoted_new [] rest v = absurd (v.not_empty refl)
quoted_new (c ∷ sha) rest v = ap not_empty (until_quote_new (c ∷ sha) rest v.no_quote)

spaces-has_quote : (s : Text) → has_quote (spaces s).1 ≡ true → has_quote s ≡ true
unfolding spaces has_quote
spaces-has_quote [] h = h
spaces-has_quote (c ∷ s) h = ground (arith, spaces-has_quote s)

quoted-has_quote : (s : Text) (found : Split) → quoted s ≡ some found → has_quote s ≡ true
unfolding quoted has_quote
quoted-has_quote [] found h = absurd (cc)
quoted-has_quote (c ∷ s) found h = ground arith

has_quote_equals : (s : Text) → has_quote s ≡ true → has_quote (b'=' ∷ s) ≡ true
unfolding has_quote
has_quote_equals s h = h

equals-has_quote :
    (s gap tail : Text) → equals s ≡ some (gap, tail) → has_quote tail ≡ true → has_quote s ≡ true
unfolding equals has_quote
equals-has_quote s gap tail h q =
    let parts = sign_parts (spaces s).0 (one b'=' (spaces s).1) gap tail h in
    let sign = one_parts b'=' (spaces s).1 parts.0 parts.1 parts.2 in
    let beyond : has_quote parts.1 ≡ true =
      spaces-has_quote parts.1 (ap has_quote (sym parts.4) ∙ q) in
    spaces-has_quote s (ap has_quote sign.1 ∙ has_quote_equals parts.1 beyond)

pub Parts-has_quote : (s : Text) (key : Key) (p : Parts s key) → has_quote p.more ≡ true
Parts-has_quote s key p =
    equals-has_quote p.more key.gap p.tail p.sign
      (quoted-has_quote p.tail (key.value, key.rest) p.opened)

abbrev refilled : Key → Text → Key
refilled key sha = record key { value = sha }

unfoldable pub after_rev : Key → Text → Text
after_rev key sha = key.gap ++ b'"' ∷ (sha ++ b'"' ∷ key.rest)

pub rev_key-rev :
    (key : Key) (sha : Text) → rev_key key sha ≡ b'r' ∷ b'e' ∷ b'v' ∷ after_rev key sha
unfolding rev_key codes after_rev
rev_key-rev key sha =
    ap (λ x. b'r' ∷ b'e' ∷ b'v' ∷ x) (append_assoc key.gap (b'"' ∷ sha) (b'"' ∷ key.rest))

pub space_quote : is_space b'"' ≡ false
unfolding is_space
space_quote = refl

pub key_at-rev_key :
    (s : Text) (key : Key) (sha : Text)
    → key_at s ≡ some key
    → IsValue sha
    → key_at (rev_key key sha) ≡ some (record key { value = sha })
unfolding key_at key_word key_rest key_equals key_value after codes after_rev
key_at-rev_key s key sha h v =
    let p = key_at-Parts s key h in
    ap key_at (rev_key-rev key sha)
    ∙ ap key_equals
        (equals_again p.more key.gap p.tail (sha ++ b'"' ∷ key.rest) b'"' space_quote p.sign)
    ∙ ap (key_value key.gap) (quoted_new sha key.rest v)
