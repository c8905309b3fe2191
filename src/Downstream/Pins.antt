-- ===== src/Downstream/Pins.antt =====
-- ci/bump_downstream.py: `PinWriter`'s regular expressions over the text of pyproject.toml, and the
-- one that reads owner/repo from a remote's url. Each is the function that matches it. The text that
-- replaces a match has no backslash: it is a url or a commit's hash.
use traust_contracts.Base.{
  ℕ, ◌==◌, Text, codes, after, Option, none, some, [], ◌∷◌, ◌++◌, Result, ok, err, chain_error,
  if◌then◌else◌,
}
use traust_contracts.Py.{is_space}

-- What a group matched and what is left of the text.
abbrev pub Split : Type 0
Split = Text × Text

unfoldable pub cons_split : ℕ → Option Split → Option Split
cons_split c none = none
cons_split c (some (front, rest)) = some (c ∷ front, rest)

unfoldable pub one : ℕ → Text → Option Split
one c [] = none
one c (d ∷ s) = if d == c then some (c ∷ [], s) else none

-- `\s*`; no character that follows it in an expression here is white space.
unfoldable pub spaces : Text → Split
spaces [] = ([], [])
spaces (c ∷ s) =
    let (front, rest) = spaces s in if is_space c then (c ∷ front, rest) else ([], c ∷ s)

unfoldable pub then_spaces : Text → Option Split → Option Split
unfolding spaces
then_spaces front none = none
then_spaces front (some (middle, s)) =
    let (back, rest) = spaces s in some (front ++ middle ++ back, rest)

-- `\s*=\s*`
unfoldable pub equals : Text → Option Split
unfolding spaces one then_spaces
equals s = let (front, rest) = spaces s in then_spaces front (one b'=' rest)

unfoldable pub until_quote : Text → Option Split
unfolding cons_split
until_quote [] = none
until_quote (c ∷ s) =
    let more = until_quote s in if c == b'"' then some ([], s) else cons_split c more

unfoldable pub not_empty : Option Split → Option Split
not_empty none = none
not_empty (some ([], rest)) = none
not_empty (some (c ∷ front, rest)) = some (c ∷ front, rest)

-- `"([^"]+)"`
unfoldable pub quoted : Text → Option Split
unfolding until_quote not_empty
quoted [] = none
quoted (c ∷ s) = if c == b'"' then not_empty (until_quote s) else none

-- `tag` or `rev`, with what is between it and the value.
pub record Key : Type 0 where
  pub gap : Text
  pub value : Text
  pub rest : Text

unfoldable pub key_value : Text → Option Split → Option Key
key_value gap none = none
key_value gap (some (value, rest)) = some (record { gap = gap; value = value; rest = rest })

unfoldable pub key_equals : Option Split → Option Key
unfolding quoted key_value
key_equals none = none
key_equals (some (gap, s)) = key_value gap (quoted s)

unfoldable pub key_word : Text → Option Text
unfolding after codes
key_word s = elim (after (codes "tag") s) [ some rest ↦ some rest | none ↦ after (codes "rev") s ]

unfoldable pub key_rest : Option Text → Option Key
unfolding equals key_equals
key_rest none = none
key_rest (some s) = key_equals (equals s)

-- `(?:tag|rev)\s*=\s*"([^"]+)"`
unfoldable pub key_at : Text → Option Key
unfolding key_word key_rest
key_at s = key_rest (key_word s)

-- A match: the text in front of the key, and the key.
abbrev pub Entry : Type 0
Entry = Text × Key

unfoldable pub cons_entry : ℕ → Option Entry → Option Entry
cons_entry c none = none
cons_entry c (some (front, key)) = some (c ∷ front, key)

-- A key at the front, or one further on in front of which there is no brace.
unfoldable pub choose_key : ℕ → Option Key → Option Entry → Option Entry
choose_key c (some key) more = some ([], key)
choose_key c none more = if c == b'}' then none else more

-- `[^}]*?`, as short as can be, and the key.
unfoldable pub find_key : Text → Option Entry
unfolding choose_key cons_entry
find_key [] = none
find_key (c ∷ s) = choose_key c (key_at (c ∷ s)) (cons_entry c (find_key s))

unfoldable pub in_front : Text → Option Entry → Option Entry
in_front front none = none
in_front front (some (more, key)) = some (front ++ more, key)

unfoldable pub after_brace : Text → Option Split → Option Entry
unfolding find_key in_front
after_brace front none = none
after_brace front (some (brace, s)) = in_front (front ++ brace) (find_key s)

unfoldable pub after_equals : Text → Option Split → Option Entry
unfolding one after_brace
after_equals dep none = none
after_equals dep (some (gap, s)) = after_brace (dep ++ gap) (one b'{' s)

unfoldable pub after_name : Text → Option Text → Option Entry
unfolding equals after_equals
after_name dep none = none
after_name dep (some s) = after_equals dep (equals s)

-- `{dep}\s*=\s*\{[^}]*?(?:tag|rev)\s*=\s*"([^"]+)"` at the start of a text, and its first match.
unfoldable pub pin_at : Text → Text → Option Entry
unfolding after after_name
pin_at dep s = after_name dep (after dep s)

unfoldable pub or_pin : Option Entry → Option Entry → Option Entry
or_pin (some entry) more = some entry
or_pin none more = more

unfoldable pub find_pin : Text → Text → Option Entry
unfolding or_pin cons_entry
find_pin dep [] = none
find_pin dep (c ∷ s) = or_pin (pin_at dep (c ∷ s)) (cons_entry c (find_pin dep s))

unfoldable pub entry_value : Option Entry → Option Text
entry_value none = none
entry_value (some (front, key)) = some key.value

-- `current_pin`, on the file's text.
unfoldable pub pin_in : Text → Text → Option Text
unfolding find_pin entry_value
pin_in dep text = entry_value (find_pin dep text)

unfoldable pub rev_key : Key → Text → Text
unfolding codes
rev_key key sha = codes "rev" ++ key.gap ++ b'"' ∷ sha ++ b'"' ∷ key.rest

unfoldable pub set_rev : Text → Option Entry → Result Text
unfolding rev_key
set_rev sha none = err chain_error
set_rev sha (some (front, key)) = ok (front ++ rev_key key sha)

-- `_pin_source`
unfoldable pub pin_source : Text → Text → Text → Result Text
unfolding find_pin set_rev
pin_source text dep sha = set_rev sha (find_pin dep text)
