-- ===== src/Downstream/Urls.antt =====
-- ci/bump_downstream.py: the other expressions of `PinWriter` and that of `_remote_slug`.
use traust_contracts.Base.{
  ◌==◌, Text, codes, after, Bool, true, not, ◌&&◌, ◌||◌, Option, none, some, [], ◌∷◌, ◌++◌, Result,
  ok, err, chain_error, if◌then◌else◌,
}
use traust_contracts.Downstream.Pins.{Split, cons_split, one, spaces, equals, until_quote, quoted}

unfoldable pub prefixed : Text → Option Split → Option Split
prefixed front none = none
prefixed front (some (more, rest)) = some (front ++ more, rest)

-- One expression after another.
unfoldable pub followed : Option Split → (Text → Option Split) → Option Split
unfolding prefixed
followed none next = none
followed (some (front, s)) next = prefixed front (next s)

unfoldable pub literal : Text → Text → Option Split
unfolding after
literal word s = elim (after word s) [ none ↦ none | some rest ↦ some (word, rest) ]

-- `{dep}\s*=\s*\{\s*git\s*=\s*` at the start of a text.
unfoldable pub git_front : Text → Text → Option Split
unfolding followed literal equals one spaces codes
git_front dep s =
    followed
      (followed
        (followed (followed (followed (literal dep s) equals) (one b'{')) (λ t. some (spaces t)))
        (literal (codes "git")))
      equals

-- What is left after the url.
unfoldable pub skip_value : Option Split → Option Split
unfolding quoted
skip_value none = none
skip_value (some (front, s)) = elim (quoted s) [
  | none ↦ none
  | some (value, rest) ↦ some (front, rest)
]

unfoldable pub find_url : Text → Text → Option Split
unfolding git_front skip_value cons_split
find_url dep [] = none
find_url dep (c ∷ s) =
    let more = cons_split c (find_url dep s) in
    elim (skip_value (git_front dep (c ∷ s))) [ some found ↦ some found | none ↦ more ]

unfoldable pub set_url : Text → Option Split → Result Text
set_url url none = err chain_error
set_url url (some (front, rest)) = ok (front ++ b'"' ∷ url ++ b'"' ∷ rest)

-- `_retarget_url`
unfoldable pub retarget_url : Text → Text → Text → Result Text
unfolding find_url set_url
retarget_url text dep url = set_url url (find_url dep text)

unfoldable pub rest_of : Option Split → Option Text
rest_of none = none
rest_of (some (front, rest)) = some rest

-- `(?:[><=!~][^"]*)?"`
unfoldable pub floor_end : Option Text → Option Text
unfolding until_quote rest_of
floor_end none = none
floor_end (some []) = none
floor_end (some (c ∷ s)) =
    if c == b'"'
    then some s
    else if c == b'>' || c == b'<' || c == b'=' || c == b'!' || c == b'~'
    then rest_of (until_quote s)
    else none

-- `_drop_floor`: a text without a match is as it was.
unfoldable pub drop_floor : Text → Text → Text
unfolding after floor_end
drop_floor [] dep = []
drop_floor (c ∷ s) dep =
    let more = c ∷ drop_floor s dep in
    elim (floor_end (after (b'"' ∷ dep) (c ∷ s))) [
      | some rest ↦ b'"' ∷ dep ++ b'"' ∷ rest
      | none ↦ more
    ]

unfoldable pub until_slash : Text → Option Split
unfolding cons_split
until_slash [] = none
until_slash (c ∷ s) =
    let more = until_slash s in if c == b'/' then some ([], s) else cons_split c more

unfoldable pub no_slash : Text → Bool
no_slash [] = true
no_slash (c ∷ s) = not (c == b'/') && no_slash s

-- The shortest name of at least one character that leaves `.git` or nothing.
unfoldable pub without_git : Text → Text
unfolding after codes
without_git [] = []
without_git (c ∷ s) =
    let more = c ∷ without_git s in elim (after (codes ".git") s) [ some [] ↦ c ∷ [] | _ ↦ more ]

unfoldable pub slug_of : Option Split → Option Text
unfolding no_slash without_git
slug_of none = none
slug_of (some ([], name)) = none
slug_of (some (c ∷ owner, [])) = none
slug_of (some (c ∷ owner, d ∷ name)) =
    if no_slash (d ∷ name) then some (c ∷ owner ++ b'/' ∷ without_git (d ∷ name)) else none

-- `[:/]([^/]+/[^/]+?)(?:\.git)?$`; the url is stripped, so it ends in no newline.
unfoldable pub find_slug : Text → Option Text
unfolding until_slash slug_of
find_slug [] = none
find_slug (c ∷ s) =
    let more = find_slug s in
    if c == b':' || c == b'/'
    then elim (slug_of (until_slash s)) [ some slug ↦ some slug | none ↦ more ]
    else more
