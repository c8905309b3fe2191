-- ===== src/Py/Strings.antt =====
-- Methods of `str`.
use traust_contracts.Base.{
  ℕ, zero, suc, ◌==◌, leb, Text, Bool, ◌&&◌, ◌||◌, List, [], ◌∷◌, ◌++◌, if◌then◌else◌,
}

-- `c.isspace()`, which is `\s` too.
unfoldable pub is_space : ℕ → Bool
is_space c =
    leb 9 c && leb c 13
    || leb 28 c && leb c 32
    || c == 133
    || c == 160
    || c == 5760
    || leb 8192 c && leb c 8202
    || c == 8232
    || c == 8233
    || c == 8239
    || c == 8287
    || c == 12288

unfoldable pub lstrip : Text → Text
unfolding is_space
lstrip [] = []
lstrip (c ∷ s) = if is_space c then lstrip s else c ∷ s

unfoldable pub unless_space : ℕ → Text → Text
unfolding is_space
unless_space c [] = if is_space c then [] else c ∷ []
unless_space c (d ∷ s) = c ∷ d ∷ s

unfoldable pub rstrip : Text → Text
unfolding unless_space
rstrip [] = []
rstrip (c ∷ s) = unless_space c (rstrip s)

-- `s.strip()`
unfoldable pub strip : Text → Text
unfolding lstrip rstrip
strip s = rstrip (lstrip s)

-- `s[:n]`
unfoldable pub take : ℕ → Text → Text
take zero s = []
take (suc n) [] = []
take (suc n) (c ∷ s) = c ∷ take n s

unfoldable pub cons_first : ℕ → List Text → List Text
cons_first c [] = (c ∷ []) ∷ []
cons_first c (part ∷ parts) = (c ∷ part) ∷ parts

-- `s.split(sep)` for a separator of one character.
unfoldable pub split : ℕ → Text → List Text
unfolding cons_first
split sep [] = [] ∷ []
split sep (c ∷ s) = let parts = split sep s in if c == sep then [] ∷ parts else cons_first c parts

unfoldable pub last : Text → List Text → Text
last given [] = given
last given (part ∷ parts) = last part parts

-- `sep.join(parts)`
unfoldable pub join : Text → List Text → Text
join sep [] = []
join sep (part ∷ []) = part
join sep (part ∷ next ∷ parts) = part ++ sep ++ join sep (next ∷ parts)

-- Where `$` matches: at the end, or before a newline there.
unfoldable pub before_newline : Text → Text
before_newline [] = []
before_newline (c ∷ []) = if c == 10 then [] else c ∷ []
before_newline (c ∷ d ∷ s) = c ∷ before_newline (d ∷ s)

abbrev pub is_break : ℕ → Bool
is_break c = leb 10 c && leb c 13 || leb 28 c && leb c 30 || c == 133 || c == 8232 || c == 8233

-- `s.splitlines()`, with an empty line more at the end and between "\r" and "\n".
unfoldable pub line_parts : Text → List Text
unfolding cons_first
line_parts [] = [] ∷ []
line_parts (c ∷ s) =
    let parts = line_parts s in if is_break c then [] ∷ parts else cons_first c parts
