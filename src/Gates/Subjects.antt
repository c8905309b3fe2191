-- ===== src/Gates/Subjects.antt =====
-- ci/gates.py: HEADER_RE, MERGE_RE, REVERT_RE and `validate_subject`. A regular expression is the
-- function that matches it at the start of a text.
use traust_contracts.Base.{
  after, starts, ◌==◌, Text, codes, Bool, true, false, not, ◌&&◌, ◌||◌, List, [], ◌∷◌, Option, none,
  some, if◌then◌else◌,
}

-- The `type` group.
pub data Kind : Type 0 where
  build chore ci docs feat fix perf refactor revert style test : Kind

unfoldable pub kind_text : Kind → Text
unfolding codes
kind_text build = codes "build"
kind_text chore = codes "chore"
kind_text ci = codes "ci"
kind_text docs = codes "docs"
kind_text feat = codes "feat"
kind_text fix = codes "fix"
kind_text perf = codes "perf"
kind_text refactor = codes "refactor"
kind_text revert = codes "revert"
kind_text style = codes "style"
kind_text test = codes "test"

abbrev pub kinds : List Kind
kinds = build ∷ chore ∷ ci ∷ docs ∷ feat ∷ fix ∷ perf ∷ refactor ∷ revert ∷ style ∷ test ∷ []

-- The alternatives in order; none of them is a prefix of another.
unfoldable pub match_kind : List Kind → Text → Option (Kind × Text)
match_kind [] s = none
match_kind (k ∷ ks) s =
    let others = match_kind ks s in
    elim (after (kind_text k) s) [ none ↦ others | some rest ↦ some (k, rest) ]

-- `[^)]+\)`, after its first character: what is left after the parenthesis.
unfoldable pub close_scope : Text → Option Text
close_scope [] = none
close_scope (c ∷ s) = let rest = close_scope s in if c == 41 then some s else rest

-- `(?:\((?P<scope>[^)]+)\))?`: without the group the next character cannot match a parenthesis.
unfoldable pub match_scope : Text → Option Text
match_scope (c ∷ d ∷ s) =
    if c == 40 then (if d == 41 then none else close_scope s) else some (c ∷ d ∷ s)
match_scope s = some s

-- `(?P<breaking>!)?`
unfoldable pub match_breaking : Text → Bool × Text
match_breaking [] = (false, [])
match_breaking (c ∷ s) = if c == 33 then (true, s) else (false, c ∷ s)

-- The end of the text, or the line feed that ends it.
unfoldable pub line_end : Text → Bool
line_end [] = true
line_end (c ∷ []) = true
line_end (c ∷ d ∷ s) = let rest = line_end (d ∷ s) in if c == 10 then false else rest

-- `.+$`
unfoldable pub match_subject : Text → Bool
unfolding line_end
match_subject [] = false
match_subject (c ∷ s) = not (c == 10) && line_end (c ∷ s)

abbrev colon : Text
colon = 58 ∷ 32 ∷ []

-- `: (?P<subject>.+)$`
unfoldable pub match_tail : Text → Bool
unfolding match_subject after
match_tail s = elim (after colon s) [ none ↦ false | some subject ↦ match_subject subject ]

pub record Header : Type 0 where
  pub kind : Kind
  pub breaking : Bool

-- From the mark on.
unfoldable pub header_from_mark : Kind → Bool × Text → Option Header
unfolding match_tail
header_from_mark k (breaking, rest) =
    if match_tail rest then some (record { kind = k; breaking = breaking }) else none

unfoldable pub header_from_scope : Kind → Option Text → Option Header
unfolding match_breaking header_from_mark
header_from_scope k none = none
header_from_scope k (some rest) = header_from_mark k (match_breaking rest)

unfoldable pub header_from_kind : Option (Kind × Text) → Option Header
unfolding match_scope header_from_scope
header_from_kind none = none
header_from_kind (some (k, rest)) = header_from_scope k (match_scope rest)

-- `HEADER_RE.match(subject)`
unfoldable pub match_header : Text → Option Header
unfolding match_kind header_from_kind
match_header s = header_from_kind (match_kind kinds s)

-- `MERGE_RE.match(subject) or REVERT_RE.match(subject)`
unfoldable pub is_generated : Text → Bool
unfolding after codes
is_generated s =
    starts (codes "Merge branch ") s
    || starts (codes "Merge commit ") s
    || starts (codes "Merge remote-tracking branch ") s
    || starts (codes "Merge pull request ") s
    || starts (codes "Revert ") s

abbrev is_header : Option Header → Bool
is_header none = false
is_header (some h) = true

-- `validate_subject`: whether it finds no error.
unfoldable pub validate_subject : Text → Bool
validate_subject s = is_generated s || is_header (match_header s)
