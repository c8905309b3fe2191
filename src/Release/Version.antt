-- ===== src/Release/Version.antt =====
-- src/release.py: `semver_tuple`, `bump_version`, and the expressions for a version.
use traust_contracts.Base.{
  ℕ, ◌==◌, Text, codes, is, after, Bool, true, false, not, ◌&&◌, ◌||◌, Option, none, some, List, [],
  ◌∷◌, ◌++◌, Result, ok, err, ◌>>=◌, value_error, release_error, ltb, if◌then◌else◌,
}
use traust_contracts.Py.{
  ℤ, pos, negsuc, int_eq, int_of, integer_text, plus_one, all_digits, split, before_newline,
}

unfoldable pub ints : List Text → Result (List ℤ)
unfolding int_of
ints [] = ok []
ints (part ∷ parts) = int_of part >>= λ n. ints parts >>= λ more. ok (n ∷ more)

-- `tuple(map(int, version.split(".")))`
unfoldable pub semver_tuple : Text → Result (List ℤ)
unfolding ints split
semver_tuple version = ints (split b'.' version)

unfoldable pub int_lt : ℤ → ℤ → Bool
int_lt (pos a) (pos b) = ltb a b
int_lt (pos a) (negsuc b) = false
int_lt (negsuc a) (pos b) = true
int_lt (negsuc a) (negsuc b) = ltb b a

-- `<` and `==` of tuples.
unfoldable pub tuple_lt : List ℤ → List ℤ → Bool
unfolding int_lt int_eq
tuple_lt [] [] = false
tuple_lt [] (b ∷ bs) = true
tuple_lt (a ∷ as_) [] = false
tuple_lt (a ∷ as_) (b ∷ bs) = let rest = tuple_lt as_ bs in int_lt a b || int_eq a b && rest

unfoldable pub tuple_eq : List ℤ → List ℤ → Bool
unfolding int_eq
tuple_eq [] [] = true
tuple_eq [] (b ∷ bs) = false
tuple_eq (a ∷ as_) [] = false
tuple_eq (a ∷ as_) (b ∷ bs) = int_eq a b && tuple_eq as_ bs

-- `BUMP_PARTS`
pub data Part : Type 0 where
  major minor patch : Part

unfoldable pub part_of : Text → Option Part
unfolding is
part_of part =
    if is part "major"
    then some major
    else if is part "minor"
    then some minor
    else if is part "patch"
    then some patch
    else none

abbrev pub is_empty : Text → Bool
is_empty [] = true
is_empty (c ∷ s) = false

unfoldable pub digits : Text → Bool
unfolding all_digits
digits s = not (is_empty s) && all_digits s

unfoldable pub three_digits : List Text → Bool
unfolding digits
three_digits (a ∷ b ∷ c ∷ []) = digits a && digits b && digits c
three_digits _ = false

-- `SEMVER.match`
unfoldable pub is_semver : Text → Bool
unfolding three_digits split before_newline
is_semver s = three_digits (split b'.' (before_newline s))

unfoldable pub dotted : ℤ → ℤ → ℤ → Text
unfolding integer_text
dotted a b c = integer_text a ++ b'.' ∷ (integer_text b ++ b'.' ∷ integer_text c)

unfoldable pub bumped : Part → List ℤ → Result Text
unfolding dotted plus_one
bumped major (a ∷ b ∷ c ∷ []) = ok (dotted (plus_one a) (pos 0) (pos 0))
bumped minor (a ∷ b ∷ c ∷ []) = ok (dotted a (plus_one b) (pos 0))
bumped patch (a ∷ b ∷ c ∷ []) = ok (dotted a b (plus_one c))
bumped _ _ = err value_error

unfoldable pub bump_by : Text → Text → Option Part → Result Text
unfolding semver_tuple bumped is_semver
bump_by current text (some part) = semver_tuple current >>= λ version. bumped part version
bump_by current text none = if is_semver text then ok text else err release_error

unfoldable pub bump_version : Text → Text → Result Text
unfolding part_of bump_by
bump_version current part = bump_by current part (part_of part)

-- `version = "([^"]+)"` at the start of a line, with what is in front of it and behind it.
pub record VersionLine : Type 0 where
  pub front : Text
  pub version : Text
  pub rest : Text

unfoldable pub quoted_version : Text → Option (Text × Text)
quoted_version [] = none
quoted_version (c ∷ s) =
    let more = quoted_version s in
    if c == b'"'
    then some ([], s)
    else elim more [ none ↦ none | some (value, rest) ↦ some (c ∷ value, rest) ]

unfoldable pub version_value : Option (Text × Text) → Option VersionLine
version_value none = none
version_value (some ([], rest)) = none
version_value (some (c ∷ value, rest)) =
    some (record { front = []; version = c ∷ value; rest = rest })

unfoldable pub version_here : Text → Option VersionLine
unfolding after codes quoted_version version_value
version_here s = elim (after (codes "version = " ++ b'"' ∷ []) s) [
  | none ↦ none
  | some rest ↦ version_value (quoted_version rest)
]

unfoldable pub in_front : ℕ → Option VersionLine → Option VersionLine
in_front c none = none
in_front c (some line) = some (record line { front = c ∷ line.front })

unfoldable pub first_line : Option VersionLine → Option VersionLine → Option VersionLine
first_line (some line) later = some line
first_line none later = later

unfoldable pub find_version : (at_start : Bool) → Text → Option VersionLine
unfolding version_here in_front first_line
find_version at_start [] = none
find_version at_start (c ∷ s) =
    let later = in_front c (find_version (c == 10) s) in
    if at_start then first_line (version_here (c ∷ s)) later else later
