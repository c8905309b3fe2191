-- ===== src/Config/Slug.antt =====
-- config.py: `scope_slug`. The tables of `str.lower` and `str.isalnum` are parameters.
use traust_contracts.Base.{
  ℕ, zero, suc, ◌==◌, Text, Bool, false, not, ◌&&◌, ◌||◌, [], ◌∷◌, map, length, if◌then◌else◌,
}

-- Python's `str.lower` and, on one character, `str.isalnum`.
pub record Characters : Type 0 where
  pub lower : Text → Text
  pub is_alnum : ℕ → Bool

abbrev pub dash : ℕ
dash = 45

unfoldable pub starts_dash : Text → Bool
starts_dash [] = false
starts_dash (c ∷ s) = c == dash

-- `"--" in slug`
unfoldable pub has_double : Text → Bool
unfolding starts_dash
has_double [] = false
has_double (c ∷ s) = c == dash && starts_dash s || has_double s

-- `slug.replace("--", "-")`, from left to right; `pending` says that a dash before `s` is not yet
-- written.
unfoldable pub replace_doubles : (pending : Bool) → Text → Text
replace_doubles pending [] = if pending then dash ∷ [] else []
replace_doubles pending (c ∷ s) =
    let rest = replace_doubles (not pending && c == dash) s in
    if c == dash
    then if pending then dash ∷ rest else rest
    else if pending
    then dash ∷ c ∷ rest
    else c ∷ rest

-- The `while` loop.
unfoldable pub collapse : (fuel : ℕ) → Text → Text
unfolding replace_doubles has_double
collapse zero s = s
collapse (suc fuel) s =
    let rest = collapse fuel (replace_doubles false s) in if has_double s then rest else s

unfoldable pub strip_left : Text → Text
strip_left [] = []
strip_left (c ∷ s) = if c == dash then strip_left s else c ∷ s

unfoldable pub keep_right : ℕ → Text → Text
keep_right c [] = if c == dash then [] else c ∷ []
keep_right c (d ∷ s) = c ∷ d ∷ s

unfoldable pub strip_right : Text → Text
unfolding keep_right
strip_right [] = []
strip_right (c ∷ s) = keep_right c (strip_right s)

unfoldable pub dashed : Characters → Text → Text
dashed chars value = map (λ c. if chars.is_alnum c then c else dash) (chars.lower value)

unfoldable pub scope_slug : Characters → Text → Text
unfolding collapse strip_left strip_right dashed
scope_slug chars value =
    let slug = dashed chars value in strip_right (strip_left (collapse (length slug) slug))
