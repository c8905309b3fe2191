-- ===== src/Storage/Values/Defs.antt =====
-- store.py: `_integer`, `_boolean`, `_projected_text`, `_json_or_none`, the threat score and rating
-- columns, and `_skip_reason`.
use traust_contracts.Base.{
  ℕ, ◌*◌, Text, codes, Bool, true, false, ◌||◌, List, [], ◌∷◌, ◌++◌, Option, none, some,
  if◌then◌else◌, ◌==◌, Result, ok, err, value_error, attribute_error, type_error, driver_error,
  ◌>>=◌,
}
use traust_contracts.Py.{
  ℤ, pos, integral, Json, bool, int, float, str, arr, obj, get, or_else, truthy, each, is_text,
  all_finite,
}
use traust_contracts.Storage.Db.{SqlValue, null, text, integer, real, document}

-- What the driver makes of a parameter that is passed on as it is: a list or a dict is refused.
unfoldable pub bind : Json → Result SqlValue
bind Json.null = ok null
bind (bool b) = ok (integer (pos (if b then 1 else 0)))
bind (int i) = ok (integer i)
bind (float x) = ok (real x)
bind (str s) = ok (text s)
bind (arr vs) = err driver_error
bind (obj fs) = err driver_error

abbrev optional_integer : Option ℤ → Result SqlValue
optional_integer none = err value_error
optional_integer (some i) = ok (integer i)

-- `_integer`: an int or an integral float; a bool is no int here.
unfoldable pub integer_value : Json → Result SqlValue
unfolding integral
integer_value Json.null = ok null
integer_value (int i) = ok (integer i)
integer_value (float x) = optional_integer (integral x)
integer_value _ = err value_error

-- `_boolean`: absent stays absent.
unfoldable pub boolean_value : Json → Result SqlValue
boolean_value Json.null = ok null
boolean_value (bool b) = ok (integer (pos (if b then 1 else 0)))
boolean_value _ = err value_error

-- The six characters that stand for a NUL.
unfoldable pub escape_nul : Text → Text
unfolding codes
escape_nul [] = []
escape_nul (c ∷ s) = if c == 0 then codes "\\u0000" ++ escape_nul s else c ∷ escape_nul s

-- `_projected_text`
unfoldable pub projected_text : Json → Result SqlValue
unfolding escape_nul
projected_text Json.null = ok null
projected_text (str s) = ok (text (escape_nul s))
projected_text _ = err attribute_error

-- `_json_or_none`
unfoldable pub json_or_none : Json → Result SqlValue
unfolding all_finite
json_or_none Json.null = ok null
json_or_none v = if all_finite v then ok (document v) else err value_error

-- _IMPACT_WEIGHT
unfoldable pub impact_weight : Json → Option ℕ
unfolding is_text
impact_weight v =
    if is_text v "low"
    then some 1
    else if is_text v "medium"
    then some 2
    else if is_text v "high"
    then some 4
    else if is_text v "critical"
    then some 8
    else if is_text v "existential"
    then some 16
    else none

-- _LIKELIHOOD_WEIGHT
unfoldable pub likelihood_weight : Json → Option ℕ
unfolding is_text
likelihood_weight v =
    if is_text v "very_rare"
    then some 1
    else if is_text v "rare"
    then some 2
    else if is_text v "possible"
    then some 4
    else if is_text v "likely"
    then some 8
    else if is_text v "almost_certain"
    then some 16
    else none

abbrev product : Option ℕ → Option ℕ → Option ℕ
product none _ = none
product (some a) none = none
product (some a) (some b) = some (a * b)

-- `_threat_score`
unfoldable pub threat_score : Json → Json → Option ℕ
threat_score impact likelihood = product (impact_weight impact) (likelihood_weight likelihood)

-- `str(v)`, where `show` is Python's `str` of a value that is no string.
unfoldable pub to_str : (Json → Text) → Json → Text
to_str show (str s) = s
to_str show v = show v

-- `v not in _UNATTEMPTED`, negated; a list or a dict has no hash.
unfoldable pub unattempted : Json → Result Bool
unfolding is_text
unattempted (arr vs) = err type_error
unattempted (obj fs) = err type_error
unattempted v = ok (is_text v "not_attempted" || is_text v "blocked_by_scope")

abbrev is_dict : Json → Bool
is_dict (obj fs) = true
is_dict _ = false

unfoldable pub first_reason : (Json → Text) → List Json → Result SqlValue
unfolding to_str get
first_reason show [] = ok null
first_reason show (obj fs ∷ steps) =
    let rest = first_reason show steps in
    get "scope_reason" (obj fs) >>= λ reason.
    if truthy reason then ok (text (to_str show reason)) else rest
first_reason show (_ ∷ steps) = first_reason show steps

unfoldable pub reason_of : (Json → Text) → Json → Result SqlValue
reason_of show finding = do
  declared ← get "not_attempted_reason" finding
  skip ← get "skip_reason" finding
  let chosen = or_else declared skip
  if truthy chosen
      then ok (text (to_str show chosen))
      else (each "steps" finding >>= first_reason show)

-- `_skip_reason`: a reason only where nothing was attempted.
unfoldable pub skip_reason : (Json → Text) → Json → Result SqlValue
skip_reason show finding = do
  verdict ← get "verdict" finding
  none_run ← unattempted verdict
  if none_run then reason_of show finding else ok null

abbrev last_part : Text → Text → Text
last_part [] current = current
last_part (c ∷ s) current = if c == 47 then last_part s [] else last_part s (current ++ c ∷ [])

-- `source_id.rsplit("/", 1)[-1] or None`
unfoldable pub tail_after_slash : Json → Result SqlValue
tail_after_slash (str s) = elim (last_part s []) [ [] ↦ ok null | c ∷ t ↦ ok (text (c ∷ t)) ]
tail_after_slash _ = err attribute_error
