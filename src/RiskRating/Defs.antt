-- ===== src/RiskRating/Defs.antt =====
-- src/traust_contracts/v1/risk_rating.py. A mean of eight or four factors is the dyadic number
-- total / 2 ^ bits, which the float division and the rounding to three places keep exactly.
use traust_contracts.Base.{
  ℕ, ◌+◌, Text, String, codes, elem, Bool, true, false, not, ◌&&◌, ◌||◌, List, [], ◌∷◌, ◌++◌,
  Option, none, some, if◌then◌else◌, map, sorted,
}
use traust_contracts.Py.{
  ℤ, pos, negsuc, Float, finite, float_lt, in_range, Json, null, int, str, obj, Fields, end, lookup,
  keys, or_else, is_text,
}

abbrev pub likelihood_factors : List String
likelihood_factors =
    "skill_level" ∷ "motive" ∷ "opportunity" ∷ "population_size" ∷ "ease_of_discovery"
    ∷ "ease_of_exploit" ∷ "awareness" ∷ "intrusion_detection" ∷ []

abbrev pub technical_impact_factors : List String
technical_impact_factors = "confidentiality" ∷ "integrity" ∷ "availability" ∷ "accountability" ∷ []

abbrev pub business_impact_factors : List String
business_impact_factors = "financial" ∷ "reputation" ∷ "non_compliance" ∷ "privacy" ∷ []

pub data Level : Type 0 where
  low medium high : Level

pub data Severity : Type 0 where
  note low medium high critical : Severity

abbrev pub level_name : Level → String
level_name Level.low = "low"
level_name Level.medium = "medium"
level_name Level.high = "high"

abbrev pub severity_name : Severity → String
severity_name Severity.note = "note"
severity_name Severity.low = "low"
severity_name Severity.medium = "medium"
severity_name Severity.high = "high"
severity_name Severity.critical = "critical"

-- SEVERITY_TABLE: the impact level, then the likelihood level.
unfoldable pub severity : Level → Level → Severity
severity Level.high Level.low = Severity.medium
severity Level.high Level.medium = Severity.high
severity Level.high Level.high = Severity.critical
severity Level.medium Level.low = Severity.low
severity Level.medium Level.medium = Severity.medium
severity Level.medium Level.high = Severity.high
severity Level.low Level.low = Severity.note
severity Level.low Level.medium = Severity.low
severity Level.low Level.high = Severity.medium

-- low below 3, medium below 6, otherwise high
unfoldable pub level : Float → Level
unfolding float_lt
level score =
    if float_lt score 3 then Level.low else if float_lt score 6 then Level.medium else Level.high

abbrev pub rank : Severity → ℕ
rank Severity.note = 0
rank Severity.low = 1
rank Severity.medium = 2
rank Severity.high = 3
rank Severity.critical = 4

-- Position in SEVERITIES; -1 for a missing or unknown value.
unfoldable pub severity_rank : Json → ℤ
severity_rank value =
    if is_text value "note"
    then pos 0
    else if is_text value "low"
    then pos 1
    else if is_text value "medium"
    then pos 2
    else if is_text value "high"
    then pos 3
    else if is_text value "critical"
    then pos 4
    else negsuc 0

pub data FactorProblem : Type 0 where
  not_object : String → FactorProblem
  wrong_names : String → List Text → List Text → FactorProblem
  bad_factor : String → String → FactorProblem
  needs_factor_set : Json → FactorProblem

-- `isinstance(value, bool) or not isinstance(value, int) or not 0 <= value <= 9`, negated.
unfoldable pub is_score : Json → Bool
unfolding in_range
is_score (int i) = in_range i 9
is_score _ = false

-- The names that the dict lacks.
unfoldable pub missing : Fields → List String → List Text
missing fs [] = []
missing fs (n ∷ names) =
    let rest = missing fs names in
    elim (lookup (codes n) fs) [ none ↦ codes n ∷ rest | some v ↦ rest ]

-- The keys that are no names.
unfoldable pub extra : List Text → List Text → List Text
extra names [] = []
extra names (k ∷ ks) = let rest = extra names ks in if elem k names then rest else k ∷ rest

unfoldable pub name_problems : String → Fields → List String → List FactorProblem
name_problems where_ fs names = elim (missing fs names) [
  | [] ↦ elim (extra (map codes names) (keys fs)) [
    | [] ↦ []
    | k ∷ ks ↦ wrong_names where_ [] (sorted (k ∷ ks)) ∷ []
  ]
  | n ∷ ns ↦ wrong_names where_ (n ∷ ns) (sorted (extra (map codes names) (keys fs))) ∷ []
]

unfoldable pub value_problems : String → Fields → List String → List FactorProblem
unfolding is_score
value_problems where_ fs [] = []
value_problems where_ fs (n ∷ names) =
    let rest = value_problems where_ fs names in
    elim (lookup (codes n) fs) [
      | none ↦ rest
      | some v ↦ if is_score v then rest else bad_factor where_ n ∷ rest
    ]

unfoldable pub factor_problems : String → Json → List String → List FactorProblem
factor_problems where_ (obj fs) names =
    name_problems where_ fs names ++ value_problems where_ fs names
factor_problems where_ _ names = not_object where_ ∷ []

-- A factor that passed the checks is an int from 0 to 9; the others are never summed.
abbrev pub score_of : Option Json → ℕ
score_of (some (int (pos n))) = n
score_of _ = 0

unfoldable pub total : Fields → List String → ℕ
total fs [] = 0
total fs (n ∷ names) = score_of (lookup (codes n) fs) + total fs names

abbrev pub dict : Json → Fields
dict (obj fs) = fs
dict _ = end

pub record Mean : Type 0 where
  pub sum : ℕ
  pub bits : ℕ

abbrev pub score : Mean → Float
score m = finite (pos m.sum) m.bits

-- `_mean`, of eight names (bits 3) or four (bits 2).
unfoldable pub mean : Json → List String → ℕ → Mean
unfolding total
mean factors names bits = record { sum = total (dict factors) names; bits = bits }

-- The rating that `rate` returns, by the entries of its dicts.
pub record Rating : Type 0 where
  pub likelihood : Json
  pub technical : Json
  pub business : Json
  pub basis : Json
  pub rationale : Json
  pub likelihood_mean : Mean
  pub impact_mean : Mean
  pub likelihood_level : Level
  pub impact_level : Level
  pub overall : Severity

pub data Rated : Type 0 where
  rated : Rating → Rated
  refused : List FactorProblem → Rated

abbrev pub is_null : Json → Bool
is_null null = true
is_null _ = false

unfoldable pub business_problems : Json → List FactorProblem
business_problems business =
    if is_null business
    then []
    else factor_problems "impact.business" business business_impact_factors

unfoldable pub basis_problems : Json → Json → List FactorProblem
basis_problems basis business =
    let business_basis = is_text basis "business" in
    if (is_text basis "technical" || business_basis) && not (business_basis && is_null business)
    then []
    else needs_factor_set basis ∷ []

unfoldable pub chosen_basis : Json → Json → Json
unfolding or_else codes
chosen_basis basis business =
    or_else basis (str (codes (if is_null business then "technical" else "business")))

-- Every problem of the arguments of `rate`, in the order found.
unfoldable pub rate_problems : Json → Json → Json → Json → List FactorProblem
rate_problems likelihood technical business basis =
    factor_problems "likelihood" likelihood likelihood_factors
    ++ (factor_problems "impact.technical" technical technical_impact_factors
        ++ (business_problems business ++ basis_problems basis business))

unfoldable pub build : Json → Json → Json → Json → Json → Rating
build likelihood technical business basis rationale =
    let l_mean = mean likelihood likelihood_factors 3 in
    let i_mean =
      if is_text basis "business"
      then mean business business_impact_factors 2
      else mean technical technical_impact_factors 2 in
    record {
      likelihood = likelihood;
      technical = technical;
      business = business;
      basis = basis;
      rationale = rationale;
      likelihood_mean = l_mean;
      impact_mean = i_mean;
      likelihood_level = level (score l_mean);
      impact_level = level (score i_mean);
      overall = severity (level (score i_mean)) (level (score l_mean));
    }

-- `basis` and `business` are `null` where the caller leaves them out.
unfoldable pub rate : Json → Json → Json → Json → Json → Rated
rate likelihood technical business basis rationale =
    elim (rate_problems likelihood technical business (chosen_basis basis business)) [
      | [] ↦ rated (build likelihood technical business (chosen_basis basis business) rationale)
      | p ∷ ps ↦ refused (p ∷ ps)
    ]
