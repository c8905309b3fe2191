-- ===== src/Tests/Rating.antt =====
-- src/traust_contracts/v1/risk_rating.py on two ratings.
use traust_contracts.Base.{
  true, ℕ, ◌≡◌, refl, ◌≤◌, String, codes, text_eq, elem, List, [], ◌∷◌, arith, is, ok,
  if◌then◌else◌,
}
use traust_contracts.Py.{
  pos, Json, null, int, obj, Fields, end, field, lookup, keys, or_else, is_text, in_range, float_lt,
}
use traust_contracts.RiskRating.{
  Rating, rated, Severity, severity, rank, level, rate, build, mean, total, rate_problems,
  chosen_basis, basis_problems, business_problems, factor_problems, name_problems, value_problems,
  missing, extra, is_score, likelihood_factors, technical_impact_factors, business_impact_factors,
  dict, problems, document,
}
use traust_contracts.RiskRating.Levels.{
  band, Scored, NoGreater, rate_bounds, rate-overall, rate_mono,
}
use traust_contracts.RiskRating.Agreement.{problems-rate}

-- A dict that scores each name alike.
abbrev scores : ℕ → List String → Fields
unfolding codes
scores n [] = end
scores n (s ∷ names) = field (codes s) (int (pos n)) (scores n names)

abbrev likelihood : ℕ → Json
likelihood n = obj (scores n likelihood_factors)

abbrev technical : ℕ → Json
technical n = obj (scores n technical_impact_factors)

abbrev business : ℕ → Json
business n = obj (scores n business_impact_factors)

abbrev rating : ℕ → Rating
rating n = build (likelihood n) (technical n) (business n) (chosen_basis null (business n)) null

rate_two : rate (likelihood 2) (technical 2) (business 2) null null ≡ rated (rating 2)
unfolding rate rate_problems factor_problems name_problems value_problems missing extra
    business_problems basis_problems chosen_basis lookup keys codes elem text_eq is_score in_range
    is_text or_else is
rate_two = refl

rate_seven : rate (likelihood 7) (technical 7) (business 7) null null ≡ rated (rating 7)
unfolding rate rate_problems factor_problems name_problems value_problems missing extra
    business_problems basis_problems chosen_basis lookup keys codes elem text_eq is_score in_range
    is_text or_else is
rate_seven = refl

two_overall : (rating 2).overall ≡ Severity.note
unfolding build mean total level severity float_lt is_text is codes text_eq lookup chosen_basis
    or_else
two_overall = refl

seven_overall : (rating 7).overall ≡ Severity.critical
unfolding build mean total level severity float_lt is_text is codes text_eq lookup chosen_basis
    or_else
seven_overall = refl

problems-rate_example : problems (document (rating 7)) ≡ ok []
problems-rate_example = problems-rate (likelihood 7) (technical 7) (business 7) null null rate_seven

rate_bounds_example :
    Scored likelihood_factors (likelihood 7)
    × Scored technical_impact_factors (technical 7)
    × (is_text (rating 7).basis "business" ≡ true → Scored business_impact_factors (business 7))
    × ((rating 7).likelihood_mean.sum ≤ 72)
    × ((rating 7).impact_mean.sum ≤ 36)
rate_bounds_example = rate_bounds (likelihood 7) (technical 7) (business 7) null null rate_seven

rate-overall_example :
    (rating 7).overall
    ≡ severity
        (if is_text (rating 7).basis "business"
          then band 4 (total (dict (business 7)) business_impact_factors)
          else band 4 (total (dict (technical 7)) technical_impact_factors))
        (band 8 (total (dict (likelihood 7)) likelihood_factors))
rate-overall_example = rate-overall (likelihood 7) (technical 7) (business 7) null null rate_seven

NoGreater-likelihood : NoGreater likelihood_factors (likelihood 2) (likelihood 7)
unfolding lookup text_eq codes
NoGreater-likelihood = ground arith

NoGreater-technical : NoGreater technical_impact_factors (technical 2) (technical 7)
unfolding lookup text_eq codes
NoGreater-technical = ground arith

NoGreater-business : NoGreater business_impact_factors (business 2) (business 7)
unfolding lookup text_eq codes
NoGreater-business = ground arith

rate_mono_example : rank (rating 2).overall ≤ rank (rating 7).overall
unfolding scores chosen_basis build
rate_mono_example =
    rate_mono (likelihood 2) (technical 2) (business 2) null null (likelihood 7) (technical 7)
      (business 7) null null rate_two rate_seven refl NoGreater-likelihood NoGreater-technical
      NoGreater-business
