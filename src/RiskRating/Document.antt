-- ===== src/RiskRating/Document.antt =====
-- src/traust_contracts/v1/risk_rating.py: the rating as a JSON document, and `problems`, which
-- checks a stored one.
use traust_contracts.Base.{
  String, codes, Bool, true, not, List, [], ◌∷◌, ◌++◌, if◌then◌else◌, Result, ok, ◌>>=◌,
}
use traust_contracts.Py.{
  pos, finite, differs, Json, null, bool, int, float, str, obj, Fields, end, field, get, or_else,
  truthy, is_text, section,
}
use traust_contracts.RiskRating.Defs.{
  Level, level_name, severity_name, FactorProblem, Mean, score, Rating, Rated, rated, refused, rate,
  is_null,
}

abbrev pub text : String → Json
text s = str (codes s)

-- The impact's `business` entry, left out when there are no business factors.
unfoldable pub business_entry : Json → Fields
business_entry business = if is_null business then end else field (codes "business") business end

-- `if rationale: rating["rationale"] = dict(rationale)`
unfoldable pub rationale_entry : Json → Fields
rationale_entry rationale =
    if truthy rationale then field (codes "rationale") rationale end else end

unfoldable pub likelihood_part : Rating → Json
likelihood_part r = obj (
    field (codes "factors") r.likelihood (
      field (codes "score") (float (score r.likelihood_mean))
        (field (codes "level") (text (level_name r.likelihood_level)) end)))

unfoldable pub impact_part : Rating → Json
impact_part r = obj (
    field (codes "basis") r.basis (
      field (codes "technical") r.technical (
        field (codes "score") (float (score r.impact_mean))
          (field (codes "level") (text (level_name r.impact_level)) (business_entry r.business)))))

-- The dict that `rate` returns.
unfoldable pub document : Rating → Json
document r = obj (
    field (codes "method") (text "owasp-risk-rating") (
      field (codes "likelihood") (likelihood_part r) (
        field (codes "impact") (impact_part r) (
          field (codes "severity") (text (severity_name r.overall))
            (rationale_entry r.rationale)))))

pub data RatingProblem : Type 0 where
  not_an_object wrong_method wrong_severity : RatingProblem
  unrateable : List FactorProblem → RatingProblem
  wrong_score wrong_level : String → RatingProblem

-- `not isinstance(score, (int, float)) or abs(score - want) > 10**-_PRECISION`
unfoldable pub score_is_wrong : Json → Mean → Bool
unfolding differs
score_is_wrong (int i) want = differs (finite i 0) want.sum want.bits
score_is_wrong (bool b) want = differs (finite (pos (if b then 1 else 0)) 0) want.sum want.bits
score_is_wrong (float x) want = differs x want.sum want.bits
score_is_wrong _ want = true

abbrev pub unless : Bool → RatingProblem → List RatingProblem
unless fine problem = if fine then [] else problem ∷ []

-- One round of the loop over the two parts.
unfoldable pub part_problems : String → Json → Mean → Level → Result (List RatingProblem)
part_problems part rating want_mean want_level = do
  stored ← section part rating
  stored_score ← get "score" stored
  stored_level ← get "level" stored
  ok (
      unless (not (score_is_wrong stored_score want_mean)) (wrong_score part)
      ++ unless (is_text stored_level (level_name want_level)) (wrong_level part))

unfoldable pub compare_with : Json → Rated → Result (List RatingProblem)
compare_with rating (refused found) = ok (unrateable found ∷ [])
compare_with rating (rated want) = do
  l ← part_problems "likelihood" rating want.likelihood_mean want.likelihood_level
  i ← part_problems "impact" rating want.impact_mean want.impact_level
  stored ← get "severity" rating
  ok (l ++ (i ++ unless (is_text stored (severity_name want.overall)) wrong_severity))

unfoldable pub recompute : Json → Result (List RatingProblem)
recompute rating = do
  likelihood ← section "likelihood" rating
  impact ← section "impact" rating
  business ← get "business" impact
  factors ← get "factors" likelihood
  technical ← get "technical" impact
  basis ← get "basis" impact
  compare_with rating
      (rate (or_else factors (obj end)) (or_else technical (obj end)) business basis null)

unfoldable pub check_method : Json → Json → Result (List RatingProblem)
check_method rating method =
    let rest = recompute rating in
    if is_text method "owasp-risk-rating" then rest else ok (wrong_method ∷ [])

unfoldable pub problems : Json → Result (List RatingProblem)
problems (obj fs) = do method ← get "method" (obj fs); check_method (obj fs) method
problems _ = ok (not_an_object ∷ [])
