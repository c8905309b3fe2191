-- ===== src/RiskRating/Agreement.antt =====
-- `problems` of src/traust_contracts/v1/risk_rating.py against `rate`.
use traust_contracts.Base.{
  String, ◌≡◌, refl, sym, ◌∙◌, ap, codes, true, List, [], arith, ok, Bool-cases, inl, inr,
  text_eq_refl, is, text_eq,
}
use traust_contracts.Py.{
  differs_self, Json, null, obj, end, field, lookup, get, or_else, truthy, is_text, section,
}
use traust_contracts.RiskRating.Defs.{
  severity_name, factor_problems, Rating, rated, rate, is_null, chosen_basis, build,
}
use traust_contracts.RiskRating.Document.{
  document, likelihood_part, impact_part, business_entry, part_problems, compare_with, text,
  recompute, check_method, problems, score_is_wrong,
}
use traust_contracts.RiskRating.Levels.{rate-build, rate-valid, rate-rate_problems}

-- A dict that passed the checks stands for itself in `d or {}`.
factor_problems-object :
    (w : String) (f : Json) (names : List String)
    → factor_problems w f names ≡ []
    → or_else f (obj end) ≡ f
unfolding factor_problems or_else truthy
factor_problems-object w (obj end) names h = refl
factor_problems-object w (obj (field k v fs)) names h = refl
factor_problems-object w _ names h = cc

-- What `problems` reads back from the document of a rating.
module _ (r : Rating) where
  likelihood-document : section "likelihood" (document r) ≡ ok (likelihood_part r)
  unfolding document section get lookup likelihood_part or_else truthy is text_eq codes
  likelihood-document = refl

  impact-document : section "impact" (document r) ≡ ok (impact_part r)
  unfolding document section get lookup impact_part or_else truthy is text_eq codes
  impact-document = refl

  severity-document : get "severity" (document r) ≡ ok (text (severity_name r.overall))
  unfolding document get lookup text_eq codes
  severity-document = refl

  method-document : get "method" (document r) ≡ ok (text "owasp-risk-rating")
  unfolding document get lookup text_eq codes
  method-document = refl

  business-impact_part : get "business" (impact_part r) ≡ ok r.business
  unfolding impact_part get lookup text_eq codes business_entry
  business-impact_part = ground arith

  factors-likelihood_part : get "factors" (likelihood_part r) ≡ ok r.likelihood
  unfolding likelihood_part get lookup text_eq codes
  factors-likelihood_part = refl

  technical-impact_part : get "technical" (impact_part r) ≡ ok r.technical
  unfolding impact_part get lookup text_eq codes
  technical-impact_part = refl

  basis-impact_part : get "basis" (impact_part r) ≡ ok r.basis
  unfolding impact_part get lookup text_eq codes
  basis-impact_part = refl

is_text-text : (s : String) → is_text (text s) s ≡ true
unfolding is_text is
is_text-text s = text_eq_refl (codes s)

chosen_basis_idem : (basis b : Json) → chosen_basis (chosen_basis basis b) b ≡ chosen_basis basis b
unfolding chosen_basis or_else codes truthy
chosen_basis_idem basis b = elim (Bool-cases (truthy basis)) [
  | inl set ↦ rw (set, set)
  | inr unset ↦ elim (Bool-cases (is_null b)) [ inl e ↦ rw (unset, e) | inr e ↦ rw (unset, e) ]
]

part-likelihood :
    (r : Rating)
    → part_problems "likelihood" (document r) r.likelihood_mean r.likelihood_level ≡ ok []
unfolding part_problems likelihood_part get lookup text_eq codes score_is_wrong
part-likelihood r = rw likelihood-document (rw (differs_self, is_text-text))

part-impact :
    (r : Rating) → part_problems "impact" (document r) r.impact_mean r.impact_level ≡ ok []
unfolding part_problems impact_part get lookup text_eq codes score_is_wrong
part-impact r = rw impact-document (rw (differs_self, is_text-text))

compare_with-document : (r : Rating) → compare_with (document r) (rated r) ≡ ok []
unfolding compare_with
compare_with-document r = rw (part-likelihood, part-impact, severity-document, is_text-text)

compare_with-rationale :
    (d l t b basis rationale rationale' : Json)
    → compare_with d (rated (build l t b basis rationale))
      ≡ compare_with d (rated (build l t b basis rationale'))
unfolding compare_with build
compare_with-rationale d l t b basis rationale rationale' = refl

rate_again :
    (l t b basis rationale : Json) {r : Rating}
    → rate l t b basis rationale ≡ rated r
    → rate l t b (chosen_basis basis b) null ≡ rated (build l t b (chosen_basis basis b) null)
unfolding rate
rate_again l t b basis rationale done =
    rw (chosen_basis_idem, rate)
      (rw (rate-rate_problems l t b basis rationale done) (rw chosen_basis_idem))

recompute-document :
    (l t b basis rationale : Json) {r : Rating}
    → rate l t b basis rationale ≡ rated r
    → recompute (document r) ≡ compare_with (document r) (rate l t b (chosen_basis basis b) null)
unfolding recompute build
recompute-document l t b basis rationale {r} done =
    let (hl, ht, hb, hs) = rate-valid l t b basis rationale done in
    rw
      (
        likelihood-document, impact-document, business-impact_part, factors-likelihood_part,
        technical-impact_part, basis-impact_part,
      )
      (rw (rate-build l t b basis rationale done)
        (rw (factor_problems-object _ l _ hl, factor_problems-object _ t _ ht)))

problems-document : (r : Rating) → problems (document r) ≡ recompute (document r)
unfolding problems check_method document get lookup text_eq codes is_text is
problems-document r = refl

-- What `rate` builds passes `problems`: the checker accepts the document of every rating that
-- `rate` returns, with either basis, with or without business factors and a rationale.
pub problems-rate :
    (l t b basis rationale : Json) {r : Rating}
    → rate l t b basis rationale ≡ rated r
    → problems (document r) ≡ ok []
problems-rate l t b basis rationale {r} done =
    problems-document r
    ∙ recompute-document l t b basis rationale done
    ∙ ap (compare_with (document r)) (rate_again l t b basis rationale done)
    ∙ compare_with-rationale (document r) l t b (chosen_basis basis b) null rationale
    ∙ ap (λ q. compare_with (document r) (rated q)) (sym (rate-build l t b basis rationale done))
    ∙ compare_with-document r
