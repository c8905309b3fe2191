-- ===== src/RiskRating/Levels.antt =====
-- What `rate` of src/traust_contracts/v1/risk_rating.py derives from the factor scores.
use traust_contracts.Base.{
  ℕ, ◌*◌, ◌≤◌, ◌≡◌, refl, sym, ◌∙◌, String, codes, List, [], ◌∷◌, ◌++◌, if◌then◌else◌, arith,
  length, All, ltb, ap, true, some, Option-cases, Bool-cases, inl, inr,
}
use traust_contracts.Py.{pos, finite, in_range, Json, int, negsuc, obj, Fields, lookup, is_text}
use traust_contracts.RiskRating.Defs.{
  Level, level, severity, rank, likelihood_factors, technical_impact_factors,
  business_impact_factors, is_score, missing, name_problems, value_problems, factor_problems, total,
  score_of, dict, mean, Rating, rated, business_problems, rate_problems, basis_problems,
  chosen_basis, build, rate,
}

append-eq-nil {ℓ} : {A : Type ℓ} (xs ys : List A) → xs ++ ys ≡ [] → (xs ≡ []) × (ys ≡ [])
append-eq-nil [] ys h = (refl, h)
append-eq-nil (x ∷ xs) ys h = cc

module _ (l t b basis rationale : Json) {r : Rating}
    (done : rate l t b basis rationale ≡ rated r) where
  pub rate-rate_problems : rate_problems l t b (chosen_basis basis b) ≡ []
  unfolding rate
  rate-rate_problems = ground arith

  pub rate-build : r ≡ build l t b (chosen_basis basis b) rationale
  unfolding rate
  rate-build = ground arith

  pub rate-valid :
      (factor_problems "likelihood" l likelihood_factors ≡ [])
      × (factor_problems "impact.technical" t technical_impact_factors ≡ [])
      × (business_problems b ≡ [])
      × (basis_problems (chosen_basis basis b) b ≡ [])
  unfolding rate_problems
  rate-valid =
      let (hl, rest) = append-eq-nil _ _ rate-rate_problems in
      let (ht, rest') = append-eq-nil _ _ rest in
      let (hb, hs) = append-eq-nil _ _ rest' in (hl, ht, hb, hs)

total-le :
    (w : String) (fs : Fields) (names : List String)
    → value_problems w fs names ≡ []
    → total fs names ≤ 9 * length names
unfolding value_problems total is_score in_range
total-le w fs [] h = omega arith
total-le w fs (n ∷ names) h = ground (arith, total-le w fs names)

dict-total-le :
    (w : String) (f : Json) (names : List String)
    → factor_problems w f names ≡ []
    → total (dict f) names ≤ 9 * length names
unfolding factor_problems
dict-total-le w (obj fs) names h =
    total-le w fs names (append-eq-nil (name_problems w fs names) _ h).1
dict-total-le w _ names h = cc

abbrev used_sum : Json → Json → Json → ℕ
used_sum basis t b =
    if is_text basis "business"
    then total (dict b) business_impact_factors
    else total (dict t) technical_impact_factors

impact_sum_le :
    (basis t b : Json)
    → factor_problems "impact.technical" t technical_impact_factors ≡ []
    → business_problems b ≡ []
    → basis_problems basis b ≡ []
    → used_sum basis t b ≤ 36
unfolding business_problems basis_problems
impact_sum_le basis t b ht hb hs = ground (
  arith,
  dict-total-le "impact.technical" t technical_impact_factors ht,
  dict-total-le "impact.business" b business_impact_factors,
)

-- The dict has an int from 0 to 9 under each name.
abbrev pub Scored : List String → Json → Type 0
Scored names f =
    All (λ n. (k : ℕ) × (lookup (codes n) (dict f) ≡ some (int (pos k))) × (k ≤ 9)) names

score_value : (v : Json) → is_score v ≡ true → (k : ℕ) × (v ≡ int (pos k)) × (k ≤ 9)
unfolding is_score in_range
score_value (int (pos k)) h = (k, refl, ground arith)
score_value (int (negsuc k)) h = absurd (cc)
score_value _ h = absurd (cc)

Scored-fields :
    (w : String) (fs : Fields) (names : List String)
    → missing fs names ≡ []
    → value_problems w fs names ≡ []
    → Scored names (obj fs)
unfolding missing value_problems
Scored-fields w fs [] hm hv = tt
Scored-fields w fs (n ∷ names) hm hv = elim (Option-cases (lookup (codes n) fs)) [
  | inl gone ↦ absurd (ground (arith, hm))
  | inr (v, found) ↦
      let good : is_score v ≡ true = ground (arith, hv) in
      let s = score_value v good in
      (
        (s.0, found ∙ ap some s.1, s.2),
        Scored-fields w fs names (ground (arith, hm)) (ground (arith, hv)),
      )
]

no_names_missing :
    (w : String) (fs : Fields) (names : List String)
    → name_problems w fs names ≡ []
    → missing fs names ≡ []
unfolding name_problems
no_names_missing w fs names h = ground arith

Scored-factors :
    (w : String) (f : Json) (names : List String) → factor_problems w f names ≡ [] → Scored names f
unfolding factor_problems
Scored-factors w (obj fs) names h =
    let (hn, hv) = append-eq-nil (name_problems w fs names) _ h in
    Scored-fields w fs names (no_names_missing w fs names hn) hv
Scored-factors w _ names h = absurd (cc)

Scored-business :
    (basis b : Json)
    → business_problems b ≡ []
    → basis_problems basis b ≡ []
    → is_text basis "business" ≡ true
    → Scored business_impact_factors b
unfolding business_problems basis_problems
Scored-business basis b hb hs used =
    Scored-factors "impact.business" b business_impact_factors (ground arith)

-- Where `rate` returns a rating, the eight likelihood factors and the four technical factors, and the
-- four business factors if the basis is "business", are ints from 0 to 9, each under its name, and
-- the sums of the likelihood and the impact mean are at most 72 and 36.
pub rate_bounds :
    (l t b basis rationale : Json) {r : Rating}
    → rate l t b basis rationale ≡ rated r
    → Scored likelihood_factors l
      × Scored technical_impact_factors t
      × (is_text r.basis "business" ≡ true → Scored business_impact_factors b)
      × (r.likelihood_mean.sum ≤ 72)
      × (r.impact_mean.sum ≤ 36)
unfolding build mean
rate_bounds l t b basis rationale {r} done =
    let (hl, ht, hb, hs) = rate-valid l t b basis rationale done in
    let built = rate-build l t b basis rationale done in
    (
      Scored-factors "likelihood" l likelihood_factors hl,
      Scored-factors "impact.technical" t technical_impact_factors ht,
      λ used. Scored-business (chosen_basis basis b) b hb hs (ground (arith, built)),
      ground (arith, built, dict-total-le "likelihood" l likelihood_factors hl),
      ground (arith, built, impact_sum_le (chosen_basis basis b) t b ht hb hs),
    )

-- The level of a sum of `scale` factors: the mean is below 3, below 6, or neither.
abbrev pub band : ℕ → ℕ → Level
band scale sum =
    if ltb sum (3 * scale)
    then Level.low
    else if ltb sum (6 * scale)
    then Level.medium
    else Level.high

level-eighths : (sum : ℕ) → level (finite (pos sum) 3) ≡ band 8 sum
unfolding level
level-eighths sum = refl

level-quarters : (sum : ℕ) → level (finite (pos sum) 2) ≡ band 4 sum
unfolding level
level-quarters sum = refl

rank-severity_mono :
    (i l i' l' : ℕ)
    → i ≤ i'
    → l ≤ l'
    → rank (severity (band 4 i) (band 8 l)) ≤ rank (severity (band 4 i') (band 8 l'))
unfolding severity
rank-severity_mono i l i' l' hi hl = ground arith

-- Pointwise order of two factor dicts.
abbrev pub NoGreater : List String → Json → Json → Type 0
NoGreater names f g =
    All (λ n. score_of (lookup (codes n) (dict f)) ≤ score_of (lookup (codes n) (dict g))) names

total_mono :
    (names : List String) (f g : Json)
    → NoGreater names f g
    → total (dict f) names ≤ total (dict g) names
unfolding total
total_mono [] f g h = omega arith
total_mono (n ∷ names) f g h = omega (arith, h.0, total_mono names f g h.1)

pub basis-rate :
    (l t b basis rationale : Json) {r : Rating}
    → rate l t b basis rationale ≡ rated r
    → r.basis ≡ chosen_basis basis b
unfolding build
basis-rate l t b basis rationale done = rw (rate-build l t b basis rationale done)

build-overall :
    (l t b basis rationale : Json)
    → (build l t b basis rationale).overall
      ≡ severity (band 4 (used_sum basis t b)) (band 8 (total (dict l) likelihood_factors))
unfolding build mean
build-overall l t b basis rationale = elim (Bool-cases (is_text basis "business")) [
  | inl yes_ ↦ rw yes_ (
      cc (
        level-eighths (total (dict l) likelihood_factors),
        level-quarters (total (dict b) business_impact_factors),
      ))
  | inr no_ ↦ rw no_ (
      cc (
        level-eighths (total (dict l) likelihood_factors),
        level-quarters (total (dict t) technical_impact_factors),
      ))
]

-- The severity of a rating that `rate` returns is the severity table at two bands: the impact is
-- low below 12 points of its four factors (business ones if that is the basis, else technical
-- ones), medium below 24, else high; the likelihood is low below 24 points of its eight factors,
-- medium below 48, else high.
pub rate-overall :
    (l t b basis rationale : Json) {r : Rating}
    → rate l t b basis rationale ≡ rated r
    → r.overall
      ≡ severity
          (if is_text r.basis "business"
            then band 4 (total (dict b) business_impact_factors)
            else band 4 (total (dict t) technical_impact_factors))
          (band 8 (total (dict l) likelihood_factors))
unfolding build
rate-overall l t b basis rationale done =
    rw (rate-build l t b basis rationale done) (rw build-overall (ground arith))

used_sum_mono :
    (basis t b t' b' : Json)
    → NoGreater technical_impact_factors t t'
    → NoGreater business_impact_factors b b'
    → used_sum basis t b ≤ used_sum basis t' b'
used_sum_mono basis t b t' b' ht hb = elim (Bool-cases (is_text basis "business")) [
  | inl yes_ ↦ rw yes_ (total_mono business_impact_factors b b' hb)
  | inr no_ ↦ rw no_ (total_mono technical_impact_factors t t' ht)
]

-- Two accepted ratings with the same impact basis: if no factor of the first is greater than the
-- same factor of the second, then neither is its severity.
pub rate_mono :
    (l t b basis rationale l' t' b' basis' rationale' : Json) {r r' : Rating}
    → rate l t b basis rationale ≡ rated r
    → rate l' t' b' basis' rationale' ≡ rated r'
    → r.basis ≡ r'.basis
    → NoGreater likelihood_factors l l'
    → NoGreater technical_impact_factors t t'
    → NoGreater business_impact_factors b b'
    → rank r.overall ≤ rank r'.overall
rate_mono l t b basis rationale l' t' b' basis' rationale' {r} {r'} done done' same hl ht hb =
    rw (rate-build l t b basis rationale done, rate-build l' t' b' basis' rationale' done')
      (rw (build-overall l t b, build-overall l' t' b')
        (rw bases (
          rank-severity_mono _ _ _ _ (used_sum_mono (chosen_basis basis' b') t b t' b' ht hb)
            (total_mono likelihood_factors l l' hl))))
  where
    bases : chosen_basis basis b ≡ chosen_basis basis' b'
    bases =
        sym (basis-rate l t b basis rationale done)
        ∙ same
        ∙ basis-rate l' t' b' basis' rationale' done'
