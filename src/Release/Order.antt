-- ===== src/Release/Order.antt =====
-- release.py: the order of versions, by which `release_if_ready` decides.
use traust_contracts.Base.{
  ◌≡◌, ◌↔◌, refl, Text, Bool, true, false, Option, none, some, List, [], ◌∷◌, Result, ok, err,
  arith,
}
use traust_contracts.Py.{ℤ, pos, negsuc, int_eq}
use traust_contracts.Release.Version.{semver_tuple, int_lt, tuple_lt, tuple_eq}
use traust_contracts.Release.Repo.{go, compare_versions, both_tuples, decide_untagged, decide}

int_total : (a b : ℤ) → int_eq a b ≡ false → int_lt a b ≡ false → int_lt b a ≡ true
unfolding int_eq int_lt
int_total (pos a) (pos b) e l = ground arith
int_total (pos a) (negsuc b) e l = refl
int_total (negsuc a) (pos b) e l = absurd (cc)
int_total (negsuc a) (negsuc b) e l = ground arith

int_only : (a b : ℤ) → int_lt a b ≡ true → (int_eq b a ≡ false) × (int_lt b a ≡ false)
unfolding int_eq int_lt
int_only (pos a) (pos b) l = (ground arith, ground arith)
int_only (pos a) (negsuc b) l = absurd (cc)
int_only (negsuc a) (pos b) l = (refl, refl)
int_only (negsuc a) (negsuc b) l = (ground arith, ground arith)

int_eq_sym : (a b : ℤ) → int_eq a b ≡ int_eq b a
unfolding int_eq
int_eq_sym (pos a) (pos b) = ground arith
int_eq_sym (pos a) (negsuc b) = refl
int_eq_sym (negsuc a) (pos b) = refl
int_eq_sym (negsuc a) (negsuc b) = ground arith

pub tuple_total :
    (as_ bs : List ℤ) → tuple_eq as_ bs ≡ false → tuple_lt as_ bs ≡ false → tuple_lt bs as_ ≡ true
unfolding tuple_eq tuple_lt
tuple_total [] [] e l = absurd (cc)
tuple_total [] (b ∷ bs) e l = absurd (cc)
tuple_total (a ∷ as_) [] e l = refl
tuple_total (a ∷ as_) (b ∷ bs) e l =
    ground (arith, int_total a b, int_eq_sym a b, tuple_total as_ bs)

pub tuple_only :
    (as_ bs : List ℤ)
    → tuple_lt as_ bs ≡ true
    → (tuple_eq bs as_ ≡ false) × (tuple_lt bs as_ ≡ false)
unfolding tuple_eq tuple_lt
tuple_only [] [] l = absurd (cc)
tuple_only [] (b ∷ bs) l = (refl, refl)
tuple_only (a ∷ as_) [] l = absurd (cc)
tuple_only (a ∷ as_) (b ∷ bs) l = (
  ground (arith, int_only a b, int_eq_sym a b, tuple_only as_ bs),
  ground (arith, int_only a b, int_eq_sym a b, tuple_only as_ bs),
)

-- Both texts are versions, and the first is later.
pub record Later (current latest : Text) : Type 0 where
  pub of_current : List ℤ
  pub of_latest : List ℤ
  pub parsed_current : semver_tuple current ≡ ok of_current
  pub parsed_latest : semver_tuple latest ≡ ok of_latest
  pub later : tuple_lt of_latest of_current ≡ true

abbrev pub Pending : Text → Option Text → Type 0
Pending current none = Unit
Pending current (some latest) = Later current latest

compare-go :
    (current latest : List ℤ)
    → (compare_versions current latest ≡ ok go) ↔ (tuple_lt latest current ≡ true)
unfolding compare_versions
compare-go current latest = (
  λ h. ground (arith, tuple_total current latest),
  λ l. ground (arith, tuple_only latest current l),
)

parsed_order :
    {current latest : Text} {c l : List ℤ} (p : Later current latest)
    → semver_tuple current ≡ ok c
    → semver_tuple latest ≡ ok l
    → tuple_lt l c ≡ true
parsed_order {current} {latest} {c} {l} p ec el =
    let same_c : ok c ≡ ok p.of_current = cc in
    let same_l : ok l ≡ ok p.of_latest = cc in ground (arith, p.later)

both-go :
    (current latest : Text) (c l : Result (List ℤ))
    → semver_tuple current ≡ c
    → semver_tuple latest ≡ l
    → (both_tuples c l ≡ ok go) ↔ Later current latest
unfolding both_tuples
both-go current latest (err e) l ec el =
    (λ h. absurd (cc), λ p. absurd (ground (arith, p.parsed_current)))
both-go current latest (ok c) (err e) ec el =
    (λ h. absurd (cc), λ p. absurd (ground (arith, p.parsed_latest)))
both-go current latest (ok c) (ok l) ec el = (
  λ h. record {
    of_current = c;
    of_latest = l;
    parsed_current = ec;
    parsed_latest = el;
    later = (compare-go c l).0 h;
  },
  λ p. (compare-go c l).1 (parsed_order p ec el),
)

-- `release_if_ready` goes on to a release exactly when the version has no tag and, where there is a
-- newest tag, the version and that tag are versions and the version is the later one.
pub decide-go :
    (there : Bool) (current : Text) (latest : Option Text)
    → (decide there current latest ≡ ok go) ↔ ((there ≡ false) × Pending current latest)
unfolding decide decide_untagged
decide-go true current latest = (λ h. absurd (cc), λ p. absurd (ground (arith, p.0)))
decide-go false current none = (λ h. (refl, tt), λ p. refl)
decide-go false current (some latest) =
    let both = both-go current latest (semver_tuple current) (semver_tuple latest) refl refl in
    (λ h. (refl, both.0 h), λ p. both.1 p.1)
