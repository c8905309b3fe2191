-- ===== src/Release/Bumps.antt =====
-- release.py: the version that `bump_version` returns.
use traust_contracts.Base.{◌≡◌, refl, Text, true, some, List, [], ◌∷◌, ◌++◌, ok, zero, suc, arith}
use traust_contracts.Py.{
  ℤ, pos, negsuc, int_eq, integer_text, plus_one, split, int_of-integer_text, figures-integer_text,
  split-figures, split-all_figures,
}
use traust_contracts.Release.Version.{
  ints, semver_tuple, int_lt, tuple_lt, Part, major, minor, patch, part_of, dotted, bumped, bump_by,
  bump_version,
}

split-dotted :
    (a b c : ℤ) → split b'.' (dotted a b c) ≡ integer_text a ∷ integer_text b ∷ integer_text c ∷ []
unfolding dotted
split-dotted a b c =
    rw
      (split-figures (integer_text a) (integer_text b ++ b'.' ∷ integer_text c)
        (figures-integer_text a))
      (rw (split-figures (integer_text b) (integer_text c) (figures-integer_text b))
        (rw (split-all_figures (integer_text c) (figures-integer_text c)) refl))

ints_three :
    (a b c : ℤ) → ints (integer_text a ∷ integer_text b ∷ integer_text c ∷ []) ≡ ok (a ∷ b ∷ c ∷ [])
unfolding ints
ints_three a b c =
    rw (int_of-integer_text a) (rw (int_of-integer_text b) (rw (int_of-integer_text c) refl))

-- The version of three integers is read back as these integers.
semver_tuple-dotted : (a b c : ℤ) → semver_tuple (dotted a b c) ≡ ok (a ∷ b ∷ c ∷ [])
unfolding semver_tuple
semver_tuple-dotted a b c = rw (split-dotted a b c) (ints_three a b c)

-- The numbers after a bump.
abbrev pub raised : Part → ℤ → ℤ → ℤ → List ℤ
raised major a b c = plus_one a ∷ pos 0 ∷ pos 0 ∷ []
raised minor a b c = a ∷ plus_one b ∷ pos 0 ∷ []
raised patch a b c = a ∷ b ∷ plus_one c ∷ []

int_lt-plus_one : (a : ℤ) → int_lt a (plus_one a) ≡ true
unfolding int_lt plus_one
int_lt-plus_one (pos n) = ground arith
int_lt-plus_one (negsuc zero) = refl
int_lt-plus_one (negsuc (suc n)) = ground arith

int_eq_refl : (a : ℤ) → int_eq a a ≡ true
unfolding int_eq
int_eq_refl (pos n) = ground arith
int_eq_refl (negsuc n) = ground arith

tuple_lt-raised : (p : Part) (a b c : ℤ) → tuple_lt (a ∷ b ∷ c ∷ []) (raised p a b c) ≡ true
unfolding tuple_lt
tuple_lt-raised major a b c = ground (arith, int_lt-plus_one a)
tuple_lt-raised minor a b c = ground (arith, int_lt-plus_one b, int_eq_refl a)
tuple_lt-raised patch a b c = ground (arith, int_lt-plus_one c, int_eq_refl a, int_eq_refl b)

-- `bump_version` returns a text that reads as the numbers after the bump, and these are later.
pub record Raised (current part : Text) (old new : List ℤ) : Type 0 where
  pub next : Text
  pub returned : bump_version current part ≡ ok next
  pub parsed : semver_tuple next ≡ ok new
  pub later : tuple_lt old new ≡ true

bumped-raised :
    (p : Part) (a b c : ℤ)
    → (next : Text) × (bumped p (a ∷ b ∷ c ∷ []) ≡ ok next)
      × (semver_tuple next ≡ ok (raised p a b c))
unfolding bumped
bumped-raised major a b c =
    (dotted (plus_one a) (pos 0) (pos 0), refl, semver_tuple-dotted (plus_one a) (pos 0) (pos 0))
bumped-raised minor a b c =
    (dotted a (plus_one b) (pos 0), refl, semver_tuple-dotted a (plus_one b) (pos 0))
bumped-raised patch a b c = (dotted a b (plus_one c), refl, semver_tuple-dotted a b (plus_one c))

-- For a part that is "major", "minor" or "patch" and a current version of three integers,
-- `bump_version` returns a text, which `semver_tuple` reads as the version with the part's number
-- raised by one and zeros behind it, and that version is later than the current one.
pub bump_version-Raised :
    (current part : Text) (p : Part) (a b c : ℤ)
    → part_of part ≡ some p
    → semver_tuple current ≡ ok (a ∷ b ∷ c ∷ [])
    → Raised current part (a ∷ b ∷ c ∷ []) (raised p a b c)
unfolding bump_version bump_by
bump_version-Raised current part p a b c hp hv =
    let result = bumped-raised p a b c in
    record {
      next = result.0;
      returned = rw hp (rw hv result.1);
      parsed = result.2;
      later = tuple_lt-raised p a b c;
    }
