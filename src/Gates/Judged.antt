-- ===== src/Gates/Judged.antt =====
-- ci/gates.py: when `check_release_mr` finds nothing to report.
use traust_contracts.Base.{
  ◌≡◌, ◌↔◌, refl, Text, Bool, true, false, ◌||◌, Option, none, some, List, Result, ok, err, arith,
  if◌then◌else◌,
}
use traust_contracts.Py.{ℤ}
use traust_contracts.Process.{Machine, pure, lift, continue, ◌>>=◌}
use traust_contracts.Release.{semver_tuple, tuple_lt, tuple_eq}
use traust_contracts.Release.Order.{tuple_total, tuple_only}
use traust_contracts.Gates.Bump.{Level}
use traust_contracts.Gates.Mr.{
  Request, Problem, bumped_without_section, still, without_section, changelog_has, section_or,
  judge_tuples, judge,
}

abbrev pub World : Type 0
World = Machine Request (Unit {0})

-- Where a bump is needed the version is later, and a later version has its section.
pub record Releasable (needed : Option Level) (version : Text) (of_head of_base : List ℤ)
    (w : World) : Type 0 where
  pub raised : (level : Level) → needed ≡ some level → tuple_lt of_base of_head ≡ true
  pub section : tuple_lt of_base of_head ≡ true → (changelog_has version w).0 ≡ ok true

no_problem :
    (problem : Problem) (r : Result Bool) (w : World)
    → ((continue r (λ there. pure (if there then none else some problem)) w).0 ≡ ok none)
      ↔ (r ≡ ok true)
unfolding continue pure
no_problem problem (ok true) w = (λ h. refl, λ h. refl)
no_problem problem (ok false) w = (λ h. absurd (cc), λ h. absurd (cc))
no_problem problem (err e) w = (λ h. absurd (cc), λ h. absurd (cc))

section_or-none :
    (problem : Problem) (version : Text) (w : World)
    → ((section_or problem version w).0 ≡ ok none) ↔ ((changelog_has version w).0 ≡ ok true)
unfolding section_or ◌>>=◌
section_or-none problem version w =
    no_problem problem (changelog_has version w).0 (changelog_has version w).1

module _ (head base : Text) (h b : List ℤ) (w : World) where
  not_needed :
      (later : Bool)
      → tuple_lt b h ≡ later
      → (((if later then section_or (bumped_without_section head) head else pure none) w).0
          ≡ ok none)
        ↔ Releasable none head h b w
  unfolding pure
  not_needed true e = (
    λ done. record {
      raised = λ level none_some. absurd (cc);
      section = λ later. (section_or-none (bumped_without_section head) head w).0 done;
    },
    λ p. (section_or-none (bumped_without_section head) head w).1 (p.section e),
  )
  not_needed false e = (
    λ done. record { raised = λ level none_some. absurd (cc); section = λ later. absurd (cc) },
    λ p. refl,
  )

  needs :
      (level : Level) (behind : Bool)
      → (tuple_lt h b || tuple_eq h b) ≡ behind
      → (((if behind
              then pure (some (still level head base))
              else section_or (without_section head) head)
            w).0
          ≡ ok none)
        ↔ Releasable (some level) head h b w
  unfolding pure
  needs level true e =
      (λ done. absurd (cc), λ p. absurd (ground (arith, tuple_only b h (p.raised level refl))))
  needs level false e =
      let later : tuple_lt b h ≡ true = tuple_total h b (ground arith) (ground arith) in
      (
        λ done. record {
          raised = λ other same. later;
          section = λ shown. (section_or-none (without_section head) head w).0 done;
        },
        λ p. (section_or-none (without_section head) head w).1 (p.section later),
      )

  judge_tuples-none :
      (needed : Option Level)
      → ((judge_tuples needed head base h b w).0 ≡ ok none) ↔ Releasable needed head h b w
  unfolding judge_tuples
  judge_tuples-none none = not_needed (tuple_lt b h) refl
  judge_tuples-none (some level) = needs level (tuple_lt h b || tuple_eq h b) refl

-- For two versions, the check of a request finds nothing to report exactly when the version at its
-- head is later than that at its base wherever the commits need a bump, and the changelog has a
-- section of the version at its head wherever that is later.
pub judge-none :
    (needed : Option Level) (head base : Text) (h b : List ℤ) (w : World)
    → semver_tuple head ≡ ok h
    → semver_tuple base ≡ ok b
    → ((judge needed head base w).0 ≡ ok none) ↔ Releasable needed head h b w
unfolding judge ◌>>=◌ continue lift
judge-none needed head base h b w eh eb = rw eh (rw eb (judge_tuples-none head base h b w needed))
