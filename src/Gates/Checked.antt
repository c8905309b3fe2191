-- ===== src/Gates/Checked.antt =====
-- ci/gates.py: what a `check_release_mr` that reports nothing has read.
use traust_contracts.Base.{◌≡◌, refl, sym, subst, Text, Option, none, List, Result, ok, err}
use traust_contracts.Py.{ℤ, strip}
use traust_contracts.Process.{pure, lift, continue, access, ◌>>=◌}
use traust_contracts.Release.{semver_tuple}
use traust_contracts.Gates.Bump.{Commit, Level, bump_level}
use traust_contracts.Gates.Mr.{
  Script, git, log, resolve_commit, show_version, version_file, bump_between, judge,
  check_release_mr,
}
use traust_contracts.Gates.Judged.{World, Releasable, judge-none}

-- A script that returned `b` had a first part that returned, and what follows it returned `b`.
record Both {A B : Type 0} (m : Script A) (f : A → Script B) (b : B) (w : World) : Type 0 where
  pub value : A
  pub first : (m w).0 ≡ ok value
  pub second : (f value (m w).1).0 ≡ ok b

both_of :
    {A B : Type 0} (f : A → Script B) (b : B) (r : Result A) (w : World)
    → (continue r f w).0 ≡ ok b
    → (a : A) × (r ≡ ok a) × ((f a w).0 ≡ ok b)
unfolding continue
both_of f b (ok a) w h = (a, refl, h)
both_of f b (err e) w h = absurd (cc)

returned :
    {A B : Type 0} (m : Script A) (f : A → Script B) (b : B) (w : World)
    → ((m >>= f) w).0 ≡ ok b
    → Both m f b w
unfolding ◌>>=◌
returned m f b w h =
    let parts = both_of f b (m w).0 (m w).1 h in
    record { value = parts.0; first = parts.1; second = parts.2 }

-- The states in which `check_release_mr` asks for the commits, for the version at the base and for
-- the one at the head, and in which it judges.
module _ (base head : Text) (w : World) where
  abbrev pub at_commits : World
  at_commits = (git (resolve_commit head) (git (resolve_commit base) w).1).1

  abbrev pub at_base : World
  at_base = (bump_between base head at_commits).1

  abbrev pub at_head : World
  at_head = (git (show_version base) at_base).1

  abbrev pub at_end : World
  at_end = (access version_file at_head).1

  -- The commits and both versions were read, and with them there is nothing to report.
  pub record Checked : Type 0 where
    pub commits : List Commit
    pub base_version : Text
    pub head_version : Text
    pub of_base : List ℤ
    pub of_head : List ℤ
    pub read_commits : (log base head at_commits).0 ≡ ok commits
    pub read_base : (git (show_version base) at_base).0 ≡ ok base_version
    pub read_head : (access version_file at_head).0 ≡ ok head_version
    pub parsed_base : semver_tuple (strip base_version) ≡ ok of_base
    pub parsed_head : semver_tuple (strip head_version) ≡ ok of_head
    pub releasable : Releasable (bump_level commits) (strip head_version) of_head of_base at_end

leveled :
    (r : Result (List Commit)) (u : World) (level : Option Level)
    → (continue r (λ commits. pure (bump_level commits)) u).0 ≡ ok level
    → (commits : List Commit) × (r ≡ ok commits) × (bump_level commits ≡ level)
unfolding continue pure
leveled (ok commits) u level h = (commits, refl, cc)
leveled (err e) u level h = absurd (cc)

bump_between-level :
    (base head : Text) (u : World) (level : Option Level)
    → (bump_between base head u).0 ≡ ok level
    → (commits : List Commit) × ((log base head u).0 ≡ ok commits) × (bump_level commits ≡ level)
unfolding bump_between ◌>>=◌
bump_between-level base head u level h = leveled (log base head u).0 (log base head u).1 level h

both_parsed :
    (needed : Option Level) (head base : Text) (u : World)
    → (judge needed head base u).0 ≡ ok none
    → (h : List ℤ) × (b : List ℤ) × (semver_tuple head ≡ ok h) × (semver_tuple base ≡ ok b)
unfolding judge lift
both_parsed needed head base u passes =
    let first = returned (lift (semver_tuple head)) _ none u passes in
    let second = returned (lift (semver_tuple base)) _ none u first.second in
    (first.value, second.value, first.first, second.first)

-- When `check_release_mr` reports nothing, it has read the commits of the range and both versions,
-- the version at the head is later than that at the base if `bump_level` of these commits is a
-- level, and the changelog has a section of the version at the head if that is later.
pub check_release_mr-Checked :
    (base head : Text) (w : World)
    → (check_release_mr base head w).0 ≡ ok none
    → Checked base head w
unfolding check_release_mr
check_release_mr-Checked base head w h =
    let base_there = returned (git (resolve_commit base)) _ none w h in
    let head_there =
      returned (git (resolve_commit head)) _ none (git (resolve_commit base) w).1
        base_there.second in
    let needed =
      returned (bump_between base head) _ none (at_commits base head w) head_there.second in
    let old = returned (git (show_version base)) _ none (at_base base head w) needed.second in
    let new = returned (access version_file) _ none (at_head base head w) old.second in
    let level = bump_between-level base head (at_commits base head w) needed.value needed.first in
    let parsed =
      both_parsed needed.value (strip new.value) (strip old.value) (at_end base head w)
        new.second in
    record {
      commits = level.0;
      base_version = old.value;
      head_version = new.value;
      of_base = parsed.1;
      of_head = parsed.0;
      read_commits = level.1;
      read_base = old.first;
      read_head = new.first;
      parsed_base = parsed.3;
      parsed_head = parsed.2;
      releasable =
          subst (λ l. Releasable l (strip new.value) parsed.0 parsed.1 (at_end base head w))
            (sym level.2)
            ((judge-none needed.value (strip new.value) (strip old.value) parsed.0 parsed.1
                (at_end base head w) parsed.2 parsed.3).0
              new.second);
    }
