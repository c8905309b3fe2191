-- ===== src/Gates/Bump.antt =====
-- ci/gates.py: `bump_level`.
use traust_contracts.Base.{
  starts, after, Text, codes, Bool, true, false, ◌||◌, List, [], ◌∷◌, Option, none, some,
  if◌then◌else◌,
}
use traust_contracts.Gates.Subjects.{Kind, feat, fix, perf, Header, match_header, is_generated}

pub record Commit : Type 0 where
  pub sha : Text
  pub subject : Text
  pub body : Text

pub data Level : Type 0 where
  patch minor major : Level

-- `needle in text`
unfoldable pub contains : Text → Text → Bool
unfolding after
contains needle [] = starts needle []
contains needle (c ∷ s) = starts needle (c ∷ s) || contains needle s

abbrev is_none : Option Level → Bool
is_none none = true
is_none (some l) = false

-- The level after a commit that breaks nothing.
unfoldable pub raise_level : Kind → Option Level → Option Level
raise_level feat level = some minor
raise_level fix level = if is_none level then some patch else level
raise_level perf level = if is_none level then some patch else level
raise_level _ level = level

unfoldable pub breaks : Header → Text → Bool
unfolding codes contains
breaks h body = h.breaking || contains (codes "BREAKING CHANGE") body

-- The loop of `bump_level`, which returns at the first breaking commit.
unfoldable pub bump_from : Option Level → List Commit → Option Level
bump_from level [] = level
bump_from level (c ∷ cs) =
    let skipped = bump_from level cs in
    if is_generated c.subject then skipped else elim (match_header c.subject) [
      | none ↦ skipped
      | some h ↦ if breaks h c.body then some major else bump_from (raise_level h.kind level) cs
    ]

-- `bump_level`
unfoldable pub bump_level : List Commit → Option Level
bump_level commits = bump_from none commits
