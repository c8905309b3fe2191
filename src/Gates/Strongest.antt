-- ===== src/Gates/Strongest.antt =====
-- ci/gates.py: `bump_level` is the strongest level that one of its commits asks for.
use traust_contracts.Base.{
  ◌≡◌, ◌≢◌, refl, sym, ◌∙◌, ap, Text, List, [], ◌∷◌, ◌++◌, Option, none, some, if◌then◌else◌, arith,
  Bool-cases, Option-cases, inl, inr,
}
use traust_contracts.Gates.Subjects.{Kind, feat, fix, perf, Header, match_header, is_generated}
use traust_contracts.Gates.Bump.{
  Commit, Level, patch, minor, major, raise_level, breaks, bump_from, bump_level,
}

-- The stronger of two levels, where none is the weakest.
unfoldable pub stronger : Option Level → Option Level → Option Level
stronger none b = b
stronger (some patch) none = some patch
stronger (some patch) (some b) = some b
stronger (some minor) none = some minor
stronger (some minor) (some patch) = some minor
stronger (some minor) (some minor) = some minor
stronger (some minor) (some major) = some major
stronger (some major) b = some major

-- What a type asks for by itself.
abbrev pub kind_level : Kind → Option Level
kind_level feat = some minor
kind_level fix = some patch
kind_level perf = some patch
kind_level _ = none

abbrev pub header_level : Option Header → Text → Option Level
header_level none body = none
header_level (some h) body = if breaks h body then some major else kind_level h.kind

-- What one commit asks for.
unfoldable pub commit_level : Commit → Option Level
commit_level c =
    if is_generated c.subject then none else header_level (match_header c.subject) c.body

unfoldable pub strongest : List Commit → Option Level
strongest [] = none
strongest (c ∷ cs) = stronger (commit_level c) (strongest cs)

stronger_assoc : (a b c : Option Level) → stronger (stronger a b) c ≡ stronger a (stronger b c)
unfolding stronger
stronger_assoc none b c = refl
stronger_assoc (some patch) none c = refl
stronger_assoc (some patch) (some patch) none = refl
stronger_assoc (some patch) (some patch) (some c) = refl
stronger_assoc (some patch) (some minor) none = refl
stronger_assoc (some patch) (some minor) (some patch) = refl
stronger_assoc (some patch) (some minor) (some minor) = refl
stronger_assoc (some patch) (some minor) (some major) = refl
stronger_assoc (some patch) (some major) c = refl
stronger_assoc (some minor) none c = refl
stronger_assoc (some minor) (some patch) none = refl
stronger_assoc (some minor) (some patch) (some patch) = refl
stronger_assoc (some minor) (some patch) (some minor) = refl
stronger_assoc (some minor) (some patch) (some major) = refl
stronger_assoc (some minor) (some minor) none = refl
stronger_assoc (some minor) (some minor) (some patch) = refl
stronger_assoc (some minor) (some minor) (some minor) = refl
stronger_assoc (some minor) (some minor) (some major) = refl
stronger_assoc (some minor) (some major) c = refl
stronger_assoc (some major) b c = refl

abbrev Partial : Option Level → Type 0
Partial level = level ≢ some major

stronger-none : (a : Option Level) → stronger a none ≡ a
unfolding stronger
stronger-none none = refl
stronger-none (some patch) = refl
stronger-none (some minor) = refl
stronger-none (some major) = refl

-- Before the loop returns early its level is below major.
raise_level-stronger :
    (k : Kind) (level : Option Level)
    → Partial level
    → raise_level k level ≡ stronger level (kind_level k)
unfolding raise_level stronger
raise_level-stronger k level p = ground arith

raise_level-Partial :
    (k : Kind) (level : Option Level) → Partial level → Partial (raise_level k level)
unfolding raise_level
raise_level-Partial k level p e = ground arith

stronger-major :
    (level b : Option Level) → Partial level → stronger level (stronger (some major) b) ≡ some major
unfolding stronger
stronger-major none b p = refl
stronger-major (some patch) b p = refl
stronger-major (some minor) b p = refl
stronger-major (some major) b p = refl

bump_from-strongest :
    (level : Option Level) (cs : List Commit)
    → Partial level
    → bump_from level cs ≡ stronger level (strongest cs)
unfolding bump_from strongest commit_level stronger
bump_from-strongest level [] p = sym (stronger-none level)
bump_from-strongest level (c ∷ cs) p = elim (Bool-cases (is_generated c.subject)) [
  | inl generated ↦ rw generated (bump_from-strongest level cs p)
  | inr written ↦ elim (Option-cases (match_header c.subject)) [
    | inl other ↦ rw (written, other) (bump_from-strongest level cs p)
    | inr (h, parsed) ↦ elim (Bool-cases (breaks h c.body)) [
      | inl breaking ↦ rw (written, parsed, breaking) (sym (stronger-major level (strongest cs) p))
      | inr kept ↦
          rw (written, parsed, kept)
            (bump_from-strongest (raise_level h.kind level) cs (raise_level-Partial h.kind level p)
              ∙ ap (λ l. stronger l (strongest cs)) (raise_level-stronger h.kind level p)
              ∙ stronger_assoc level (kind_level h.kind) (strongest cs))
    ]
  ]
]

-- `bump_level` returns the strongest level of its commits: major where one of them breaks something,
-- else minor where one is a feat, else patch where one is a fix or a perf, else none, and generated
-- and unconventional subjects count for nothing.
pub bump_level-strongest : (cs : List Commit) → bump_level cs ≡ strongest cs
unfolding bump_level stronger
bump_level-strongest cs = bump_from-strongest none cs (λ e. cc)

strongest-append :
    (cs ds : List Commit) → strongest (cs ++ ds) ≡ stronger (strongest cs) (strongest ds)
unfolding strongest stronger
strongest-append [] ds = refl
strongest-append (c ∷ cs) ds =
    ap (λ l. stronger (commit_level c) l) (strongest-append cs ds)
    ∙ sym (stronger_assoc (commit_level c) (strongest cs) (strongest ds))

-- A range asks for the stronger of what two parts of it ask for.
pub bump_level-append :
    (cs ds : List Commit) → bump_level (cs ++ ds) ≡ stronger (bump_level cs) (bump_level ds)
bump_level-append cs ds =
    bump_level-strongest (cs ++ ds)
    ∙ strongest-append cs ds
    ∙ ap (λ l. stronger l (strongest ds)) (sym (bump_level-strongest cs))
    ∙ ap (λ l. stronger (bump_level cs) l) (sym (bump_level-strongest ds))
