-- ===== src/Tests/Gates.antt =====
-- ci/gates.py on subjects and commits.
use traust_contracts.Base.{◌≡◌, refl, codes, true, [], ◌∷◌, some}
use traust_contracts.Gates.{fix, match_header, validate_subject, Commit, bump_level}
use traust_contracts.Gates.Strongest.{stronger, strongest, bump_level-strongest, bump_level-append}
use traust_contracts.Gates.RoundTrip.{subject_text, validate_subject-subject_text}

abbrev fixed : Commit
unfolding codes
fixed = record { sha = codes "1"; subject = codes "fix(store): a"; body = [] }

abbrev added : Commit
unfolding codes
added = record { sha = codes "2"; subject = codes "feat: b"; body = codes "x" }

bump_level-strongest_example : bump_level (fixed ∷ added ∷ []) ≡ strongest (fixed ∷ added ∷ [])
bump_level-strongest_example = bump_level-strongest (fixed ∷ added ∷ [])

bump_level-append_example :
    bump_level (fixed ∷ added ∷ []) ≡ stronger (bump_level (fixed ∷ [])) (bump_level (added ∷ []))
bump_level-append_example = bump_level-append (fixed ∷ []) (added ∷ [])

validate_subject-subject_text_example :
    (validate_subject (subject_text fix (some (codes "store")) true (codes "a")) ≡ true)
    × (match_header (subject_text fix (some (codes "store")) true (codes "a"))
        ≡ some (record { kind = fix; breaking = true }))
unfolding codes
validate_subject-subject_text_example =
    validate_subject-subject_text fix (some (codes "store")) true (codes "a") refl refl
