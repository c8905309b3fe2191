-- ===== src/Gates/Mr.antt =====
-- ci/gates.py: the scripts that read a range of commits, and what `main` returns for them.
use traust_contracts.Base.{
  ℕ, ◌==◌, Text, codes, text_eq, after, Bool, true, false, ◌&&◌, ◌||◌, Option, none, some, List, [],
  ◌∷◌, Result, ok, err, value_error, git_error, if◌then◌else◌,
}
use traust_contracts.Py.{ℤ, split, strip, take, line_parts}
use traust_contracts.Process.{Action, pure, lift, issue, checked, access, succeeds, ◌>>=◌, ◌>>◌}
use traust_contracts.Release.{semver_tuple, tuple_lt, tuple_eq, three_digits}
use traust_contracts.Gates.Subjects.{validate_subject}
use traust_contracts.Gates.Bump.{Commit, Level, bump_level}

pub data Request : Type 0 where
  resolve_commit : (ref : Text) → Request
  log_range : (base head : Text) → Request
  show_version : (ref : Text) → Request
  version_file has_changelog changelog_file : Request
  message_file : (path : Text) → Request

abbrev pub Script {ℓ} : Type ℓ → Type ℓ
Script A = Action Request (Unit {0}) A

-- `_git`
unfoldable pub git : Request → Script Text
unfolding issue checked
git c = issue c >>= λ reply. lift (checked git_error reply)

-- `entry.strip("\n")`
unfoldable pub lstrip_lines : Text → Text
lstrip_lines [] = []
lstrip_lines (c ∷ s) = if c == 10 then lstrip_lines s else c ∷ s

unfoldable pub unless_line : ℕ → Text → Text
unless_line c [] = if c == 10 then [] else c ∷ []
unless_line c (d ∷ s) = c ∷ d ∷ s

unfoldable pub rstrip_lines : Text → Text
unfolding unless_line
rstrip_lines [] = []
rstrip_lines (c ∷ s) = unless_line c (rstrip_lines s)

-- The text in front of the first "\x1f", and the text behind it.
unfoldable pub cut : Text → Option (Text × Text)
cut [] = none
cut (c ∷ s) =
    let later = cut s in
    if c == 31
    then some ([], s)
    else elim later [ none ↦ none | some (front, rest) ↦ some (c ∷ front, rest) ]

unfoldable pub body_of : Text → Option (Text × Text) → Result Commit
body_of sha none = err value_error
body_of sha (some (subject, body)) = ok (record { sha = sha; subject = subject; body = body })

-- `sha, subject, body = entry.split("\x1f", 2)`
unfoldable pub commit_of : Text → Result Commit
unfolding cut body_of
commit_of entry = elim (cut entry) [
  | none ↦ err value_error
  | some (sha, rest) ↦ body_of sha (cut rest)
]

unfoldable pub add_commit : Result Commit → Result (List Commit) → Result (List Commit)
add_commit (err e) commits = err e
add_commit (ok commit) (err e) = err e
add_commit (ok commit) (ok commits) = ok (commit ∷ commits)

unfoldable pub with_entry : Text → Result (List Commit) → Result (List Commit)
unfolding commit_of add_commit
with_entry [] commits = commits
with_entry (c ∷ entry) commits = add_commit (commit_of (c ∷ entry)) commits

unfoldable pub commits_of : List Text → Result (List Commit)
unfolding lstrip_lines rstrip_lines with_entry
commits_of [] = ok []
commits_of (entry ∷ entries) = with_entry (rstrip_lines (lstrip_lines entry)) (commits_of entries)

-- `_log`
unfoldable pub log : Text → Text → Script (List Commit)
unfolding git split commits_of
log base head = git (log_range base head) >>= λ out. lift (commits_of (split 30 out))

-- The commit that `validate_range` reports, with its short hash.
unfoldable pub first_bad : List Commit → Option (Text × Text)
unfolding validate_subject take
first_bad [] = none
first_bad (commit ∷ commits) =
    let later = first_bad commits in
    if validate_subject commit.subject then later else some (take 8 commit.sha, commit.subject)

unfoldable pub validate_range : Text → Text → Script (Option (Text × Text))
unfolding git log first_bad
validate_range base head = do
  git (resolve_commit base)
  git (resolve_commit head)
  commits ← log base head
  pure (first_bad commits)

unfoldable pub bump_between : Text → Text → Script (Option Level)
unfolding log bump_level
bump_between base head = log base head >>= λ commits. pure (bump_level commits)

unfoldable pub until_bracket : Text → Option Text
until_bracket [] = none
until_bracket (c ∷ s) =
    let later = until_bracket s in
    if c == b']' then some [] else elim later [ none ↦ none | some front ↦ some (c ∷ front) ]

unfoldable pub is_section : Text → Option Text → Bool
unfolding three_digits split text_eq
is_section version none = false
is_section version (some found) = three_digits (split b'.' found) && text_eq found version

unfoldable pub section_here : Text → Text → Bool
unfolding after codes until_bracket is_section
section_here version s = elim (after (codes "## [") s) [
  | none ↦ false
  | some rest ↦ is_section version (until_bracket rest)
]

-- A match of CHANGELOG_SECTION_RE, at the start of a line, with the version.
unfoldable pub has_section : (at_start : Bool) → Text → Text → Bool
unfolding section_here
has_section at_start version [] = false
has_section at_start version (c ∷ s) =
    at_start && section_here version (c ∷ s) || has_section (c == 10) version s

unfoldable pub changelog_has : Text → Script Bool
unfolding succeeds access has_section
changelog_has version = do
  there ← succeeds has_changelog
  if there
      then (access changelog_file >>= λ text. pure (has_section true version text))
      else pure false

-- What `check_release_mr` reports.
pub data Problem : Type 0 where
  bumped_without_section : (version : Text) → Problem
  still : (needed : Level) → (head base : Text) → Problem
  without_section : (version : Text) → Problem

unfoldable pub section_or : Problem → Text → Script (Option Problem)
unfolding changelog_has
section_or problem version =
    changelog_has version >>= λ there. pure (if there then none else some problem)

unfoldable pub judge_tuples : Option Level → Text → Text → List ℤ → List ℤ → Script (Option Problem)
unfolding section_or tuple_lt tuple_eq
judge_tuples none head base h b =
    if tuple_lt b h then section_or (bumped_without_section head) head else pure none
judge_tuples (some needed) head base h b =
    if tuple_lt h b || tuple_eq h b
    then pure (some (still needed head base))
    else section_or (without_section head) head

unfoldable pub judge : Option Level → Text → Text → Script (Option Problem)
unfolding semver_tuple judge_tuples
judge needed head base = do
  h ← lift (semver_tuple head)
  b ← lift (semver_tuple base)
  judge_tuples needed head base h b

unfoldable pub check_release_mr : Text → Text → Script (Option Problem)
unfolding git bump_between access strip judge
check_release_mr base head = do
  git (resolve_commit base)
  git (resolve_commit head)
  needed ← bump_between base head
  base_version ← git (show_version base)
  head_version ← access version_file
  judge needed (strip head_version) (strip base_version)

-- The commands of `main`, with their arguments.
pub data Call : Type 0 where
  subject : (path : Text) → Call
  range bump mr : (base head : Text) → Call

-- `text.splitlines()[0].strip() if text else ""`
unfoldable pub subject_of_message : Text → Text
unfolding strip line_parts
subject_of_message [] = []
subject_of_message (c ∷ s) = elim (line_parts (c ∷ s)) [ [] ↦ [] | line ∷ lines ↦ strip line ]

abbrev pub exit_code {ℓ} : {A : Type ℓ} → Option A → ℕ
exit_code none = 0
exit_code (some found) = 1

unfoldable pub call : Call → Script ℕ
unfolding access subject_of_message validate_subject validate_range bump_between check_release_mr
call (subject path) = access (message_file path) >>= λ text.
    pure (if validate_subject (subject_of_message text) then 0 else 1)
call (range base head) = validate_range base head >>= λ found. pure (exit_code found)
call (bump base head) = bump_between base head >>= λ level. pure 0
call (mr base head) = check_release_mr base head >>= λ found. pure (exit_code found)

-- `except GitError`
unfoldable pub caught : Call → Result ℕ → Result ℕ
caught (subject path) result = result
caught _ (err git_error) = ok 1
caught _ result = result

unfoldable pub main : Call → Script ℕ
unfolding call caught
main c w = let (result, w') = call c w in (caught c result, w')
