-- ===== src/Release/Repo.antt =====
-- src/release.py: `Git` and `Repo` as scripts.
use traust_contracts.Base.{
  Text, codes, text_eq, after, Bool, true, false, not, ◌&&◌, Option, none, some, List, [], ◌∷◌,
  ◌++◌, Result, ok, err, release_error, if◌then◌else◌,
}
use traust_contracts.Py.{ℤ, strip, line_parts}
use traust_contracts.Process.{Action, pure, require, lift, ◌>>=◌, ◌>>◌, run, access, succeeds}
use traust_contracts.Release.Version.{
  is_empty, semver_tuple, tuple_lt, tuple_eq, is_semver, find_version, VersionLine,
}

pub data Command : Type 0 where
  status_porcelain branch_of_head short_head list_tags : Command
  verify_tag : (tag : Text) → Command
  delete_tag : (tag : Text) → Command
  annotate_tag : (tag subject : Text) → Command
  push : (force : Bool) → (ref : Text) → Command
  uv_sync pytest uv_build : Command
  has_version has_pyproject read_version read_pyproject : Command
  write_version write_pyproject : (text : Text) → Command

-- `GitOpts`, and the name of the repository's directory.
pub record Options : Type 0 where
  pub force : Bool
  pub allow_dirty : Bool
  pub name : Text

abbrev pub Script {ℓ} : Type ℓ → Type ℓ
Script A = Action Command Options A

unfoldable pub options : Script Options
options w = (ok w.own, w)

-- `Git.tags`, of which only the first is used.
unfoldable pub first_tag : Text → Option Text
unfolding line_parts
first_tag [] = none
first_tag (c ∷ s) = elim (line_parts (c ∷ s)) [ [] ↦ none | line ∷ lines ↦ some line ]

unfoldable pub newest_tag : Script (Option Text)
unfolding run strip first_tag
newest_tag = do out ← run list_tags; pure (first_tag (strip out))

unfoldable pub dirty : Script Bool
unfolding run strip
dirty = do out ← run status_porcelain; pure (not (is_empty (strip out)))

unfoldable pub require_if : Bool → Script (Unit {0}) → Script (Unit {0})
require_if true m w = m w
require_if false m w = (ok tt, w)

unfoldable pub require_clean : Script (Unit {0})
unfolding options require_if dirty require
require_clean = do
  opts ← options
  require_if (not opts.allow_dirty) (dirty >>= λ unclean. require (not unclean) release_error)

unfoldable pub delete_if : Bool → Text → Script (Unit {0})
unfolding run
delete_if true tag = run (delete_tag tag) >> pure tt
delete_if false tag = pure tt

unfoldable pub delete_existing : Bool → Text → Script (Unit {0})
unfolding succeeds delete_if
delete_existing true tag = succeeds (verify_tag tag) >>= λ there. delete_if there tag
delete_existing false tag = pure tt

unfoldable pub create_tag : Text → Text → Script (Unit {0})
unfolding options delete_existing run
create_tag tag subject = do
  opts ← options
  delete_existing opts.force tag
  run (annotate_tag tag subject)
  pure tt

-- `vf.is_file()` and then `pj.is_file()`.
unfoldable pub both_files : Script Bool
unfolding succeeds
both_files = succeeds has_version >>= λ there. if there then succeeds has_pyproject else pure false

unfoldable pub line_or_raise : Option VersionLine → Result VersionLine
line_or_raise none = err release_error
line_or_raise (some line) = ok line

-- `Repo.version`
unfoldable pub version : Script Text
unfolding both_files require access strip find_version line_or_raise
version = do
  there ← both_files
  require there release_error
  file ← access read_version
  text ← access read_pyproject
  line ← lift (line_or_raise (find_version true text))
  require (text_eq (strip file) line.version) release_error
  pure (strip file)

unfoldable pub tag_name : Text → Text
tag_name v = b'v' ∷ v

unfoldable pub require_tag_missing : Text → Script (Unit {0})
unfolding options succeeds require tag_name
require_tag_missing v = do
  there ← succeeds (verify_tag (tag_name v))
  opts ← options
  require (not (there && not opts.force)) release_error

unfoldable pub set_line : Text → VersionLine → Text
unfolding codes
set_line v line = line.front ++ codes "version = " ++ b'"' ∷ v ++ b'"' ∷ line.rest

unfoldable pub set_version : Text → Script (Unit {0})
unfolding is_semver require require_tag_missing access find_version line_or_raise set_line
set_version v = do
  require (is_semver v) release_error
  require_tag_missing v
  text ← access read_pyproject
  line ← lift (line_or_raise (find_version true text))
  access (write_version (v ++ 10 ∷ []))
  access (write_pyproject (set_line v line))
  pure tt

unfoldable pub check : Script (Unit {0})
unfolding require_clean version require_tag_missing
check = do require_clean; v ← version; require_tag_missing v

unfoldable pub test : Script (Unit {0})
unfolding run
test = run uv_sync >> (run pytest >> pure tt)

unfoldable pub build : Script (Unit {0})
unfolding run
build = run uv_build >> pure tt

-- `message or f"{self.name} {v}"`
unfoldable pub subject_of : Option Text → Text → Text → Text
subject_of none name v = name ++ 32 ∷ v
subject_of (some []) name v = name ++ 32 ∷ v
subject_of (some (c ∷ s)) name v = c ∷ s

unfoldable pub tag : Option Text → Script Text
unfolding version require_tag_missing options create_tag subject_of tag_name
tag message = do
  v ← version
  require_tag_missing v
  opts ← options
  create_tag (tag_name v) (subject_of message opts.name v)
  pure (tag_name v)

unfoldable pub push_all : Script (Unit {0})
unfolding version succeeds require options run strip tag_name
push_all = do
  v ← version
  there ← succeeds (verify_tag (tag_name v))
  require there release_error
  out ← run branch_of_head
  opts ← options
  run (push opts.force (strip out))
  run (push opts.force (tag_name v))
  pure tt

unfoldable pub release : (skip_test : Bool) → Option Text → (pushing : Bool) → Script Text
unfolding check require_if test build tag push_all
release skip_test message pushing = do
  check
  require_if (not skip_test) test
  build
  name ← tag message
  require_if pushing push_all
  pure name

-- `latest_tag_version`, of the newest tag.
unfoldable pub tag_version : Option Text → Option Text
unfolding after codes
tag_version none = none
tag_version (some name) = elim (after (codes "v") name) [ none ↦ some name | some rest ↦ some rest ]

-- What `release_if_ready` does: nothing, as the tag is there or the version is the latest, or a
-- release.
pub data Decision : Type 0 where
  tagged pending_none go : Decision

unfoldable pub compare_versions : List ℤ → List ℤ → Result Decision
unfolding tuple_eq tuple_lt
compare_versions current latest =
    if tuple_eq current latest
    then ok pending_none
    else if tuple_lt current latest
    then err release_error
    else ok go

unfoldable pub both_tuples : Result (List ℤ) → Result (List ℤ) → Result Decision
unfolding compare_versions
both_tuples (err e) latest = err e
both_tuples (ok current) (err e) = err e
both_tuples (ok current) (ok latest) = compare_versions current latest

unfoldable pub decide_untagged : Text → Option Text → Result Decision
unfolding semver_tuple both_tuples
decide_untagged current none = ok go
decide_untagged current (some latest) = both_tuples (semver_tuple current) (semver_tuple latest)

unfoldable pub decide : (there : Bool) → Text → Option Text → Result Decision
unfolding decide_untagged
decide true current latest = ok tagged
decide false current latest = decide_untagged current latest

unfoldable pub act : Option Text → (pushing : Bool) → Text → Decision → Script (Option Text)
unfolding release subject_of options
act message pushing current tagged = pure none
act message pushing current pending_none = pure none
act message pushing current go = do
  opts ← options
  name ← release true (some (subject_of message opts.name current)) pushing
  pure (some name)

unfoldable pub release_if_ready : Option Text → (pushing : Bool) → Script (Option Text)
unfolding version newest_tag tag_version succeeds decide act tag_name
release_if_ready message pushing = do
  current ← version
  newest ← newest_tag
  there ← succeeds (verify_tag (tag_name current))
  decision ← lift (decide there current (tag_version newest))
  act message pushing current decision
