-- ===== src/Downstream/Bumper.antt =====
-- ci/bump_downstream.py: `PinWriter.pin`, `Bumper.run` and `Bumper._finalize`.
use traust_contracts.Base.{
  Text, codes, text_eq, Bool, true, false, not, ◌&&◌, ◌||◌, Option, none, some, List, [], ◌∷◌, ◌++◌,
  ok, chain_error, if◌then◌else◌, zero,
}
use traust_contracts.Py.{ℤ, pos, join}
use traust_contracts.Process.{
  access, filter, for_each, lift, pure, require, run, succeeds, ◌>>=◌, ◌>>◌,
}
use traust_contracts.Downstream.Pins.{pin_source}
use traust_contracts.Downstream.Urls.{retarget_url, drop_floor}
use traust_contracts.Downstream.Host.{
  Script, load_state, save_state, find, set, required, Tracked, checkout_new, commit, push, uv_lock,
  make_test, read_pyproject, write_pyproject,
}
use traust_contracts.Downstream.Repo.{
  Hop, trigger, short, bare, dirty, current_branch, remote_has, origin_slug, gh_pr_create,
}

-- The commits to pin, by the name of their repository.
abbrev pub Shas : Type 0
Shas = List (Text × Text)

unfoldable pub write_changed : Text → Text → Text → Script Bool
unfolding access
write_changed repo text updated =
    if text_eq updated text
    then pure false
    else (access (write_pyproject repo updated) >> pure true)

-- `PinWriter.pin`
unfoldable pub pin : (repo dep sha : Text) → Script Bool
unfolding access origin_slug retarget_url pin_source drop_floor write_changed codes
pin repo dep sha = do
  text ← access (read_pyproject repo)
  slug ← origin_slug dep
  retargeted ← lift (retarget_url text dep (codes "https://github.com/" ++ slug ++ codes ".git"))
  pinned ← lift (pin_source retargeted dep sha)
  write_changed repo text (drop_floor pinned dep)

unfoldable pub branch_name : Hop → Text → Text → Text
unfolding bare short codes
branch_name hop dep sha =
    codes "deps/" ++ bare hop.name ++ codes "-pin-" ++ bare dep ++ b'-' ∷ short sha

unfoldable pub sha_of : Shas → Text → Script Text
unfolding find required
sha_of shas dep = lift (required (find dep shas))

-- `d@sha` of each, where `show` is `short` or nothing.
unfoldable pub pinned_list : (Text → Text) → Shas → List Text → Script (List Text)
unfolding sha_of
pinned_list show shas [] w = (ok [], w)
pinned_list show shas (dep ∷ deps) w =
    (sha_of shas dep
        >>= (λ sha. pinned_list show shas deps >>= λ more. pure ((dep ++ b'@' ∷ show sha) ∷ more)))
      w

unfoldable pub subject_line : Text → Shas → List Text → Script Text
unfolding pinned_list short join codes
subject_line front shas deps = do
  pinned ← pinned_list short shas deps
  pure (front ++ join (codes ", ") pinned)

unfoldable pub pin_subject : Shas → List Text → Script Text
unfolding subject_line codes
pin_subject shas deps = subject_line (codes "chore(deps): pin ") shas deps

unfoldable pub pr_body : Shas → List Text → Script Text
unfolding pinned_list join codes
pr_body shas deps = do
  pinned ← pinned_list (λ sha. sha) shas deps
  pure (
      codes "Automated pin bump via traust-contracts/ci/bump_downstream.py."
      ++ 10 ∷ 10 ∷ codes "Tracks: "
      ++ join (codes ", ") pinned)

unfoldable pub has_pr : Option ℤ → Bool
has_pr none = false
has_pr (some (pos zero)) = false
has_pr (some _) = true

unfoldable pub pr_of : Option Tracked → Option ℤ
pr_of none = none
pr_of (some record_) = record_.pr

-- `record.update({...})`, on the record or on `{}`.
unfoldable pub updated : Option Tracked → (branch dep sha : Text) → Tracked
unfolding pr_of
updated old branch dep sha = record { branch = branch; dep = dep; head_sha = sha; pr = pr_of old }

unfoldable pub open_new :
    Hop → Shas → (branch : Text) → (changed : List Text) → Tracked → Script Tracked
unfolding pin_subject pr_body gh_pr_create
open_new hop shas branch changed tracked = do
  title ← pin_subject shas changed
  body ← pr_body shas changed
  number ← gh_pr_create hop.name branch title body
  pure (record tracked { pr = some number })

unfoldable pub open_or_skip :
    Hop
    → Shas
    → (branch : Text) → (open_pr : Bool) → (changed : List Text) → Tracked
    → Script Tracked
unfolding has_pr open_new text_eq
open_or_skip hop shas branch open_pr changed tracked =
    if open_pr
    then if has_pr tracked.pr && text_eq tracked.branch branch
      then pure tracked
      else open_new hop shas branch changed tracked
    else pure tracked

-- `_finalize`, after its push.
unfoldable pub track :
    Hop → Shas → (branch : Text) → (open_pr : Bool) → (changed : List Text) → Script Bool
unfolding load_state trigger required sha_of find updated open_or_skip set save_state
track hop shas branch open_pr changed = do
  state ← load_state
  dep ← lift (required (trigger hop))
  sha ← sha_of shas dep
  tracked ←
      open_or_skip hop shas branch open_pr changed (updated (find hop.name state) branch dep sha)
  save_state (set hop.name tracked state)
  pure true

unfoldable pub finalize :
    Hop → Shas → (branch : Text) → (pushing open_pr : Bool) → (changed : List Text) → Script Bool
unfolding run track
finalize hop shas branch pushing open_pr changed =
    if pushing
    then (run (push hop.name branch) >> track hop shas branch open_pr changed)
    else pure true

unfoldable pub require_pushed : Shas → Text → Script (Unit {0})
unfolding sha_of remote_has require
require_pushed shas dep = do
  sha ← sha_of shas dep
  there ← remote_has dep sha
  require there chain_error

unfoldable pub pin_dep : Hop → Shas → Text → Script Bool
unfolding sha_of pin
pin_dep hop shas dep = do sha ← sha_of shas dep; pin hop.name dep sha

unfoldable pub or_all : List Text → List Text → List Text
or_all [] all = all
or_all (dep ∷ deps) all = dep ∷ deps

unfoldable pub commit_changed :
    Hop → Shas → (branch : Text) → (pushing open_pr : Bool) → (changed : List Text) → Script Bool
unfolding pin_subject run finalize
commit_changed hop shas branch pushing open_pr changed = do
  subject ← pin_subject shas changed
  run (commit hop.name subject)
  finalize hop shas branch pushing open_pr changed

-- `uv lock`, `make test`, and the commit if the tests pass.
unfoldable pub gate :
    Hop → Shas → (branch : Text) → (pushing open_pr : Bool) → (changed : List Text) → Script Bool
unfolding run succeeds commit_changed
gate hop shas branch pushing open_pr changed = do
  run (uv_lock hop.name)
  passed ← succeeds (make_test hop.name)
  if passed then commit_changed hop shas branch pushing open_pr changed else pure false

abbrev pub is_nil : List Text → Bool
is_nil [] = true
is_nil (dep ∷ deps) = false

unfoldable pub start_branch : Hop → Text → Bool → Script (Unit {0})
unfolding run
start_branch hop branch resuming =
    if resuming then pure tt else (run (checkout_new hop.name branch) >> pure tt)

-- The four cases of `run`, from its pins on.
unfoldable pub proceed :
    Hop
    → Shas
    → (branch : Text) → (resuming was_dirty pushing open_pr : Bool) → (changed : List Text)
    → Script Bool
unfolding finalize start_branch gate or_all
proceed hop shas branch resuming was_dirty pushing open_pr changed =
    if not resuming && is_nil changed
    then pure true
    else if resuming && not was_dirty && is_nil changed
    then finalize hop shas branch pushing open_pr hop.pins
    else (start_branch hop branch resuming
        >> gate hop shas branch pushing open_pr (or_all changed hop.pins))

-- `Bumper.run`
unfoldable pub bump_hop : Hop → Shas → (push_it open_pr : Bool) → Script Bool
unfolding trigger required sha_of branch_name current_branch dirty for_each require_pushed filter
    pin_dep proceed text_eq require
bump_hop hop shas push_it open_pr = do
  dep ← lift (required (trigger hop))
  sha ← sha_of shas dep
  here ← current_branch hop.name
  was_dirty ← dirty hop.name
  let branch = branch_name hop dep sha
  let resuming = text_eq here branch
  require (not (was_dirty && not resuming)) chain_error
  for_each hop.pins (require_pushed shas)
  changed ← filter hop.pins (pin_dep hop shas)
  proceed hop shas branch resuming was_dirty (push_it || open_pr) open_pr changed
