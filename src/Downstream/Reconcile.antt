-- ===== src/Downstream/Reconcile.antt =====
-- ci/bump_downstream.py: `reconcile_hop`, the commands, and what `main` returns.
use traust_contracts.Base.{
  ℕ, Text, codes, text_eq, is, Bool, true, false, not, ◌&&◌, ◌||◌, leb, Option, none, some, List,
  [], ◌∷◌, ◌++◌, length, Result, ok, err, chain_error, stop_iteration, if◌then◌else◌,
}
use traust_contracts.Py.{before_newline, ℤ}
use traust_contracts.Process.{access, filter, lift, pure, require, run, succeeds, ◌>>=◌, ◌>>◌}
use traust_contracts.Downstream.Pins.{pin_in}
use traust_contracts.Downstream.Host.{
  Script, load_state, save_state, find, set, required, Tracked, ChainState, fetch, is_ancestor,
  checkout_new, checkout, commit, push, uv_lock, make_test, read_pyproject,
}
use traust_contracts.Downstream.Repo.{
  Hop, chain, trigger, dirty, origin_main, gh_pr_create, pr_state,
}
use traust_contracts.Downstream.Bumper.{
  Shas, sha_of, branch_name, subject_line, pin_dep, has_pr, pr_of, is_nil,
}

unfoldable pub is_hex : ℕ → Bool
is_hex c = leb b'0' c && leb c b'9' || leb b'a' c && leb c b'f'

unfoldable pub all_hex : Text → Bool
unfolding is_hex
all_hex [] = true
all_hex (c ∷ s) = is_hex c && all_hex s

-- `^[0-9a-f]{7,40}$`, where `$` also matches before a newline at the end.
unfoldable pub is_sha : Text → Bool
unfolding before_newline all_hex
is_sha s =
    let body = before_newline s in all_hex body && leb 7 (length body) && leb (length body) 40

unfoldable pub ask_ancestor : Text → Text → Text → Script Bool
unfolding succeeds codes
ask_ancestor dep pinned tip =
    if text_eq pinned tip
    then pure true
    else succeeds (is_ancestor dep pinned (codes "origin/main"))

unfoldable pub reachable_pin : Text → Text → Option Text → Script Bool
unfolding is_sha ask_ancestor
reachable_pin dep tip none = pure false
reachable_pin dep tip (some pinned) =
    if is_sha pinned then ask_ancestor dep pinned tip else pure false

-- The tips of the pinned repositories, and the ones whose pin is stale.
unfoldable pub survey : Hop → List Text → Script (Shas × List Text)
unfolding run origin_main access pin_in reachable_pin codes
survey hop [] w = (ok ([], []), w)
survey hop (dep ∷ deps) w =
    (run (fetch dep (codes "origin"))
        >> (origin_main dep >>= λ tip. access (read_pyproject hop.name) >>= λ text.
            reachable_pin dep tip (pin_in dep text) >>= λ there. survey hop deps >>= λ more.
            pure ((dep, tip) ∷ more.0, if there then more.1 else dep ∷ more.1)))
      w

unfoldable pub fresh_branch : Hop → Shas → Script Text
unfolding trigger required sha_of branch_name dirty run require
fresh_branch hop shas = do
  unclean ← dirty hop.name
  require (not unclean) chain_error
  dep ← lift (required (trigger hop))
  sha ← sha_of shas dep
  run (checkout_new hop.name (branch_name hop dep sha))
  pure (branch_name hop dep sha)

unfoldable pub back_to : Hop → Text → Script (Option Text)
unfolding dirty run require
back_to hop branch = do
  unclean ← dirty hop.name
  require (not unclean) chain_error
  run (checkout hop.name branch)
  pure (some branch)

unfoldable pub own_branch : Hop → Tracked → ℤ → Script (Option Text)
unfolding pr_state back_to is
own_branch hop tracked number = do
  state ← pr_state hop.name number
  if is state "MERGED" then pure none else back_to hop tracked.branch

unfoldable pub fresh : Hop → Shas → Script (Option Text)
unfolding fresh_branch
fresh hop shas = do branch ← fresh_branch hop shas; pure (some branch)

unfoldable pub tracked_branch : Hop → Shas → Tracked → Option ℤ → Script (Option Text)
unfolding own_branch fresh has_pr
tracked_branch hop shas tracked none = fresh hop shas
tracked_branch hop shas tracked (some number) =
    if has_pr (some number) then own_branch hop tracked number else fresh hop shas

-- The branch to commit on; none where the hop's own pull request has been merged.
unfoldable pub reconcile_branch : Hop → Shas → Option Tracked → Script (Option Text)
unfolding fresh tracked_branch
reconcile_branch hop shas none = fresh hop shas
reconcile_branch hop shas (some tracked) = tracked_branch hop shas tracked tracked.pr

unfoldable pub reconcile_pr : Hop → (branch subject : Text) → Option Tracked → Script (Option ℤ)
unfolding has_pr pr_of gh_pr_create codes
reconcile_pr hop branch subject old =
    if has_pr (pr_of old)
    then pure (pr_of old)
    else (gh_pr_create hop.name branch subject
          (codes "Reconciles pin(s) left dangling by an upstream squash/rebase merge.")
        >>= λ number. pure (some number))

-- The push, the pull request and the state file after the commit.
unfoldable pub recorded :
    Hop → Shas → ChainState → Option Tracked → (branch subject : Text) → Script ChainState
unfolding run reconcile_pr trigger required sha_of set save_state
recorded hop shas state old branch subject = do
  run (push hop.name branch)
  number ← reconcile_pr hop branch subject old
  dep ← lift (required (trigger hop))
  sha ← sha_of shas dep
  let tracked : Tracked = record { branch = branch; dep = dep; head_sha = sha; pr = number }
  save_state (set hop.name tracked state)
  pure (set hop.name tracked state)

unfoldable pub commit_reconciled :
    Hop
    → Shas
    → ChainState
    → Option Tracked
    → (branch : Text) → (changed : List Text) → Script ChainState
unfolding run subject_line recorded codes
commit_reconciled hop shas state old branch changed = do
  run (uv_lock hop.name)
  run (make_test hop.name)
  subject ← subject_line (codes "chore(deps): reconcile stale pin(s) -- ") shas changed
  run (commit hop.name subject)
  recorded hop shas state old branch subject

unfoldable pub repin : Hop → Shas → ChainState → Option Tracked → Option Text → Script ChainState
unfolding filter pin_dep commit_reconciled
repin hop shas state old none = pure state
repin hop shas state old (some branch) = do
  changed ← filter hop.pins (pin_dep hop shas)
  if is_nil changed then pure state else commit_reconciled hop shas state old branch changed

unfoldable pub reconcile_stale : Hop → ChainState → Shas × List Text → Script ChainState
unfolding find reconcile_branch repin
reconcile_stale hop state (shas, []) = pure state
reconcile_stale hop state (shas, dep ∷ stale) = do
  branch ← reconcile_branch hop shas (find hop.name state)
  repin hop shas state (find hop.name state) branch

-- `reconcile_hop`, with the state that it leaves in the dict it was given.
unfoldable pub reconcile_hop : Hop → ChainState → Script ChainState
unfolding survey reconcile_stale
reconcile_hop hop state = do surveyed ← survey hop hop.pins; reconcile_stale hop state surveyed

unfoldable pub reconcile_all : List Hop → ChainState → Script (Unit {0})
unfolding reconcile_hop
reconcile_all [] state w = (ok tt, w)
reconcile_all (hop ∷ hops) state w =
    (reconcile_hop hop state >>= λ state'. reconcile_all hops state') w

unfoldable pub pinning : List Hop → List Hop
pinning [] = []
pinning (hop ∷ hops) = if is_nil hop.pins then pinning hops else hop ∷ pinning hops

-- The first hop that `target` names, in full or without "traust-".
unfoldable pub find_hop : Text → List Hop → Option Hop
unfolding text_eq codes
find_hop target [] = none
find_hop target (hop ∷ hops) =
    if text_eq hop.name target || text_eq hop.name (codes "traust-" ++ target)
    then some hop
    else find_hop target hops

unfoldable pub hop_or_raise : Option Hop → Result (List Hop)
hop_or_raise none = err stop_iteration
hop_or_raise (some hop) = ok (hop ∷ [])

unfoldable pub reconcile_targets : Option Text → Result (List Hop)
unfolding pinning chain find_hop hop_or_raise
reconcile_targets none = ok (pinning chain)
reconcile_targets (some target) = hop_or_raise (find_hop target chain)

unfoldable pub cmd_reconcile : Option Text → Script ℕ
unfolding load_state reconcile_targets reconcile_all
cmd_reconcile target = do
  state ← load_state
  hops ← lift (reconcile_targets target)
  reconcile_all hops state
  pure 0
