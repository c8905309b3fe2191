-- ===== src/Downstream/Commands.antt =====
-- ci/bump_downstream.py: `cmd_status`, `cmd_bump` and `cmd_chain`.
use traust_contracts.Base.{
  ℕ, Text, codes, text_eq, Bool, true, false, not, ◌&&◌, Option, none, some, List, [], ◌∷◌, Result,
  ok, err, chain_error, if◌then◌else◌,
}
use traust_contracts.Py.{all_digits, ℤ, pos, strip, int_of}
use traust_contracts.Process.{access, lift, pure, run, succeeds, ◌>>=◌, ◌>>◌}
use traust_contracts.Downstream.Pins.{pin_in}
use traust_contracts.Downstream.Host.{
  Script, required, fetch, is_ancestor, count_commits, read_pyproject,
}
use traust_contracts.Downstream.Repo.{
  Hop, chain, trigger, head, origin_main, at_or_ahead, is_empty, resolve_shas,
}
use traust_contracts.Downstream.Bumper.{is_nil, bump_hop}
use traust_contracts.Downstream.Reconcile.{is_sha, find_hop}

-- CURRENT, BEHIND(n) and DANGLING.
pub data PinState : Type 0 where
  current : PinState
  behind : ℤ → PinState
  dangling : PinState

pub record Drift : Type 0 where
  pub dep : Text
  pub tip : Text
  pub pinned : Text
  pub state : PinState

-- A line of `status`; `stale` is CHECKOUT-STALE.
pub record HopStatus : Type 0 where
  pub name : Text
  pub local : Text
  pub stale : Bool
  pub drift : List Drift

unfoldable pub count_in : Text → Result ℤ
unfolding all_digits int_of
count_in out = if not (is_empty out) && all_digits out then int_of out else ok (pos 0)

unfoldable pub commits_between : (repo old new : Text) → Script ℤ
unfolding run strip count_in
commits_between repo old new = do
  out ← run (count_commits repo old new)
  lift (count_in (strip out))

unfoldable pub behind_or_dangling : Text → Text → Bool → Script PinState
unfolding commits_between codes
behind_or_dangling dep pinned true = do
  count ← commits_between dep pinned (codes "origin/main")
  pure (behind count)
behind_or_dangling dep pinned false = pure dangling

unfoldable pub ask_reachable : Text → Text → Script Bool
unfolding is_sha succeeds codes
ask_reachable dep pinned =
    if is_sha pinned then succeeds (is_ancestor dep pinned (codes "origin/main")) else pure false

unfoldable pub pin_state : (dep tip pinned : Text) → Script PinState
unfolding text_eq behind_or_dangling ask_reachable
pin_state dep tip pinned =
    if text_eq pinned tip
    then pure current
    else (ask_reachable dep pinned >>= λ there. behind_or_dangling dep pinned there)

-- `current_pin(dep) or "?"`
unfoldable pub or_unknown : Option Text → Text
unfolding codes
or_unknown none = codes "?"
or_unknown (some pinned) = pinned

unfoldable pub drift_of : Hop → Text → Script Drift
unfolding run origin_main access pin_in or_unknown pin_state codes
drift_of hop dep = do
  run (fetch dep (codes "origin"))
  tip ← origin_main dep
  text ← access (read_pyproject hop.name)
  let pinned = or_unknown (pin_in dep text)
  state ← pin_state dep tip pinned
  pure (record { dep = dep; tip = tip; pinned = pinned; state = state })

unfoldable pub drifts : Hop → List Text → Script (List Drift)
unfolding drift_of
drifts hop [] w = (ok [], w)
drifts hop (dep ∷ deps) w =
    (drift_of hop dep >>= (λ drift. drifts hop deps >>= λ more. pure (drift ∷ more))) w

unfoldable pub hop_status : Hop → Script HopStatus
unfolding run head origin_main at_or_ahead drifts codes
hop_status hop = do
  run (fetch hop.name (codes "origin"))
  local ← head hop.name
  main ← origin_main hop.name
  good ← at_or_ahead hop.name local main
  drift ← drifts hop hop.pins
  pure (record { name = hop.name; local = local; stale = not good; drift = drift })

unfoldable pub statuses : List Hop → Script (List HopStatus)
unfolding hop_status
statuses [] w = (ok [], w)
statuses (hop ∷ hops) w =
    (hop_status hop >>= (λ status. statuses hops >>= λ more. pure (status ∷ more))) w

unfoldable pub cmd_status : Script (List HopStatus)
unfolding statuses chain
cmd_status = statuses chain

abbrev pub exit_code : Bool → ℕ
exit_code true = 0
exit_code false = 1

-- A hop with the commits of the repositories in front of it.
unfoldable pub bump_from_heads : Hop → (push_it open_pr : Bool) → Script Bool
unfolding trigger required resolve_shas bump_hop
bump_from_heads hop push_it open_pr = do
  dep ← lift (required (trigger hop))
  shas ← resolve_shas dep
  bump_hop hop shas push_it open_pr

unfoldable pub bump_target : Option Hop → Result Hop
bump_target none = err chain_error
bump_target (some hop) = if is_nil hop.pins then err chain_error else ok hop

unfoldable pub cmd_bump : (target : Text) → (push_it open_pr : Bool) → Script ℕ
unfolding find_hop chain bump_target bump_from_heads
cmd_bump target push_it open_pr = do
  hop ← lift (bump_target (find_hop target chain))
  done ← bump_from_heads hop push_it open_pr
  pure (exit_code done)

unfoldable pub walk : List Hop → (push_it open_pr : Bool) → Script ℕ
unfolding bump_from_heads
walk [] push_it open_pr w = (ok 0, w)
walk (hop ∷ hops) push_it open_pr w =
    let rest : Script ℕ = walk hops push_it open_pr in
    (if is_nil hop.pins
        then rest
        else (bump_from_heads hop push_it open_pr >>= λ done. if done then rest else pure 1))
      w

unfoldable pub cmd_chain : (push_it open_pr : Bool) → Script ℕ
unfolding walk chain
cmd_chain push_it open_pr = walk chain push_it open_pr
