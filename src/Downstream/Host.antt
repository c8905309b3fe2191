-- ===== src/Downstream/Host.antt =====
-- ci/bump_downstream.py: what the script asks of the machine it runs on, and the record of it.
--
-- The host answers each command from the commands before it: a process fails or prints a text. The
-- state file is kept apart, since no command but the script's own touches it.
use traust_contracts.Base.{
  Text, text_eq, Option, none, some, List, [], ◌∷◌, Result, ok, err, key_error, if◌then◌else◌,
}
use traust_contracts.Process.{Reply, Machine, Action}
use traust_contracts.Py.{ℤ}

-- The processes and file accesses, each in the directory of a repository.
pub data Command : Type 0 where
  rev_parse : (repo ref : Text) → Command
  status_porcelain : (repo : Text) → Command
  branch_of_head : (repo : Text) → Command
  fetch : (repo remote : Text) → Command
  count_commits : (repo old new : Text) → Command
  is_ancestor : (repo commit ref : Text) → Command
  branches_with : (repo sha : Text) → Command
  checkout_new : (repo branch : Text) → Command
  checkout : (repo branch : Text) → Command
  commit : (repo subject : Text) → Command
  push : (repo branch : Text) → Command
  remote_url : (repo remote : Text) → Command
  uv_lock : (repo : Text) → Command
  make_test : (repo : Text) → Command
  pr_create : (repo base head title body : Text) → Command
  pr_view : (repo base : Text) → ℤ → Command
  read_pyproject : (repo : Text) → Command
  write_pyproject : (repo text : Text) → Command

abbrev pub Event : Type 0
Event = Command × Reply

-- A record of .chain-state.json: a branch that was pushed, and the pull request opened for it.
pub record Tracked : Type 0 where
  pub branch : Text
  pub dep : Text
  pub head_sha : Text
  pub pr : Option ℤ

abbrev pub ChainState : Type 0
ChainState = List (Text × Tracked)

-- The state file, and `json.loads` of what `gh pr view` printed with its "state".
pub record Store : Type 0 where
  pub saved : ChainState
  pub state_in : Text → Result Text

abbrev pub World : Type 0
World = Machine Command Store

abbrev pub Script {ℓ} : Type ℓ → Type ℓ
Script A = Action Command Store A

-- `json.loads(out)["state"]`
unfoldable pub read_state : Text → Script Text
read_state out w = (w.own.state_in out, w)

unfoldable pub load_state : Script ChainState
load_state w = (ok w.own.saved, w)

unfoldable pub save_state : ChainState → Script (Unit {0})
save_state state w = (ok tt, record w { own = record w.own { saved = state } })

module _ {ℓ} {V : Type ℓ} where
  -- `d.get(key)`
  unfoldable pub find : Text → List (Text × V) → Option V
  unfolding text_eq
  find key [] = none
  find key (entry ∷ entries) = if text_eq entry.0 key then some entry.1 else find key entries

  -- `d[key] = value`
  unfoldable pub set : Text → V → List (Text × V) → List (Text × V)
  unfolding text_eq
  set key value [] = (key, value) ∷ []
  set key value (entry ∷ entries) =
      if text_eq entry.0 key then (key, value) ∷ entries else entry ∷ set key value entries

  unfoldable pub required : Option V → Result V
  required none = err key_error
  required (some value) = ok value
