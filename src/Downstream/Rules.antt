-- ===== src/Downstream/Rules.antt =====
-- ci/bump_downstream.py: the order of tests and commits in the record of a run, and the rules for
-- scripts that keep it.
use traust_contracts.Base.{
  ◌≡◌, refl, Text, text_eq, Bool, true, false, not, ◌&&◌, Option, none, some, List, [], ◌∷◌, Result,
  Error, ok, err, process_error, os_error, arith, if◌then◌else◌,
}
use traust_contracts.Process
use traust_contracts.Process.{
  Keeps-bind, Keeps-filter, Keeps-for_each, Keeps-if, Keeps-lift, Keeps-pure, Keeps-raise,
  Keeps-require, Policy, Reply, access, run, succeeded, succeeds,
}
use traust_contracts.Downstream.Host.{
  Command, commit, uv_lock, make_test, Event, World, Script, load_state, read_state, save_state,
  ChainState,
}

-- The repository that a command commits to, tests, or locks.
abbrev pub committed_to : Command → Option Text
committed_to (commit repo subject) = some repo
committed_to _ = none

abbrev pub tested : Command → Option Text
tested (make_test repo) = some repo
tested _ = none

abbrev pub locked : Command → Option Text
locked (uv_lock repo) = some repo
locked _ = none

abbrev pub is_repo : Text → Option Text → Bool
is_repo repo none = false
is_repo repo (some other) = text_eq other repo

-- The newest two events are `uv lock` and then `make test` in the repository, and both succeeded.
unfoldable pub ready : Text → List Event → Bool
ready repo (test ∷ lock ∷ log) =
    is_repo repo (tested test.0)
    && succeeded test.1
    && is_repo repo (locked lock.0)
    && succeeded lock.1
ready repo _ = false

abbrev pub may_commit : Option Text → List Event → Bool
may_commit none log = true
may_commit (some repo) log = ready repo log

-- Every commit comes right after a lock and a test run that succeeded in its repository.
unfoldable pub gated : List Event → Bool
unfolding ready
gated [] = true
gated (event ∷ log) = may_commit (committed_to event.0) log && gated log

abbrev pub is_some : Option Text → Bool
is_some none = false
is_some (some repo) = true

abbrev pub failed_test : Event → Bool
failed_test event = is_some (tested event.0) && not (succeeded event.1)

unfoldable pub no_failed_test : List Event → Bool
no_failed_test [] = true
no_failed_test (event ∷ log) = not (failed_test event) && no_failed_test log

abbrev pub before : List Event → List Event
before [] = []
before (event ∷ log) = log

pub record Clean (log : List Event) : Type 0 where
  pub commits : gated log ≡ true
  pub tests : no_failed_test log ≡ true

-- A test run that failed is the last event.
pub record Ended (log : List Event) : Type 0 where
  pub commits : gated log ≡ true
  pub tests : no_failed_test (before log) ≡ true

older_tests : (log : List Event) → no_failed_test log ≡ true → no_failed_test (before log) ≡ true
unfolding no_failed_test
older_tests [] h = h
older_tests (event ∷ log) h = ground arith

pub Clean-Ended : {log : List Event} → Clean log → Ended log
Clean-Ended {log} c = record { commits = c.commits; tests = older_tests log c.tests }

-- A command that is no commit and no test run leaves a clean record.
pub Clean-event :
    (c : Command) (reply : Reply) (log : List Event)
    → committed_to c ≡ none
    → tested c ≡ none
    → Clean log
    → Clean ((c, reply) ∷ log)
unfolding gated no_failed_test
Clean-event c reply log nc nt clean = record {
  commits = rw nc clean.commits;
  tests = rw nt clean.tests;
}

abbrev pub policy : Policy Command
policy = record { Fine = Clean; Over = Ended; over = λ log c. Clean-Ended c }

abbrev pub Post : {A : Type 0} → (A → List Event → Type 0) → Result A → World → Type 0
Post Q r w = Process.Post policy Q r w

abbrev pub Steps : {A : Type 0} → (A → List Event → Type 0) → Script A → Type 0
Steps Q m = Process.Steps policy Q m

abbrev pub Keeps : {A : Type 0} → Script A → Type 0
Keeps m = Process.Keeps policy m

pub Keeps-load_state : Keeps load_state
unfolding load_state
Keeps-load_state = record { runs = λ w c. c }

pub Keeps-read_state : (out : Text) → Keeps (read_state out)
unfolding read_state Process.lift
Keeps-read_state out = record {
  runs = λ w c. (Keeps-lift {policy = policy} (w.own.state_in out)).runs w c;
}

pub Keeps-save_state : (state : ChainState) → Keeps (save_state state)
unfolding save_state
Keeps-save_state state = record { runs = λ w c. c }

module _ (c : Command) (nc : committed_to c ≡ none) (nt : tested c ≡ none) where
  pub Keeps-run : Keeps (run c)
  Keeps-run = Process.Keeps-run c (λ reply log k. Clean-event c reply log nc nt k)

  pub Keeps-access : Keeps (access c)
  Keeps-access = Process.Keeps-access c (λ reply log k. Clean-event c reply log nc nt k)

  pub Keeps-succeeds : Keeps (succeeds c)
  Keeps-succeeds = Process.Keeps-succeeds c (λ reply log k. Clean-event c reply log nc nt k)

pub ruleset script_rules = (
  Keeps-pure, Keeps-raise, Keeps-lift, Keeps-if, Keeps-bind, Keeps-require, Keeps-load_state,
  Keeps-save_state, Keeps-read_state, Keeps-run, Keeps-access, Keeps-succeeds, Keeps-for_each,
  Keeps-filter, refl,
)
