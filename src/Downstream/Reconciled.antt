-- ===== src/Downstream/Reconciled.antt =====
-- ci/bump_downstream.py: what `reconcile` leaves in the record of a run.
use traust_contracts.Base.{
  codes, refl, Text, false, Option, none, some, List, [], ◌∷◌, process_error, if◌then◌else◌,
}
use traust_contracts.Py.{ℤ}
use traust_contracts.Process.{
  Keeps-bind, Keeps-pure, Reply, Steps-bind, carry, checked, continue, failed, issue, lift, printed,
  run, ◌>>=◌,
}
use traust_contracts.Downstream.Host.{make_test, uv_lock, World, Tracked, ChainState}
use traust_contracts.Downstream.Pins.{pin_in}
use traust_contracts.Downstream.Repo.{Hop}
use traust_contracts.Downstream.Bumper.{Shas}
use traust_contracts.Downstream.Reconcile.{
  ask_ancestor, reachable_pin, survey, fresh_branch, back_to, own_branch, fresh, tracked_branch,
  reconcile_branch, reconcile_pr, commit_reconciled, recorded, repin, reconcile_stale,
  reconcile_hop, reconcile_all, cmd_reconcile,
}
use traust_contracts.Downstream.Rules.{
  policy, Clean, Post, Keeps, Keeps-run, Keeps-access, script_rules,
}
use traust_contracts.Downstream.Quiet.{
  Keeps-dirty, Keeps-origin_main, Keeps-pr_state, Keeps-gh_pr_create, Keeps-pin_dep,
}
use traust_contracts.Downstream.Tested.{Ready, Locked, Locked-run, Tested-reply, commit_subject}

Keeps-ask_ancestor : (dep pinned tip : Text) → Keeps (ask_ancestor dep pinned tip)
unfolding ask_ancestor
Keeps-ask_ancestor dep pinned tip = search (script_rules)

Keeps-reachable_pin : (dep tip : Text) (pinned : Option Text) → Keeps (reachable_pin dep tip pinned)
unfolding reachable_pin
Keeps-reachable_pin dep tip none = Keeps-pure false
Keeps-reachable_pin dep tip (some pinned) = search (script_rules, Keeps-ask_ancestor)

Keeps-survey : (hop : Hop) (deps : List Text) → Keeps (survey hop deps)
unfolding survey
Keeps-survey hop [] = record { runs = λ w c. c }
Keeps-survey hop (dep ∷ deps) = record {
  runs =
      (Keeps-bind _ _ (Keeps-run _ refl refl) (λ fetched.
        Keeps-bind _ _ (Keeps-origin_main dep) (λ tip.
          Keeps-bind _ _ (Keeps-access _ refl refl) (λ text.
            Keeps-bind _ _ (Keeps-reachable_pin dep tip (pin_in dep text)) (λ there.
              Keeps-bind _ _ (Keeps-survey hop deps) (λ more.
                Keeps-pure ((dep, tip) ∷ more.0, if there then more.1 else dep ∷ more.1))))))).runs;
}

Keeps-fresh_branch : (hop : Hop) (shas : Shas) → Keeps (fresh_branch hop shas)
unfolding fresh_branch
Keeps-fresh_branch hop shas = search (script_rules, Keeps-dirty) depth 8

Keeps-fresh : (hop : Hop) (shas : Shas) → Keeps (fresh hop shas)
unfolding fresh
Keeps-fresh hop shas = search (script_rules, Keeps-fresh_branch)

Keeps-back_to : (hop : Hop) (branch : Text) → Keeps (back_to hop branch)
unfolding back_to
Keeps-back_to hop branch = search (script_rules, Keeps-dirty)

Keeps-own_branch :
    (hop : Hop) (tracked : Tracked) (number : ℤ) → Keeps (own_branch hop tracked number)
unfolding own_branch
Keeps-own_branch hop tracked number = search (script_rules, Keeps-pr_state, Keeps-back_to)

Keeps-tracked_branch :
    (hop : Hop) (shas : Shas) (tracked : Tracked) (pr : Option ℤ)
    → Keeps (tracked_branch hop shas tracked pr)
unfolding tracked_branch
Keeps-tracked_branch hop shas tracked none = Keeps-fresh hop shas
Keeps-tracked_branch hop shas tracked (some number) =
    search (script_rules, Keeps-own_branch, Keeps-fresh)

Keeps-reconcile_branch :
    (hop : Hop) (shas : Shas) (old : Option Tracked) → Keeps (reconcile_branch hop shas old)
unfolding reconcile_branch
Keeps-reconcile_branch hop shas none = Keeps-fresh hop shas
Keeps-reconcile_branch hop shas (some tracked) = Keeps-tracked_branch hop shas tracked tracked.pr

Keeps-reconcile_pr :
    (hop : Hop) (branch subject : Text) (old : Option Tracked)
    → Keeps (reconcile_pr hop branch subject old)
unfolding reconcile_pr
Keeps-reconcile_pr hop branch subject old = search (script_rules, Keeps-gh_pr_create)

-- A test run that must succeed.
checked_test :
    (repo : Text) (w : World) (reply : Reply)
    → Locked repo w.log
    → Post
        (λ out log. Ready repo log)
        (checked process_error reply)
        (record w { log = (make_test repo, reply) ∷ w.log })
unfolding checked
checked_test repo w failed l = Tested-reply repo w failed l
checked_test repo w (printed text) l = Tested-reply repo w (printed text) l

Ready-run :
    (repo : Text) (w : World)
    → Locked repo w.log
    → Post (λ out log. Ready repo log) (run (make_test repo) w).0 (run (make_test repo) w).1
unfolding run issue ◌>>=◌ continue lift
Ready-run repo w l = checked_test repo w (w.host w.log (make_test repo)) l

Keeps-recorded :
    (hop : Hop) (shas : Shas) (state : ChainState) (old : Option Tracked) (branch subject : Text)
    → Keeps (recorded hop shas state old branch subject)
unfolding recorded
Keeps-recorded hop shas state old branch subject = search (script_rules, Keeps-reconcile_pr) depth 9

Keeps-commit_reconciled :
    (hop : Hop) (shas : Shas) (state : ChainState) (old : Option Tracked) (branch : Text)
    (changed : List Text)
    → Keeps (commit_reconciled hop shas state old branch changed)
unfolding commit_reconciled ◌>>=◌
Keeps-commit_reconciled hop shas state old branch changed =
    Steps-bind (λ out log. Locked hop.name log) (λ s log. Clean log) (run (uv_lock hop.name)) _
      (Locked-run hop.name)
      λ out w l.
        carry policy (λ out log. Ready hop.name log) (λ s log. Clean log)
          (run (make_test hop.name) w).0 _ (run (make_test hop.name) w).1 (Ready-run hop.name w l)
          (λ out u r.
            commit_subject (λ s log. Clean log) (codes "chore(deps): reconcile stale pin(s) -- ")
              shas changed hop.name (recorded hop shas state old branch)
              (λ subject v c. (Keeps-recorded hop shas state old branch subject).runs v c) u r)

Keeps-repin :
    (hop : Hop) (shas : Shas) (state : ChainState) (old : Option Tracked) (branch : Option Text)
    → Keeps (repin hop shas state old branch)
unfolding repin
Keeps-repin hop shas state old none = Keeps-pure state
Keeps-repin hop shas state old (some branch) =
    search (script_rules, Keeps-pin_dep, Keeps-commit_reconciled)

Keeps-reconcile_stale :
    (hop : Hop) (state : ChainState) (surveyed : Shas × List Text)
    → Keeps (reconcile_stale hop state surveyed)
unfolding reconcile_stale
Keeps-reconcile_stale hop state (shas, []) = Keeps-pure state
Keeps-reconcile_stale hop state (shas, dep ∷ stale) =
    search (script_rules, Keeps-reconcile_branch, Keeps-repin)

Keeps-reconcile_hop : (hop : Hop) (state : ChainState) → Keeps (reconcile_hop hop state)
unfolding reconcile_hop
Keeps-reconcile_hop hop state = search (script_rules, Keeps-survey, Keeps-reconcile_stale)

Keeps-reconcile_all : (hops : List Hop) (state : ChainState) → Keeps (reconcile_all hops state)
unfolding reconcile_all
Keeps-reconcile_all [] state = record { runs = λ w c. c }
Keeps-reconcile_all (hop ∷ hops) state = record {
  runs =
      (Keeps-bind _ _ (Keeps-reconcile_hop hop state)
        (λ state'. Keeps-reconcile_all hops state')).runs;
}

reconciled : (target : Option Text) → Keeps (cmd_reconcile target)
unfolding cmd_reconcile
reconciled target = search (script_rules, Keeps-reconcile_all)

-- `cmd_reconcile`, run on a record in which every commit follows a lock and a test run that
-- succeeded in its repository and no test run failed, leaves such a record where it returns; where
-- it raises, the last event may be a test run that failed.
pub cmd_reconcile-Clean :
    (target : Option Text) (w : World)
    → Clean w.log
    → Post (λ code log. Clean log) (cmd_reconcile target w).0 (cmd_reconcile target w).1
cmd_reconcile-Clean target w c = (reconciled target).runs w c
