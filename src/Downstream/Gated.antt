-- ===== src/Downstream/Gated.antt =====
-- ci/bump_downstream.py: what each command leaves in the record of a run.
use traust_contracts.Base.{
  codes, ◌≡◌, ℕ, Text, Bool, true, false, List, [], ◌∷◌, Result, ok, err, arith, if◌then◌else◌,
}
use traust_contracts.Process.{
  Keeps-filter, Keeps-for_each, Keeps-lift, Keeps-pure, Keeps-require, Steps-bind, carry, lift,
  pure, run, succeeds, ◌>>=◌,
}
use traust_contracts.Downstream.Host.{Script, make_test, uv_lock, Event, World}
use traust_contracts.Downstream.Repo.{Hop, chain}
use traust_contracts.Downstream.Bumper.{
  Shas, pin_subject, gate, commit_changed, proceed, bump_hop, finalize, is_nil,
}
use traust_contracts.Downstream.Reconcile.{find_hop}
use traust_contracts.Downstream.Commands.{
  bump_target, bump_from_heads, exit_code, cmd_bump, walk, cmd_chain,
}
use traust_contracts.Downstream.Rules.{policy, Clean, Ended, Clean-Ended, Post, Steps, Keeps}
use traust_contracts.Downstream.Quiet.{
  Keeps-finalize, Keeps-start_branch, Keeps-dirty, Keeps-current_branch, Keeps-require_pushed,
  Keeps-pin_dep, Keeps-resolve_shas,
}
use traust_contracts.Downstream.Tested.{
  Ready, Locked, Tested, Locked-run, Tested-succeeds, commit_subject,
}

-- `False` comes only where the tests have failed.
abbrev pub Stops : Bool → List Event → Type 0
Stops true log = Clean log
Stops false log = Ended log

Stops-Keeps : (m : Script Bool) → Keeps m → Steps Stops m
Stops-Keeps m k = record { runs = λ w c. go (m w).0 (m w).1 (k.runs w c) }
  where
    go : (r : Result Bool) (w : World) → Post (λ b log. Clean log) r w → Post Stops r w
    go (ok true) w p = p
    go (ok false) w p = Clean-Ended p
    go (err e) w p = p

Stops-if :
    (b : Bool) (m n : Script Bool)
    → Steps Stops m
    → Steps Stops n
    → Steps Stops (if b then m else n)
Stops-if true m n km kn = km
Stops-if false m n km kn = kn

Stops-bind :
    {A : Type 0} (m : Script A) (f : A → Script Bool)
    → Keeps m
    → ((a : A) → Steps Stops (f a))
    → Steps Stops (m >>= f)
Stops-bind m f km kf = Steps-bind (λ a log. Clean log) Stops m f km (λ a w c. (kf a).runs w c)

module _ (hop : Hop) (shas : Shas) (branch : Text) (pushing open_pr : Bool) where
  commit_changed-Stops :
      (changed : List Text) (w : World)
      → Ready hop.name w.log
      → Post Stops
          (commit_changed hop shas branch pushing open_pr changed w).0
          (commit_changed hop shas branch pushing open_pr changed w).1
  unfolding commit_changed pin_subject
  commit_changed-Stops changed w r =
      commit_subject Stops (codes "chore(deps): pin ") shas changed hop.name
        (λ subject. finalize hop shas branch pushing open_pr changed)
        (λ subject u c.
          (Stops-Keeps (finalize hop shas branch pushing open_pr changed)
              (Keeps-finalize hop shas branch pushing open_pr changed)).runs
            u c)
        w r

  after_tests :
      (changed : List Text) (passed : Bool) (w : World)
      → Tested hop.name passed w.log
      → Post Stops
          ((if passed then commit_changed hop shas branch pushing open_pr changed else pure false)
            w).0
          ((if passed then commit_changed hop shas branch pushing open_pr changed else pure false)
            w).1
  unfolding pure
  after_tests changed true w t = commit_changed-Stops changed w t
  after_tests changed false w t = t

  gate-Stops : (changed : List Text) → Steps Stops (gate hop shas branch pushing open_pr changed)
  unfolding gate ◌>>=◌
  gate-Stops changed =
      Steps-bind (λ out log. Locked hop.name log) Stops (run (uv_lock hop.name)) _
        (Locked-run hop.name)
        λ out w l.
          carry policy (λ passed log. Tested hop.name passed log) Stops
            (succeeds (make_test hop.name) w).0
            (λ passed.
              if passed then commit_changed hop shas branch pushing open_pr changed else pure false)
            (succeeds (make_test hop.name) w).1 (Tested-succeeds hop.name w l) (after_tests changed)

  proceed-Stops :
      (resuming was_dirty : Bool) (changed : List Text)
      → Steps Stops (proceed hop shas branch resuming was_dirty pushing open_pr changed)
  unfolding proceed
  proceed-Stops resuming was_dirty changed = search (
    Stops-if, Stops-bind, Stops-Keeps, Keeps-pure, Keeps-finalize, Keeps-start_branch, gate-Stops,
  )

-- `run` with what `resolve_shas` or a caller found.
pub bump_hop-Stops :
    (hop : Hop) (shas : Shas) (push_it open_pr : Bool)
    → Steps Stops (bump_hop hop shas push_it open_pr)
unfolding bump_hop
bump_hop-Stops hop shas push_it open_pr =
    search
      (
        Stops-bind, Keeps-lift, Keeps-current_branch, Keeps-dirty, Keeps-require, Keeps-for_each,
        Keeps-require_pushed, Keeps-filter, Keeps-pin_dep, proceed-Stops,
      )
      depth 12

pub bump_from_heads-Stops :
    (hop : Hop) (push_it open_pr : Bool) → Steps Stops (bump_from_heads hop push_it open_pr)
unfolding bump_from_heads
bump_from_heads-Stops hop push_it open_pr =
    search (Stops-bind, Keeps-lift, Keeps-resolve_shas, bump_hop-Stops) depth 6

-- With the exit code 0 no test run has failed.
pub record Exits (code : ℕ) (log : List Event) : Type 0 where
  pub ended : Ended log
  pub passed : code ≡ 0 → Clean log

Exits-zero : (w : World) → Clean w.log → Exits 0 w.log
Exits-zero w c = record { ended = Clean-Ended c; passed = λ e. c }

Exits-one : (w : World) → Ended w.log → Exits 1 w.log
Exits-one w e = record { ended = e; passed = λ h. absurd (omega arith) }

exited : (done : Bool) (w : World) → Stops done w.log → Exits (exit_code done) w.log
exited true w c = Exits-zero w c
exited false w e = Exits-one w e

-- What `cmd_chain` does with a hop, and the hops after it.
stop_or_go : Bool → Script Bool → Script ℕ → Script ℕ
stop_or_go none_pinned m rest =
    if none_pinned then rest else (m >>= λ done. if done then rest else pure 1)

go_on :
    (rest : Script ℕ)
    → Steps Exits rest
    → (done : Bool) (u : World) → Stops done u.log
    → Post Exits ((if done then rest else pure 1) u).0 ((if done then rest else pure 1) u).1
unfolding pure
go_on rest k true u c = k.runs u c
go_on rest k false u e = Exits-one u e

stop_or_go-Exits :
    (none_pinned : Bool) (m : Script Bool) (rest : Script ℕ)
    → Steps Stops m
    → Steps Exits rest
    → Steps Exits (stop_or_go none_pinned m rest)
unfolding stop_or_go
stop_or_go-Exits true m rest km kr = kr
stop_or_go-Exits false m rest km kr =
    Steps-bind Stops Exits m (λ done. if done then rest else pure 1) km (go_on rest kr)

walk-Exits : (hops : List Hop) (push_it open_pr : Bool) → Steps Exits (walk hops push_it open_pr)
unfolding walk stop_or_go
walk-Exits [] push_it open_pr = record { runs = λ w c. Exits-zero w c }
walk-Exits (hop ∷ hops) push_it open_pr = record {
  runs =
      (stop_or_go-Exits (is_nil hop.pins) (bump_from_heads hop push_it open_pr)
        (walk hops push_it open_pr) (bump_from_heads-Stops hop push_it open_pr)
        (walk-Exits hops push_it open_pr)).runs;
}

-- `cmd_chain`, run on a record in which every commit follows a lock and a test run that succeeded
-- in its repository and no test run failed, leaves such a record but for the last event, which may
-- be a test run that failed; with the exit code 0 it is no such run.
pub cmd_chain-Exits :
    (push_it open_pr : Bool) (w : World)
    → Clean w.log
    → Post Exits (cmd_chain push_it open_pr w).0 (cmd_chain push_it open_pr w).1
unfolding cmd_chain
cmd_chain-Exits push_it open_pr w c = (walk-Exits chain push_it open_pr).runs w c

bumped : (target : Text) (push_it open_pr : Bool) → Steps Exits (cmd_bump target push_it open_pr)
unfolding cmd_bump pure
bumped target push_it open_pr =
    Steps-bind (λ hop log. Clean log) Exits (lift (bump_target (find_hop target chain))) _
      (Keeps-lift (bump_target (find_hop target chain)))
      (λ hop w c.
        (Steps-bind Stops Exits (bump_from_heads hop push_it open_pr)
            (λ done. pure (exit_code done)) (bump_from_heads-Stops hop push_it open_pr) exited).runs
          w c)

-- `cmd_bump` of any target, run on a record in which every commit follows a lock and a test run
-- that succeeded in its repository and no test run failed, leaves such a record but for the last
-- event, which may be a test run that failed; with the exit code 0 it is no such run.
pub cmd_bump-Exits :
    (target : Text) (push_it open_pr : Bool) (w : World)
    → Clean w.log
    → Post Exits (cmd_bump target push_it open_pr w).0 (cmd_bump target push_it open_pr w).1
cmd_bump-Exits target push_it open_pr w c = (bumped target push_it open_pr).runs w c
