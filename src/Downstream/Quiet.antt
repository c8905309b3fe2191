-- ===== src/Downstream/Quiet.antt =====
-- ci/bump_downstream.py: the scripts that neither test nor commit.
use traust_contracts.Base.{Text, Bool, true, false, List, [], ◌∷◌, ◌++◌}
use traust_contracts.Py.{ℤ}
use traust_contracts.Process.{Keeps-bind, Keeps-pure, pure, ◌>>=◌}
use traust_contracts.Downstream.Host.{Script, Tracked}
use traust_contracts.Downstream.Repo.{
  Hop, head, dirty, current_branch, origin_main, remote_has, or_ask, at_or_ahead, trusted,
  verified_head, remote_slug, origin_slug, upstream_slug, gh_pr_create, pr_state, heads,
  resolve_shas,
}
use traust_contracts.Downstream.Bumper.{
  Shas, write_changed, pin, sha_of, pinned_list, subject_line, pin_subject, pr_body, open_new,
  open_or_skip, track, finalize, require_pushed, pin_dep, start_branch,
}
use traust_contracts.Downstream.Rules.{Keeps, script_rules}

pub Keeps-head : (repo : Text) → Keeps (head repo)
unfolding head
Keeps-head repo = search (script_rules)

pub Keeps-dirty : (repo : Text) → Keeps (dirty repo)
unfolding dirty
Keeps-dirty repo = search (script_rules)

pub Keeps-current_branch : (repo : Text) → Keeps (current_branch repo)
unfolding current_branch
Keeps-current_branch repo = search (script_rules)

pub Keeps-origin_main : (repo : Text) → Keeps (origin_main repo)
unfolding origin_main
Keeps-origin_main repo = search (script_rules)

pub Keeps-remote_has : (repo sha : Text) → Keeps (remote_has repo sha)
unfolding remote_has
Keeps-remote_has repo sha = search (script_rules)

Keeps-or_ask : (b : Bool) (ask : Script Bool) → Keeps ask → Keeps (or_ask b ask)
unfolding or_ask
Keeps-or_ask true ask k = record { runs = λ w c. c }
Keeps-or_ask false ask k = record { runs = k.runs }

pub Keeps-at_or_ahead : (repo local main : Text) → Keeps (at_or_ahead repo local main)
unfolding at_or_ahead
Keeps-at_or_ahead repo local main = search (script_rules, Keeps-or_ask)

Keeps-trusted : (repo : Text) (good : Bool) → Keeps (trusted repo good)
unfolding trusted
Keeps-trusted repo true = Keeps-head repo
Keeps-trusted repo false = search (script_rules, Keeps-head)

Keeps-verified_head : (repo : Text) → Keeps (verified_head repo)
unfolding verified_head
Keeps-verified_head repo =
    search (script_rules, Keeps-origin_main, Keeps-head, Keeps-at_or_ahead, Keeps-trusted)

Keeps-remote_slug : (repo remote : Text) → Keeps (remote_slug repo remote)
unfolding remote_slug
Keeps-remote_slug repo remote = search (script_rules)

Keeps-origin_slug : (repo : Text) → Keeps (origin_slug repo)
unfolding origin_slug
Keeps-origin_slug repo = search (Keeps-remote_slug)

Keeps-upstream_slug : (repo : Text) → Keeps (upstream_slug repo)
unfolding upstream_slug
Keeps-upstream_slug repo = search (Keeps-remote_slug)

pub Keeps-gh_pr_create :
    (repo branch title body : Text) → Keeps (gh_pr_create repo branch title body)
unfolding gh_pr_create
Keeps-gh_pr_create repo branch title body =
    search (script_rules, Keeps-origin_slug, Keeps-upstream_slug)

pub Keeps-pr_state : (repo : Text) (number : ℤ) → Keeps (pr_state repo number)
unfolding pr_state
Keeps-pr_state repo number = search (script_rules, Keeps-upstream_slug)

pub Keeps-heads : (names : List Text) → Keeps (heads names)
unfolding heads
Keeps-heads [] = record { runs = λ w c. c }
Keeps-heads (name ∷ names) =
    let step : Keeps
        (verified_head name >>= (λ sha. heads names >>= λ more. pure ((name, sha) ∷ more))) =
      Keeps-bind _ _ (Keeps-verified_head name)
        (λ sha. Keeps-bind _ _ (Keeps-heads names) (λ more. Keeps-pure _)) in
    record { runs = λ w c. step.runs w c }

pub Keeps-resolve_shas : (upto : Text) → Keeps (resolve_shas upto)
unfolding resolve_shas
Keeps-resolve_shas upto = search (script_rules, Keeps-heads)

pub Keeps-write_changed : (repo text new : Text) → Keeps (write_changed repo text new)
unfolding write_changed
Keeps-write_changed repo text new = search (script_rules)

pub Keeps-pin : (repo dep sha : Text) → Keeps (pin repo dep sha)
unfolding pin
Keeps-pin repo dep sha = search (script_rules, Keeps-origin_slug, Keeps-write_changed)

pub Keeps-sha_of : (shas : Shas) (dep : Text) → Keeps (sha_of shas dep)
unfolding sha_of
Keeps-sha_of shas dep = search (script_rules)

pub Keeps-pin_dep : (hop : Hop) (shas : Shas) (dep : Text) → Keeps (pin_dep hop shas dep)
unfolding pin_dep
Keeps-pin_dep hop shas dep = search (script_rules, Keeps-pin)

pub Keeps-require_pushed : (shas : Shas) (dep : Text) → Keeps (require_pushed shas dep)
unfolding require_pushed
Keeps-require_pushed shas dep = search (script_rules, Keeps-remote_has)

pub Keeps-start_branch :
    (hop : Hop) (branch : Text) (resuming : Bool) → Keeps (start_branch hop branch resuming)
unfolding start_branch
Keeps-start_branch hop branch resuming = search (script_rules)

Keeps-pinned_list :
    (show : Text → Text) (shas : Shas) (deps : List Text) → Keeps (pinned_list show shas deps)
unfolding pinned_list
Keeps-pinned_list show shas [] = record { runs = λ w c. c }
Keeps-pinned_list show shas (dep ∷ deps) =
    let step : Keeps (
        sha_of shas dep >>= (λ sha.
          pinned_list show shas deps >>= λ more. pure ((dep ++ b'@' ∷ show sha) ∷ more))) =
      Keeps-bind _ _ (Keeps-sha_of shas dep)
        (λ sha. Keeps-bind _ _ (Keeps-pinned_list show shas deps) (λ more. Keeps-pure _)) in
    record { runs = λ w c. step.runs w c }

pub Keeps-subject_line :
    (front : Text) (shas : Shas) (deps : List Text) → Keeps (subject_line front shas deps)
unfolding subject_line
Keeps-subject_line front shas deps = search (script_rules, Keeps-pinned_list)

pub Keeps-pin_subject : (shas : Shas) (deps : List Text) → Keeps (pin_subject shas deps)
unfolding pin_subject
Keeps-pin_subject shas deps = search (Keeps-subject_line)

Keeps-pr_body : (shas : Shas) (deps : List Text) → Keeps (pr_body shas deps)
unfolding pr_body
Keeps-pr_body shas deps = search (script_rules, Keeps-pinned_list)

Keeps-open_new :
    (hop : Hop) (shas : Shas) (branch : Text) (changed : List Text) (tracked : Tracked)
    → Keeps (open_new hop shas branch changed tracked)
unfolding open_new
Keeps-open_new hop shas branch changed tracked =
    search (script_rules, Keeps-pin_subject, Keeps-pr_body, Keeps-gh_pr_create)

Keeps-open_or_skip :
    (hop : Hop) (shas : Shas) (branch : Text) (open_pr : Bool) (changed : List Text)
    (tracked : Tracked)
    → Keeps (open_or_skip hop shas branch open_pr changed tracked)
unfolding open_or_skip
Keeps-open_or_skip hop shas branch open_pr changed tracked = search (script_rules, Keeps-open_new)

Keeps-track :
    (hop : Hop) (shas : Shas) (branch : Text) (open_pr : Bool) (changed : List Text)
    → Keeps (track hop shas branch open_pr changed)
unfolding track
Keeps-track hop shas branch open_pr changed = search (script_rules, Keeps-open_or_skip) depth 8

pub Keeps-finalize :
    (hop : Hop) (shas : Shas) (branch : Text) (pushing open_pr : Bool) (changed : List Text)
    → Keeps (finalize hop shas branch pushing open_pr changed)
unfolding finalize
Keeps-finalize hop shas branch pushing open_pr changed = search (script_rules, Keeps-track)
