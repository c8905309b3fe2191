-- ===== src/Downstream/Tested.antt =====
-- ci/bump_downstream.py: the lock, the test run and the commit of a hop, one by one.
use traust_contracts.Base.{
  ◌≡◌, refl, sym, subst, Text, text_eq_refl, Bool, true, false, ◌&&◌, List, [], ◌∷◌, Result, ok,
  err, process_error, arith,
}
use traust_contracts.Process.{
  Reply, carry, checked, continue, failed, issue, lift, printed, pure, run, succeeded, succeeds,
  ◌>>=◌, ◌>>◌,
}
use traust_contracts.Downstream.Host.{Script, commit, make_test, uv_lock, Event, World}
use traust_contracts.Downstream.Repo.{short}
use traust_contracts.Downstream.Bumper.{Shas, pinned_list, subject_line, sha_of}
use traust_contracts.Downstream.Rules.{
  policy, is_repo, locked, ready, gated, no_failed_test, Clean, Ended, Clean-Ended, Post, Steps,
  Clean-event,
}

-- A clean record that a commit to the repository may follow.
pub record Ready (repo : Text) (log : List Event) : Type 0 where
  pub clean : Clean log
  pub allowed : ready repo log ≡ true

abbrev pub lock_first : Text → List Event → Bool
lock_first repo [] = false
lock_first repo (event ∷ log) = is_repo repo (locked event.0) && succeeded event.1

pub record Locked (repo : Text) (log : List Event) : Type 0 where
  pub clean : Clean log
  pub newest : lock_first repo log ≡ true

abbrev pub Tested : Text → Bool → List Event → Type 0
Tested repo true log = Ready repo log
Tested repo false log = Ended log

Locked-checked :
    (repo : Text) (w : World) (reply : Reply)
    → Clean w.log
    → Post
        (λ out log. Locked repo log)
        (checked process_error reply)
        (record w { log = (uv_lock repo, reply) ∷ w.log })
unfolding checked
Locked-checked repo w failed c = Clean-Ended (Clean-event (uv_lock repo) failed w.log refl refl c)
Locked-checked repo w (printed text) c = record {
  clean = Clean-event (uv_lock repo) (printed text) w.log refl refl c;
  newest = ground (arith, text_eq_refl repo);
}

pub Locked-run : (repo : Text) → Steps (λ out log. Locked repo log) (run (uv_lock repo))
unfolding run issue ◌>>=◌ continue lift
Locked-run repo = record { runs = λ w c. Locked-checked repo w (w.host w.log (uv_lock repo)) c }

tested_ready :
    (repo : Text) (log : List Event) (text : Text)
    → lock_first repo log ≡ true
    → ready repo ((make_test repo, printed text) ∷ log) ≡ true
unfolding ready
tested_ready repo [] text h = absurd (cc)
tested_ready repo (lock ∷ log) text h = ground (arith, text_eq_refl repo)

pub Tested-reply :
    (repo : Text) (w : World) (reply : Reply)
    → Locked repo w.log
    → Tested repo (succeeded reply) ((make_test repo, reply) ∷ w.log)
unfolding gated no_failed_test
Tested-reply repo w failed l = record { commits = l.clean.commits; tests = l.clean.tests }
Tested-reply repo w (printed text) l = record {
  clean = record { commits = l.clean.commits; tests = l.clean.tests };
  allowed = tested_ready repo w.log text l.newest;
}

pub Tested-succeeds :
    (repo : Text) (w : World)
    → Locked repo w.log
    → Post
        (λ b log. Tested repo b log)
        (succeeds (make_test repo) w).0
        (succeeds (make_test repo) w).1
unfolding succeeds issue ◌>>=◌ continue pure
Tested-succeeds repo w l = Tested-reply repo w (w.host w.log (make_test repo)) l

committed_reply :
    (repo subject : Text) (w : World) (reply : Reply)
    → Ready repo w.log
    → Post
        (λ out log. Clean log)
        (checked process_error reply)
        (record w { log = (commit repo subject, reply) ∷ w.log })
unfolding checked gated no_failed_test
committed_reply repo subject w failed r = record {
  commits = ground (arith, r.allowed, r.clean.commits);
  tests = r.clean.tests;
}
committed_reply repo subject w (printed text) r = record {
  commits = ground (arith, r.allowed, r.clean.commits);
  tests = r.clean.tests;
}

Clean-commit :
    (repo subject : Text) (w : World)
    → Ready repo w.log
    → Post (λ out log. Clean log) (run (commit repo subject) w).0 (run (commit repo subject) w).1
unfolding run issue ◌>>=◌ continue lift
Clean-commit repo subject w r =
    committed_reply repo subject w (w.host w.log (commit repo subject)) r

pinned_list-world :
    (show : Text → Text) (shas : Shas) (deps : List Text) (w : World)
    → (pinned_list show shas deps w).1 ≡ w
unfolding pinned_list sha_of lift ◌>>=◌ continue pure
pinned_list-world show shas [] w = refl
pinned_list-world show shas (dep ∷ deps) w = ground (arith, pinned_list-world show shas deps w)

subject_line-world :
    (front : Text) (shas : Shas) (deps : List Text) (w : World)
    → (subject_line front shas deps w).1 ≡ w
unfolding subject_line ◌>>=◌ continue pure
subject_line-world front shas deps w = ground (arith, pinned_list-world short shas deps w)

unmoved :
    (repo : Text) (r : Result Text) (u w : World)
    → u ≡ w
    → Ready repo w.log
    → Post (λ subject log. Ready repo log) r u
unmoved repo (ok subject) u w e ready = subst (λ x. Ready repo x.log) (sym e) ready
unmoved repo (err raised) u w e ready = subst (λ x. Ended x.log) (sym e) (Clean-Ended ready.clean)

-- The commit of a subject, in the state after the tests, and what follows it.
pub commit_subject :
    {A : Type 0} (R : A → List Event → Type 0) (front : Text) (shas : Shas) (deps : List Text)
    (repo : Text) (rest : Text → Script A)
    → ((subject : Text) (u : World) → Clean u.log → Post R (rest subject u).0 (rest subject u).1)
    → (w : World) → Ready repo w.log
    → Post R
        ((subject_line front shas deps >>= λ subject. run (commit repo subject) >> rest subject)
          w).0
        ((subject_line front shas deps >>= λ subject. run (commit repo subject) >> rest subject)
          w).1
unfolding ◌>>=◌
commit_subject R front shas deps repo rest next w ready =
    carry policy (λ subject log. Ready repo log) R (subject_line front shas deps w).0
      (λ subject. run (commit repo subject) >> rest subject) (subject_line front shas deps w).1
      (unmoved repo (subject_line front shas deps w).0 (subject_line front shas deps w).1 w
        (subject_line-world front shas deps w) ready)
      λ subject u r.
        carry policy (λ out log. Clean log) R (run (commit repo subject) u).0 (λ out. rest subject)
          (run (commit repo subject) u).1 (Clean-commit repo subject u r)
          (λ out v c. next subject v c)
