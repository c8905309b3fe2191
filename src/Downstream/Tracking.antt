-- ===== src/Downstream/Tracking.antt =====
-- ci/bump_downstream.py: the pull request that `_finalize` records.
use traust_contracts.Base.{◌≡◌, refl, Text, text_eq_refl, true, some, List, ◌∷◌, ok}
use traust_contracts.Process.{checked, continue, issue, lift, printed, pure, run, ◌>>=◌}
use traust_contracts.Downstream.Host.{
  World, Tracked, push, find, set, required, load_state, save_state,
}
use traust_contracts.Downstream.Repo.{Hop, trigger}
use traust_contracts.Downstream.Bumper.{
  Shas, sha_of, has_pr, updated, pr_of, open_or_skip, track, finalize,
}

module _ (hop : Hop) (shas : Shas) (branch : Text) (changed : List Text) {dep sha : Text}
    {old : Tracked} (triggered : trigger hop ≡ some dep) (known : find dep shas ≡ some sha)
    (opened : has_pr old.pr ≡ true) where
  track-opened :
      (w : World)
      → find hop.name w.own.saved ≡ some old
      → track hop shas branch true changed w ≡ (
        ok true,
        record w {
          own = record w.own {
            saved =
                set hop.name
                  (record { branch = branch; dep = dep; head_sha = sha; pr = old.pr })
                  w.own.saved;
          };
        },
      )
  unfolding track load_state lift pure continue ◌>>=◌ save_state sha_of required updated pr_of
      open_or_skip
  track-opened w h = rw triggered (rw known (rw h (rw opened (rw (text_eq_refl branch) refl))))

  -- With a pull request on record for a hop, `_finalize` opens none, whatever branch the record is
  -- about: it pushes the branch and records it with the number of the old pull request.
  pub finalize-opened :
      (w : World) {out : Text}
      → find hop.name w.own.saved ≡ some old
      → w.host w.log (push hop.name branch) ≡ printed out
      → finalize hop shas branch true true changed w ≡ (
        ok true,
        record w {
          log = (push hop.name branch, printed out) ∷ w.log;
          own = record w.own {
            saved =
                set hop.name
                  (record { branch = branch; dep = dep; head_sha = sha; pr = old.pr })
                  w.own.saved;
          };
        },
      )
  unfolding finalize run issue checked lift pure continue ◌>>=◌
  finalize-opened w {out} h pushed =
      rw pushed (track-opened (record w { log = (push hop.name branch, printed out) ∷ w.log }) h)
