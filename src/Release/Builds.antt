-- ===== src/Release/Builds.antt =====
-- release.py: `test` and `build`, the steps of `release` before its tag.
use traust_contracts.Base.{
  ◌≡◌, refl, Text, Bool, true, false, not, ◌||◌, List, [], ◌∷◌, process_error, arith,
}
use traust_contracts.Process.{
  Reply, failed, printed, succeeded, checked, run, issue, lift, pure, continue, carry, Steps,
  Steps-bind, ◌>>=◌, ◌>>◌,
}
use traust_contracts.Release.Repo
use traust_contracts.Release.Repo.{Script, tag_name}
use traust_contracts.Release.Tags.{Event, World, Fits, policy, sound, built, passed}
use traust_contracts.Release.Tagging.{Ends}

-- The tests have just passed, if they are not skipped.
abbrev pub Passed : Bool → List Event → Type 0
Passed skip_test log = (skip_test || passed log) ≡ true

abbrev synced_first : List Event → Bool
synced_first ((Repo.uv_sync, reply) ∷ log) = succeeded reply
synced_first _ = false

passed_next :
    (text : Text) (log : List Event)
    → synced_first log ≡ true
    → passed ((Repo.pytest, printed text) ∷ log) ≡ true
passed_next text [] h = absurd (cc)
passed_next text ((Repo.uv_sync, reply) ∷ log) h = ground (arith)
passed_next text ((_, reply) ∷ log) h = absurd (cc)

module _ (skip_test : Bool) where
  abbrev Sound : List Event → Type 0
  Sound log = sound skip_test log ≡ true

  -- From a record with `P`, a command that makes no tag leaves one with `Q`.
  module _ (c : Repo.Command) (P Q : List Event → Type 0)
      (keeps : (reply : Reply) (log : List Event) → Sound log → Sound ((c, reply) ∷ log))
      (gives : (text : Text) (log : List Event) → P log → Q ((c, printed text) ∷ log)) where
    replied :
        (w : World) (reply : Reply)
        → Fits skip_test P w.log
        → Ends skip_test
            (λ out log. Fits skip_test Q log)
            (checked process_error reply)
            (record w { log = (c, reply) ∷ w.log })
    unfolding checked
    replied w failed f = keeps failed w.log f.is_sound
    replied w (printed text) f = record {
      is_sound = keeps (printed text) w.log f.is_sound;
      also = gives text w.log f.also;
    }

    Fits-run :
        (w : World)
        → Fits skip_test P w.log
        → Ends skip_test (λ out log. Fits skip_test Q log) (run c w).0 (run c w).1
    unfolding run issue ◌>>=◌ continue lift
    Fits-run w f = replied w (w.host w.log c) f

    abbrev only : Script (Unit {0})
    only = run c >> pure tt

    Fits-only :
        (w : World)
        → Fits skip_test P w.log
        → Ends skip_test (λ done log. Fits skip_test Q log) (only w).0 (only w).1
    unfolding ◌>>=◌ pure
    Fits-only w f =
        carry (policy skip_test P) (λ out log. Fits skip_test Q log)
          (λ done log. Fits skip_test Q log) (run c w).0 (λ out. pure tt) (run c w).1 (Fits-run w f)
          (λ out u g. g)

  abbrev pub Any : List Event → Type 0
  Any log = Unit

  abbrev Synced : List Event → Type 0
  Synced log = synced_first log ≡ true

  abbrev Tests : List Event → Type 0
  Tests log = passed log ≡ true

  abbrev pub Built : List Event → Type 0
  Built log = built skip_test log ≡ true

  Fits-test : Steps (policy skip_test Any) (λ done log. Fits skip_test Tests log) Repo.test
  unfolding Repo.test sound
  Fits-test =
      Steps-bind (λ out log. Fits skip_test Synced log) (λ done log. Fits skip_test Tests log)
        (run Repo.uv_sync) (λ out. run Repo.pytest >> pure tt)
        (record {
          runs =
              λ w f. Fits-run Repo.uv_sync Any Synced (λ reply log h. h) (λ text log u. refl) w f;
        })
        (λ out w f. Fits-only Repo.pytest Synced Tests (λ reply log h. h) passed_next w f)

  pub Fits-build :
      (w : World)
      → Fits skip_test (Passed skip_test) w.log
      → Ends skip_test (λ done log. Fits skip_test Built log) (Repo.build w).0 (Repo.build w).1
  unfolding Repo.build sound built
  Fits-build w f =
      Fits-only Repo.uv_build (Passed skip_test) Built (λ reply log h. h) (λ text log h. h) w f

pub tests_or_skip :
    (skip_test : Bool)
    → Steps
        (policy skip_test (Any skip_test))
        (λ done log. Fits skip_test (Passed skip_test) log)
        (Repo.require_if (not skip_test) Repo.test)
unfolding Repo.require_if
tests_or_skip true = record { runs = λ w f. record { is_sound = f.is_sound; also = refl } }
tests_or_skip false = record { runs = (Fits-test false).runs }
