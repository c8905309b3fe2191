-- ===== src/Release/Sound.antt =====
-- release.py: the scripts neither build nor tag, but for `build` and `create_tag`.
use traust_contracts.Base.{◌≡◌, refl, Text, Bool, true, false, List, ◌∷◌}
use traust_contracts.Process
use traust_contracts.Process.{
  Reply, failed, printed, succeeded, run, access, succeeds, Keeps-bind, Keeps-lift, Keeps-pure,
  Keeps-require, Keeps-if, require, pure, ◌>>=◌,
}
use traust_contracts.Release.Repo
use traust_contracts.Release.Repo.{Script}
use traust_contracts.Release.Tags.{Event, Fits, Stable, policy, role, other, sound-plain}

module _ (skip_test : Bool) (P : List Event → Type 0) (stable : Stable P) where
  abbrev Keeps : {A : Type 0} → Script A → Type 0
  Keeps m = Process.Keeps (policy skip_test P) m

  module _ (c : Repo.Command) (plain : role c ≡ other) where
    fits :
        (reply : Reply) (log : List Event)
        → Fits skip_test P log
        → Fits skip_test P ((c, reply) ∷ log)
    fits reply log f = record {
      is_sound = sound-plain c reply log plain skip_test f.is_sound;
      also = stable c reply log plain f.also;
    }

    Keeps-run : Keeps (run c)
    Keeps-run = Process.Keeps-run c fits

    Keeps-access : Keeps (access c)
    Keeps-access = Process.Keeps-access c fits

    pub Keeps-succeeds : Keeps (succeeds c)
    Keeps-succeeds = Process.Keeps-succeeds c fits

  Keeps-options : Keeps Repo.options
  unfolding Repo.options
  Keeps-options = record { runs = λ w f. f }

  pub Keeps-require_if : (b : Bool) (m : Script (Unit {0})) → Keeps m → Keeps (Repo.require_if b m)
  unfolding Repo.require_if
  Keeps-require_if true m k = record { runs = k.runs }
  Keeps-require_if false m k = record { runs = λ w f. f }

  ruleset plain_rules = (
    Keeps-run, Keeps-access, Keeps-succeeds, Keeps-options, Keeps-require_if, Keeps-bind,
    Keeps-lift, Keeps-pure, Keeps-require, Keeps-if, refl,
  )

  Keeps-dirty : Keeps Repo.dirty
  unfolding Repo.dirty
  Keeps-dirty = search (plain_rules)

  Keeps-require_clean : Keeps Repo.require_clean
  unfolding Repo.require_clean
  Keeps-require_clean = search (plain_rules, Keeps-dirty)

  Keeps-both_files : Keeps Repo.both_files
  unfolding Repo.both_files
  Keeps-both_files = search (plain_rules)

  pub Keeps-version : Keeps Repo.version
  unfolding Repo.version
  Keeps-version = search (plain_rules, Keeps-both_files) depth 12

  pub Keeps-require_tag_missing : (v : Text) → Keeps (Repo.require_tag_missing v)
  unfolding Repo.require_tag_missing
  Keeps-require_tag_missing v = search (plain_rules)

  pub Keeps-check : Keeps Repo.check
  unfolding Repo.check
  Keeps-check = search (plain_rules, Keeps-require_clean, Keeps-version, Keeps-require_tag_missing)

  pub Keeps-push_all : Keeps Repo.push_all
  unfolding Repo.push_all
  Keeps-push_all = search (plain_rules, Keeps-version) depth 14

  pub Keeps-newest_tag : Keeps Repo.newest_tag
  unfolding Repo.newest_tag
  Keeps-newest_tag = search (plain_rules)
