-- ===== src/Release/Commands.antt =====
-- src/release.py: `Repo.status`, and what `main` does with each of its subcommands.
use traust_contracts.Base.{Text, text_eq, Bool, Option, if◌then◌else◌}
use traust_contracts.Py.{strip}
use traust_contracts.Process.{pure, lift, run, succeeds, ◌>>=◌, ◌>>◌}
use traust_contracts.Release.Version.{bump_version}
use traust_contracts.Release.Repo.{
  Script, newest_tag, dirty, verify_tag, branch_of_head, short_head, require_clean, version,
  tag_name, set_version, check, test, build, tag, push_all, release, release_if_ready,
}

-- What `status` prints.
pub record Status : Type 0 where
  pub at_version : Text
  pub tagged : Bool
  pub unclean : Bool
  pub branch : Text
  pub head_commit : Text
  pub latest : Option Text

unfoldable pub status : Script Status
unfolding version newest_tag dirty succeeds run strip tag_name
status = do
  v ← version
  newest ← newest_tag
  there ← succeeds (verify_tag (tag_name v))
  unclean ← dirty
  on ← run branch_of_head
  at_commit ← run short_head
  pure (record {
    at_version = v;
    tagged = there;
    unclean = unclean;
    branch = strip on;
    head_commit = strip at_commit;
    latest = newest;
  })

pub data Task : Type 0 where
  show_status run_check run_test run_build run_tag run_push run_release run_if_ready : Task
  bump : (part : Text) → Task

-- The arguments that the subcommands share.
pub record Flags : Type 0 where
  pub skip_test : Bool
  pub pushing : Bool
  pub message : Option Text

unfoldable pub set_if_new : (new current : Text) → Script (Unit {0})
unfolding set_version text_eq
set_if_new new current = if text_eq new current then pure tt else set_version new

unfoldable pub bump_to : Text → Script (Unit {0})
unfolding version bump_version set_if_new
bump_to part = do current ← version; new ← lift (bump_version current part); set_if_new new current

unfoldable pub perform : Flags → Task → Script (Unit {0})
unfolding status check test build require_clean tag push_all release release_if_ready bump_to
    version
perform flags show_status = status >> pure tt
perform flags (bump part) = bump_to part
perform flags run_check = check >> (version >> pure tt)
perform flags run_test = test
perform flags run_build = build
perform flags run_tag = require_clean >> (tag flags.message >> pure tt)
perform flags run_push = push_all >> (version >> pure tt)
perform flags run_release = release flags.skip_test flags.message flags.pushing >> pure tt
perform flags run_if_ready = release_if_ready flags.message flags.pushing >> pure tt
