-- ===== src/Release/Tags.antt =====
-- release.py: what comes before a tag in the record of a run.
use traust_contracts.Base.{◌≡◌, Text, text_eq, Bool, true, false, not, ◌&&◌, ◌||◌, List, [], ◌∷◌}
use traust_contracts.Process.{Reply, Machine, Policy, succeeded}
use traust_contracts.Release.Repo

abbrev pub Event : Type 0
Event = Repo.Command × Reply

abbrev pub World : Type 0
World = Machine Repo.Command Repo.Options

-- The newest event says that there is no such tag: it was not found, or it was deleted.
abbrev pub no_such_tag : Text → List Event → Bool
no_such_tag tag ((Repo.verify_tag other, reply) ∷ log) = text_eq other tag && not (succeeded reply)
no_such_tag tag ((Repo.delete_tag other, reply) ∷ log) = text_eq other tag && succeeded reply
no_such_tag tag _ = false

-- The newest two events are the tests and what they need, and both succeeded.
abbrev pub passed : List Event → Bool
passed ((Repo.pytest, reply) ∷ (Repo.uv_sync, synced) ∷ log) = succeeded reply && succeeded synced
passed _ = false

-- What a command means for the order of builds and tags.
pub data Role : Type 0 where
  makes : (tag : Text) → Role
  builds other : Role

abbrev pub role : Repo.Command → Role
role (Repo.annotate_tag tag subject) = makes tag
role Repo.uv_build = builds
role _ = other

-- No tag was made since a build that succeeded, right after the tests if these were not skipped.
abbrev pub built_by : (skip_test : Bool) → Role → Reply → List Event → (earlier : Bool) → Bool
built_by skip_test (makes tag) reply log earlier = false
built_by skip_test builds reply log earlier = succeeded reply && (skip_test || passed log)
built_by skip_test other reply log earlier = earlier

unfoldable pub built : (skip_test : Bool) → List Event → Bool
built skip_test [] = false
built skip_test (event ∷ log) = built_by skip_test (role event.0) event.1 log (built skip_test log)

abbrev pub may_follow : (skip_test : Bool) → Role → List Event → Bool
may_follow skip_test (makes tag) log = no_such_tag tag log && built skip_test log
may_follow skip_test builds log = true
may_follow skip_test other log = true

-- Each tag has its own build, and right before it was no such tag.
unfoldable pub sound : (skip_test : Bool) → List Event → Bool
unfolding built
sound skip_test [] = true
sound skip_test (event ∷ log) = may_follow skip_test (role event.0) log && sound skip_test log

abbrev pub made_by : Text → Role → Reply → Bool
made_by tag (makes name) reply = text_eq name tag && succeeded reply
made_by tag builds reply = false
made_by tag other reply = false

-- The record has the tag, made with success.
unfoldable pub made : Text → List Event → Bool
made tag [] = false
made tag (event ∷ log) = made_by tag (role event.0) event.1 || made tag log

-- The records that are sound and have `P`. A script that raises leaves a sound one.
pub record Fits (skip_test : Bool) (P : List Event → Type 0) (log : List Event) : Type 0 where
  pub is_sound : sound skip_test log ≡ true
  pub also : P log

-- What stays when an event that neither builds nor tags is added.
abbrev pub Stable : (List Event → Type 0) → Type 0
Stable P =
    (c : Repo.Command) (reply : Reply) (log : List Event)
    → role c ≡ other
    → P log
    → P ((c, reply) ∷ log)

abbrev pub policy : Bool → (List Event → Type 0) → Policy Repo.Command
policy skip_test P = record {
  Fine = Fits skip_test P;
  Over = λ log. sound skip_test log ≡ true;
  over = λ log f. f.is_sound;
}

module _ (c : Repo.Command) (reply : Reply) (log : List Event) (plain : role c ≡ other) where
  pub sound-plain :
      (skip_test : Bool) → sound skip_test log ≡ true → sound skip_test ((c, reply) ∷ log) ≡ true
  unfolding sound
  sound-plain skip_test h = rw plain h

  pub built-plain :
      (skip_test : Bool) → built skip_test log ≡ true → built skip_test ((c, reply) ∷ log) ≡ true
  unfolding built
  built-plain skip_test h = rw plain h

  pub made-plain : (tag : Text) → made tag log ≡ true → made tag ((c, reply) ∷ log) ≡ true
  unfolding made
  made-plain tag h = rw plain h
