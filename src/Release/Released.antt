-- ===== src/Release/Released.antt =====
-- release.py: `release` and `release_if_ready`, with the tag and the push after a build.
use traust_contracts.Base.{◌≡◌, refl, Text, Bool, true, not, List, Option, none, some}
use traust_contracts.Process
use traust_contracts.Process.{
  Reply, failed, printed, succeeded, checked, run, issue, lift, pure, succeeds, continue, carry,
  Steps, Steps-bind, Keeps-bind, Keeps-lift, Post, ◌>>=◌, ◌>>◌,
}
use traust_contracts.Release.Repo
use traust_contracts.Release.Repo.{Script, tag_name}
use traust_contracts.Release.Tags.{Event, World, Fits, Stable, policy, sound, made, made-plain}
use traust_contracts.Release.Sound.{
  Keeps-version, Keeps-require_if, Keeps-check, Keeps-push_all, Keeps-newest_tag, Keeps-succeeds,
}
use traust_contracts.Release.Builds.{Passed, Any, Built, Fits-build, tests_or_skip}
use traust_contracts.Release.Tagging.{Ends, Tagged-tag, Tagged}

made_stays : (name : Text) → Stable (λ log. made name log ≡ true)
made_stays name c reply log plain m = made-plain c reply log plain name m

module _ (skip_test pushing : Bool) where
  pushed :
      (name : Text) (w : World)
      → Tagged skip_test name w.log
      → Ends skip_test
          (λ given log. Tagged skip_test given log)
          ((Repo.require_if pushing Repo.push_all >>= λ done. pure name) w).0
          ((Repo.require_if pushing Repo.push_all >>= λ done. pure name) w).1
  unfolding pure
  pushed name w t =
      (Steps-bind (λ done log. Tagged skip_test name log) (λ given log. Tagged skip_test given log)
          (Repo.require_if pushing Repo.push_all) (λ done. pure name)
          (Keeps-require_if skip_test (λ log. made name log ≡ true) (made_stays name) pushing
            Repo.push_all
            (Keeps-push_all skip_test (λ log. made name log ≡ true) (made_stays name)))
          (λ done u f. f)).runs
        w t

  Tagged-steps :
      (message : Option Text)
      → Steps
          (policy skip_test (Any skip_test))
          (λ name log. Tagged skip_test name log)
          (Repo.release skip_test message pushing)
  unfolding Repo.release ◌>>=◌
  Tagged-steps message =
      Steps-bind (λ done log. Fits skip_test (Any skip_test) log)
        (λ name log. Tagged skip_test name log) Repo.check _
        (Keeps-check skip_test (Any skip_test) (λ c reply log plain u. tt))
        λ done w f.
          carry (policy skip_test (Any skip_test))
            (λ done log. Fits skip_test (Passed skip_test) log)
            (λ name log. Tagged skip_test name log) (Repo.require_if (not skip_test) Repo.test w).0
            _ (Repo.require_if (not skip_test) Repo.test w).1 ((tests_or_skip skip_test).runs w f)
            λ done u g.
              carry (policy skip_test (Any skip_test))
                (λ done log. Fits skip_test (Built skip_test) log)
                (λ name log. Tagged skip_test name log) (Repo.build u).0 _ (Repo.build u).1
                (Fits-build skip_test u g)
                λ done x b.
                  carry (policy skip_test (Built skip_test)) (λ name log. Tagged skip_test name log)
                    (λ name log. Tagged skip_test name log) (Repo.tag message x).0 _
                    (Repo.tag message x).1 ((Tagged-tag skip_test message).runs x b) pushed

-- `release`, run on a record in which each tag has its own build that succeeded, right after the
-- tests if these are not skipped, and was found missing or deleted right before, leaves such a
-- record, whether it returns or raises; when it returns a tag, the record has it, made with success.
pub Tagged-release :
    (skip_test pushing : Bool) (message : Option Text) (w : World)
    → sound skip_test w.log ≡ true
    → Ends skip_test
        (λ name log. Tagged skip_test name log)
        (Repo.release skip_test message pushing w).0
        (Repo.release skip_test message pushing w).1
Tagged-release skip_test pushing message w s =
    (Tagged-steps skip_test pushing message).runs w (record { is_sound = s; also = tt })

-- A tag that `release_if_ready` returns is in the record.
abbrev pub Returned : Option Text → List Event → Type 0
Returned none log = Fits true (Any true) log
Returned (some name) log = Tagged true name log

Returned-act :
    (message : Option Text) (pushing : Bool) (current : Text) (decision : Repo.Decision)
    → Steps (policy true (Any true)) Returned (Repo.act message pushing current decision)
unfolding Repo.act Repo.options pure ◌>>=◌ continue
Returned-act message pushing current Repo.tagged = record { runs = λ w f. f }
Returned-act message pushing current Repo.pending_none = record { runs = λ w f. f }
Returned-act message pushing current Repo.go = record {
  runs = λ w f.
      (Steps-bind (λ name log. Tagged true name log) Returned
          (Repo.release true (some (Repo.subject_of message w.own.name current)) pushing)
          (λ name. pure (some name))
          (Tagged-steps true pushing (some (Repo.subject_of message w.own.name current)))
          (λ name u t. t)).runs
        w f;
}

Returned-bind :
    {A : Type 0} (m : Script A) (f : A → Script (Option Text))
    → Process.Keeps (policy true (Any true)) m
    → ((a : A) → Steps (policy true (Any true)) Returned (f a))
    → Steps (policy true (Any true)) Returned (m >>= f)
Returned-bind m f km kf =
    Steps-bind (λ a log. Fits true (Any true) log) Returned m f km (λ a w c. (kf a).runs w c)

nothing_to_keep : Stable (Any true)
nothing_to_keep c reply log plain u = tt

Returned-steps :
    (message : Option Text) (pushing : Bool)
    → Steps (policy true (Any true)) Returned (Repo.release_if_ready message pushing)
unfolding Repo.release_if_ready
Returned-steps message pushing =
    Returned-bind Repo.version _ (Keeps-version true (Any true) nothing_to_keep) λ current.
      Returned-bind Repo.newest_tag _ (Keeps-newest_tag true (Any true) nothing_to_keep) λ newest.
        Returned-bind (succeeds (Repo.verify_tag (tag_name current))) _
          (Keeps-succeeds true (Any true) nothing_to_keep (Repo.verify_tag (tag_name current)) refl)
          λ there.
            Returned-bind (lift (Repo.decide there current (Repo.tag_version newest)))
              (Repo.act message pushing current)
              (Keeps-lift (Repo.decide there current (Repo.tag_version newest)))
              (Returned-act message pushing current)

-- `release_if_ready`, run on a record in which each tag has its own build that succeeded and was
-- found missing or deleted right before, leaves such a record, whether it returns or raises; when
-- it returns a tag, the record has it, made with success.
pub Returned-release_if_ready :
    (message : Option Text) (pushing : Bool) (w : World)
    → sound true w.log ≡ true
    → Ends true Returned
        (Repo.release_if_ready message pushing w).0
        (Repo.release_if_ready message pushing w).1
Returned-release_if_ready message pushing w s =
    (Returned-steps message pushing).runs w (record { is_sound = s; also = tt })
