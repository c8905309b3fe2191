-- ===== src/Release/Tagging.antt =====
-- release.py: `create_tag` and `tag`, where a build has succeeded.
use traust_contracts.Base.{
  ◌≡◌, refl, Text, text_eq_refl, Bool, true, false, not, ◌&&◌, List, ◌∷◌, Result, Option,
  process_error, release_error, arith,
}
use traust_contracts.Process
use traust_contracts.Process.{
  Reply, failed, printed, succeeded, checked, run, issue, lift, succeeds, require, pure, continue,
  carry, Steps, Steps-bind, ◌>>=◌, ◌>>◌,
}
use traust_contracts.Release.Repo
use traust_contracts.Release.Repo.{Script, tag_name, subject_of}
use traust_contracts.Release.Tags.{
  Event, World, Fits, policy, sound, sound-plain, built, built-plain, made, no_such_tag,
}
use traust_contracts.Release.Sound.{Keeps-version}

module _ (skip_test : Bool) where
  abbrev Built : List Event → Type 0
  Built log = built skip_test log ≡ true

  -- What is left where a script that is to establish `R` raises.
  abbrev pub Ends : {A : Type 0} → (A → List Event → Type 0) → Result A → World → Type 0
  Ends R r w = Process.Post (policy skip_test Built) R r w

  -- A build has succeeded, and the newest event says that there is no such tag.
  record Absent (tag : Text) (log : List Event) : Type 0 where
    pub fits : Fits skip_test Built log
    pub is_missing : no_such_tag tag log ≡ true

  abbrev pub Tagged : Text → List Event → Type 0
  Tagged tag log = Fits skip_test (λ l. made tag l ≡ true) log

  module _ (tag : Text) where
    verified :
        (w : World) (reply : Reply)
        → Fits skip_test Built w.log
        → Fits skip_test Built ((Repo.verify_tag tag, reply) ∷ w.log)
    verified w reply f = record {
      is_sound = sound-plain (Repo.verify_tag tag) reply w.log refl skip_test f.is_sound;
      also = built-plain (Repo.verify_tag tag) reply w.log refl skip_test f.also;
    }

    not_found :
        (w : World)
        → Fits skip_test Built w.log
        → Absent tag ((Repo.verify_tag tag, failed) ∷ w.log)
    not_found w f = record {
      fits = verified w failed f;
      is_missing = ground (arith, text_eq_refl tag);
    }

    deleted :
        (w : World) (reply : Reply)
        → Fits skip_test Built w.log
        → Ends
            (λ out log. Absent tag log)
            (checked process_error reply)
            (record w { log = (Repo.delete_tag tag, reply) ∷ w.log })
    unfolding checked
    deleted w failed f = sound-plain (Repo.delete_tag tag) failed w.log refl skip_test f.is_sound
    deleted w (printed text) f = record {
      fits = record {
        is_sound = sound-plain (Repo.delete_tag tag) (printed text) w.log refl skip_test f.is_sound;
        also = built-plain (Repo.delete_tag tag) (printed text) w.log refl skip_test f.also;
      };
      is_missing = ground (arith, text_eq_refl tag);
    }

    Absent-delete :
        (w : World)
        → Fits skip_test Built w.log
        → Ends
            (λ done log. Absent tag log)
            (Repo.delete_if true tag w).0
            (Repo.delete_if true tag w).1
    unfolding Repo.delete_if run issue ◌>>=◌ lift continue pure
    Absent-delete w f =
        carry (policy skip_test Built) (λ out log. Absent tag log) (λ done log. Absent tag log)
          (checked process_error (w.host w.log (Repo.delete_tag tag))) (λ out. pure tt)
          (record w { log = (Repo.delete_tag tag, w.host w.log (Repo.delete_tag tag)) ∷ w.log })
          (deleted w (w.host w.log (Repo.delete_tag tag)) f) (λ out u a. a)

    Absent-verify :
        (w : World) (reply : Reply)
        → Fits skip_test Built w.log
        → let w' = record w { log = (Repo.verify_tag tag, reply) ∷ w.log } in
          Ends
            (λ done log. Absent tag log)
            (Repo.delete_if (succeeded reply) tag w').0
            (Repo.delete_if (succeeded reply) tag w').1
    unfolding Repo.delete_if pure
    Absent-verify w failed f = not_found w f
    Absent-verify w (printed text) f =
        Absent-delete (record w { log = (Repo.verify_tag tag, printed text) ∷ w.log })
          (verified w (printed text) f)

    Absent-delete_existing :
        (force : Bool) (w : World)
        → Fits skip_test Built w.log
        → (force ≡ false → no_such_tag tag w.log ≡ true)
        → Ends
            (λ done log. Absent tag log)
            (Repo.delete_existing force tag w).0
            (Repo.delete_existing force tag w).1
    unfolding Repo.delete_existing succeeds issue ◌>>=◌ continue pure
    Absent-delete_existing true w f m = Absent-verify w (w.host w.log (Repo.verify_tag tag)) f
    Absent-delete_existing false w f m = record { fits = f; is_missing = m refl }

    annotated :
        (subject : Text) (w : World) (reply : Reply)
        → Absent tag w.log
        → Ends
            (λ out log. Tagged tag log)
            (checked process_error reply)
            (record w { log = (Repo.annotate_tag tag subject, reply) ∷ w.log })
    unfolding checked sound made
    annotated subject w failed a = ground (arith, a.is_missing, a.fits.also, a.fits.is_sound)
    annotated subject w (printed text) a = record {
      is_sound = ground (arith, a.is_missing, a.fits.also, a.fits.is_sound);
      also = ground (arith, text_eq_refl tag);
    }

    abbrev annotate : Text → Script (Unit {0})
    annotate subject = run (Repo.annotate_tag tag subject) >> pure tt

    Tagged-annotate :
        (subject : Text) (w : World)
        → Absent tag w.log
        → Ends (λ done log. Tagged tag log) (annotate subject w).0 (annotate subject w).1
    unfolding run issue ◌>>=◌ lift continue pure
    Tagged-annotate subject w a =
        carry (policy skip_test Built) (λ out log. Tagged tag log) (λ done log. Tagged tag log)
          (checked process_error (w.host w.log (Repo.annotate_tag tag subject))) (λ out. pure tt)
          (record w {
            log =
                (Repo.annotate_tag tag subject, w.host w.log (Repo.annotate_tag tag subject))
                ∷ w.log;
          })
          (annotated subject w (w.host w.log (Repo.annotate_tag tag subject)) a) (λ out u t. t)

    pub Tagged-create_tag :
        (subject : Text) (w : World)
        → Fits skip_test Built w.log
        → (w.own.force ≡ false → no_such_tag tag w.log ≡ true)
        → Ends
            (λ done log. Tagged tag log)
            (Repo.create_tag tag subject w).0
            (Repo.create_tag tag subject w).1
    unfolding Repo.create_tag Repo.options ◌>>=◌ continue
    Tagged-create_tag subject w f m =
        carry (policy skip_test Built) (λ done log. Absent tag log) (λ done log. Tagged tag log)
          (Repo.delete_existing w.own.force tag w).0 (λ done. annotate subject)
          (Repo.delete_existing w.own.force tag w).1 (Absent-delete_existing w.own.force w f m)
          (λ done u a. Tagged-annotate subject u a)

    -- What follows a check that there is no such tag, or that it may be replaced.
    module _ {A : Type 0} (R : A → List Event → Type 0) (rest : Script A)
        (next : (u : World)
          → Fits skip_test Built u.log
          → (u.own.force ≡ false → no_such_tag tag u.log ≡ true)
          → Ends R (rest u).0 (rest u).1) where
      may_replace :
          (w : World) (reply : Reply) (force : Bool)
          → w.own.force ≡ force
          → Fits skip_test Built w.log
          → let w' = record w { log = (Repo.verify_tag tag, reply) ∷ w.log } in
            Ends R
              ((require (not (succeeded reply && not force)) release_error >>= λ done. rest) w').0
              ((require (not (succeeded reply && not force)) release_error >>= λ done. rest) w').1
      unfolding require ◌>>=◌ continue
      may_replace w failed force e f =
          next (record w { log = (Repo.verify_tag tag, failed) ∷ w.log }) (verified w failed f)
            (λ unforced. ground (arith, text_eq_refl tag))
      may_replace w (printed text) true e f =
          next (record w { log = (Repo.verify_tag tag, printed text) ∷ w.log })
            (verified w (printed text) f) (λ unforced. absurd (cc))
      may_replace w (printed text) false e f = (verified w (printed text) f).is_sound

  abbrev new_tag : Option Text → Text → Script Text
  new_tag message v = Repo.options >>= λ opts.
      Repo.create_tag (tag_name v) (subject_of message opts.name v) >> pure (tag_name v)

  Tagged-new_tag :
      (message : Option Text) (v : Text) (u : World)
      → Fits skip_test Built u.log
      → (u.own.force ≡ false → no_such_tag (tag_name v) u.log ≡ true)
      → Ends Tagged (new_tag message v u).0 (new_tag message v u).1
  unfolding Repo.options ◌>>=◌ continue pure
  Tagged-new_tag message v u f m =
      carry (policy skip_test Built) (λ done log. Tagged (tag_name v) log) Tagged
        (Repo.create_tag (tag_name v) (subject_of message u.own.name v) u).0
        (λ done. pure (tag_name v))
        (Repo.create_tag (tag_name v) (subject_of message u.own.name v) u).1
        (Tagged-create_tag (tag_name v) (subject_of message u.own.name v) u f m) (λ done x t. t)

  Tagged-checked :
      (message : Option Text) (v : Text) (w : World)
      → Fits skip_test Built w.log
      → Ends Tagged
          ((Repo.require_tag_missing v >> new_tag message v) w).0
          ((Repo.require_tag_missing v >> new_tag message v) w).1
  unfolding Repo.require_tag_missing succeeds issue Repo.options ◌>>=◌ continue pure
  Tagged-checked message v w f =
      may_replace (tag_name v) Tagged (new_tag message v) (Tagged-new_tag message v) w
        (w.host w.log (Repo.verify_tag (tag_name v))) w.own.force refl f

  -- `tag`, from a record with a build that no tag used.
  pub Tagged-tag :
      (message : Option Text) → Steps (policy skip_test Built) Tagged (Repo.tag message)
  unfolding Repo.tag
  Tagged-tag message =
      Steps-bind (λ v log. Fits skip_test Built log) Tagged Repo.version
        (λ v. Repo.require_tag_missing v >> new_tag message v)
        (Keeps-version skip_test Built
          (λ c reply log plain b. built-plain c reply log plain skip_test b))
        (Tagged-checked message)
