-- ===== src/Tests/Release.antt =====
-- release.py on a repository whose version 1.2.3 has no tag yet.
use traust_contracts.Base.{
  ℕ, ◌≡◌, ◌↔◌, refl, Text, codes, Bool, List, if◌then◌else◌, true, false, none, some, [], ◌∷◌, ◌++◌,
  ok,
}
use traust_contracts.Py.{pos, is_space, int_of, split, signed, strip}
use traust_contracts.Process.{Reply, failed, printed}
use traust_contracts.Release.{
  World, Event, made, Command, verify_tag, status_porcelain, branch_of_head, list_tags,
  read_version, read_pyproject, Ends, Tagged, Returned, release, release_if_ready, Tagged-release,
  Returned-release_if_ready, sound, decide, go, decide-go, Pending, minor, Raised, raised,
  bump_version-Raised, part_of, semver_tuple,
}

abbrev quoted : Text → Text
quoted s = b'"' ∷ s ++ b'"' ∷ []

-- A tag is found when the record has it, the tree is clean, and the newest tag is v1.2.2.
reply : List Event → Command → Reply
unfolding codes made
reply log (verify_tag tag) = if made tag log then printed [] else failed
reply log status_porcelain = printed []
reply log branch_of_head = printed (codes "main")
reply log list_tags = printed (codes "v1.2.2")
reply log read_version = printed (codes "1.2.3")
reply log read_pyproject = printed (codes "version = " ++ quoted (codes "1.2.3"))
reply log _ = printed []

abbrev start : World
start = record {
  host = reply;
  log = [];
  own = record { force = false; allow_dirty = false; name = codes "traust-contracts" };
}

releases : (release false none true start).0 ≡ ok (codes "v1.2.3")
unfolding codes release traust_contracts.Process.◌>>=◌ traust_contracts.Process.lift reply
    traust_contracts.Process.pure traust_contracts.Base.text_eq traust_contracts.Py.digit_value
releases = refl

releases_if_ready : (release_if_ready none false start).0 ≡ ok (some (codes "v1.2.3"))
unfolding codes release_if_ready traust_contracts.Process.◌>>=◌ traust_contracts.Process.lift reply
    traust_contracts.Process.pure traust_contracts.Base.text_eq traust_contracts.Py.digit_value
releases_if_ready = refl

start-sound : (skip_test : Bool) → sound skip_test start.log ≡ true
unfolding sound
start-sound skip_test = refl

Tagged-release_example :
    Ends false
      (λ name log. Tagged false name log)
      (release false none true start).0
      (release false none true start).1
Tagged-release_example = Tagged-release false true none start (start-sound false)

Returned-release_if_ready_example :
    Ends true Returned (release_if_ready none false start).0 (release_if_ready none false start).1
Returned-release_if_ready_example = Returned-release_if_ready none false start (start-sound true)

decide-go_example :
    (decide false (codes "1.2.3") (some (codes "1.2.2")) ≡ ok go)
    ↔ ((false ≡ false) × Pending (codes "1.2.3") (some (codes "1.2.2")))
decide-go_example = decide-go false (codes "1.2.3") (some (codes "1.2.2"))

is_minor : part_of (codes "minor") ≡ some minor
unfolding codes part_of
is_minor = refl

reads : semver_tuple (codes "1.2.3") ≡ ok (pos 1 ∷ pos 2 ∷ pos 3 ∷ [])
unfolding codes semver_tuple traust_contracts.Py.digit_value
reads = refl

bump_version-Raised_example :
    Raised
      (codes "1.2.3")
      (codes "minor")
      (pos 1 ∷ pos 2 ∷ pos 3 ∷ [])
      (raised minor (pos 1) (pos 2) (pos 3))
bump_version-Raised_example =
    bump_version-Raised (codes "1.2.3") (codes "minor") minor (pos 1) (pos 2) (pos 3) is_minor reads
