-- ===== src/Tests/Mr.antt =====
-- ci/gates.py on a merge request that adds a feature and raises the minor version.
use traust_contracts.Base.{◌≡◌, refl, codes, none, [], ◌∷◌, ◌++◌, ok}
use traust_contracts.Process.{Reply, printed}
use traust_contracts.Gates.{
  Request, log_range, show_version, version_file, changelog_file, check_release_mr, main, mr,
}
use traust_contracts.Gates.Judged.{World}
use traust_contracts.Gates.Checked.{Checked, check_release_mr-Checked}

reply : Request → Reply
unfolding codes
reply (log_range base head) = printed (codes "ab" ++ 31 ∷ codes "feat: layers" ++ 31 ∷ 30 ∷ 10 ∷ [])
reply (show_version ref) = printed (codes "1.0.4")
reply version_file = printed (codes "1.1.0" ++ 10 ∷ [])
reply changelog_file = printed (codes "# Changes" ++ 10 ∷ codes "## [1.1.0] - today")
reply _ = printed []

abbrev start : World
start = record { host = λ log c. reply c; log = []; own = tt }

passes : (check_release_mr (codes "main") (codes "HEAD") start).0 ≡ ok none
unfolding codes check_release_mr traust_contracts.Process.◌>>=◌ traust_contracts.Process.lift reply
    traust_contracts.Process.pure traust_contracts.Gates.bump_from
    traust_contracts.Gates.is_generated traust_contracts.Gates.match_header
    traust_contracts.Gates.kind_text traust_contracts.Gates.breaks
    traust_contracts.Gates.raise_level
passes = refl

exits : (main (mr (codes "main") (codes "HEAD")) start).0 ≡ ok 0
unfolding codes main traust_contracts.Process.◌>>=◌ traust_contracts.Process.lift reply
    traust_contracts.Process.pure traust_contracts.Gates.bump_from
    traust_contracts.Gates.is_generated traust_contracts.Gates.match_header
    traust_contracts.Gates.kind_text traust_contracts.Gates.breaks
    traust_contracts.Gates.raise_level
exits = refl

check_release_mr-Checked_example : Checked (codes "main") (codes "HEAD") start
check_release_mr-Checked_example =
    check_release_mr-Checked (codes "main") (codes "HEAD") start passes
