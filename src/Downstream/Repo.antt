-- ===== src/Downstream/Repo.antt =====
-- ci/bump_downstream.py: the chain, `Git`, and the functions that ask `git` and `gh`.
use traust_contracts.Base.{
  Text, codes, text_eq, starts, any, Bool, true, false, not, Option, none, some, List, [], ◌∷◌,
  ◌++◌, Result, ok, err, chain_error, value_error, after, ◌==◌, ℕ, if◌then◌else◌,
}
use traust_contracts.Py.{line_parts, ℤ, strip, take, split, last, int_of}
use traust_contracts.Process.{lift, pure, raise, run, succeeds, ◌>>=◌, ◌>>◌}
use traust_contracts.Downstream.Urls.{find_slug}
use traust_contracts.Downstream.Host.{
  Script, rev_parse, status_porcelain, branch_of_head, fetch, is_ancestor, branches_with,
  remote_url, pr_create, pr_view, read_state,
}

pub record Hop : Type 0 where
  pub name : Text
  pub pins : List Text

unfoldable pub chain : List Hop
unfolding codes
chain =
    record { name = codes "traust-contracts"; pins = [] }
    ∷ record { name = codes "traust-ledger"; pins = codes "traust-contracts" ∷ [] }
    ∷ record {
      name = codes "traust-engine";
      pins = codes "traust-contracts" ∷ codes "traust-ledger" ∷ [];
    }
    ∷ record {
      name = codes "traust";
      pins = codes "traust-contracts" ∷ codes "traust-ledger" ∷ codes "traust-engine" ∷ [];
    }
    ∷ []

unfoldable pub last_of : List Text → Option Text
last_of [] = none
last_of (dep ∷ []) = some dep
last_of (dep ∷ next ∷ deps) = last_of (next ∷ deps)

-- `Hop.trigger`
unfoldable pub trigger : Hop → Option Text
unfolding last_of
trigger hop = last_of hop.pins

unfoldable pub short : Text → Text
unfolding take
short sha = take 7 sha

-- `s.removeprefix("traust-")`
unfoldable pub bare : Text → Text
unfolding after codes
bare name = elim (after (codes "traust-") name) [ some rest ↦ rest | none ↦ name ]

unfoldable pub head : Text → Script Text
unfolding run strip codes
head repo = do out ← run (rev_parse repo (codes "HEAD")); pure (strip out)

abbrev pub is_empty : Text → Bool
is_empty [] = true
is_empty (c ∷ s) = false

unfoldable pub dirty : Text → Script Bool
unfolding run strip
dirty repo = do out ← run (status_porcelain repo); pure (not (is_empty (strip out)))

unfoldable pub current_branch : Text → Script Text
unfolding run strip
current_branch repo = do out ← run (branch_of_head repo); pure (strip out)

unfoldable pub origin_main : Text → Script Text
unfolding run strip codes
origin_main repo = do out ← run (rev_parse repo (codes "origin/main")); pure (strip out)

-- `remote_has`, of the remote `origin`
unfoldable pub remote_has : Text → Text → Script Bool
unfolding run line_parts strip codes
remote_has repo sha = do
  run (fetch repo (codes "origin"))
  out ← run (branches_with repo sha)
  pure (any (λ line. starts (codes "origin/") (strip line)) (line_parts out))

-- `a or b`, where `b` is asked only if `a` is false.
unfoldable pub or_ask : Bool → Script Bool → Script Bool
or_ask true ask w = (ok true, w)
or_ask false ask w = ask w

-- HEAD is the commit or a descendant of it.
unfoldable pub at_or_ahead : Text → Text → Text → Script Bool
unfolding or_ask succeeds codes
at_or_ahead repo local main =
    or_ask (text_eq local main) (succeeds (is_ancestor repo main (codes "HEAD")))

unfoldable pub trusted : Text → Bool → Script Text
unfolding head
trusted repo true = head repo
trusted repo false = head repo >> raise chain_error

unfoldable pub verified_head : Text → Script Text
unfolding run origin_main head at_or_ahead trusted codes
verified_head repo = do
  run (fetch repo (codes "origin"))
  main ← origin_main repo
  local ← head repo
  good ← at_or_ahead repo local main
  trusted repo good

unfoldable pub slug_in : Option Text → Result Text
slug_in none = err chain_error
slug_in (some slug) = ok slug

-- `_remote_slug`
unfoldable pub remote_slug : Text → Text → Script Text
unfolding run find_slug slug_in strip
remote_slug repo remote = do
  url ← run (remote_url repo remote)
  lift (slug_in (find_slug (strip url)))

unfoldable pub origin_slug : Text → Script Text
unfolding remote_slug codes
origin_slug repo = remote_slug repo (codes "origin")

unfoldable pub upstream_slug : Text → Script Text
unfolding remote_slug codes
upstream_slug repo = remote_slug repo (codes "upstream")

abbrev pub first_of : List Text → Text
first_of [] = []
first_of (part ∷ parts) = part

-- `s.rstrip("/")`
unfoldable pub unslash : ℕ → Text → Text
unslash c [] = if c == b'/' then [] else c ∷ []
unslash c (d ∷ s) = c ∷ d ∷ s

unfoldable pub strip_slashes : Text → Text
unfolding unslash
strip_slashes [] = []
strip_slashes (c ∷ s) = unslash c (strip_slashes s)

unfoldable pub gh_pr_create : (repo branch title body : Text) → Script ℤ
unfolding origin_slug upstream_slug run split last strip_slashes strip int_of
gh_pr_create repo branch title body = do
  fork ← origin_slug repo
  base ← upstream_slug repo
  out ← run (pr_create repo base (first_of (split b'/' fork) ++ b':' ∷ branch) title body)
  lift (int_of (last [] (split b'/' (strip_slashes (strip out)))))

-- `gh_pr_view`, and the "state" of what it returns.
unfoldable pub pr_state : Text → ℤ → Script Text
unfolding upstream_slug run read_state
pr_state repo number = do
  base ← upstream_slug repo
  out ← run (pr_view repo base number)
  read_state out

-- The names up to `upto`, which `_NAMES.index` finds.
unfoldable pub names_upto : Text → List Hop → Result (List Text)
unfolding text_eq
names_upto upto [] = err value_error
names_upto upto (hop ∷ hops) =
    let more = names_upto upto hops in
    if text_eq hop.name upto
    then ok (hop.name ∷ [])
    else elim more [ ok names ↦ ok (hop.name ∷ names) | err e ↦ err e ]

unfoldable pub heads : List Text → Script (List (Text × Text))
unfolding verified_head
heads [] w = (ok [], w)
heads (name ∷ names) w =
    (verified_head name >>= (λ sha. heads names >>= λ more. pure ((name, sha) ∷ more))) w

unfoldable pub resolve_shas : Text → Script (List (Text × Text))
unfolding names_upto chain heads
resolve_shas upto = do names ← lift (names_upto upto chain); heads names
