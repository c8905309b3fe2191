-- ===== src/Tests/Downstream.antt =====
-- ci/bump_downstream.py on a chain whose engine fails its tests.
use traust_contracts.Base.{
  ℕ, zero, suc, ◌≡◌, refl, Text, codes, text_eq, true, false, none, some, List, [], ◌∷◌, ◌++◌, ok,
  err, value_error, map, if◌then◌else◌,
}
use traust_contracts.Py.{pos, is_space}
use traust_contracts.Process.{Reply, failed, lift, printed, pure, ◌>>=◌}
use traust_contracts.Downstream.{
  Event, Command, rev_parse, branch_of_head, branches_with, checkout_new, push, remote_url, uv_lock,
  make_test, read_pyproject, World, cmd_chain, cmd_reconcile, pin_in, pin_source, Clean, Post,
  Exits, cmd_chain-Exits, cmd_reconcile-Clean, pin_in-pin_source, IsValue, has_quote, is_name,
  find_pin, pin_at, key_at, spaces, finalize, finalize-opened, Tracked, Hop, trigger, find, has_pr,
  set, gated, no_failed_test,
}

abbrev pyproject : Text
unfolding codes
pyproject =
    codes "contracts = { git = "
    ++ b'"' ∷ codes "u"
    ++ b'"' ∷ codes ", tag = "
    ++ b'"' ∷ codes "v1"
    ++ b'"' ∷ codes " }"

abc-IsValue : IsValue (codes "abc")
unfolding codes has_quote
abc-IsValue = record { not_empty = λ e. cc; no_quote = refl }

pin_in-pin_source_example :
    (pin_in (codes "contracts") (
        codes "contracts = { git = "
        ++ b'"' ∷ codes "u"
        ++ b'"' ∷ codes ", rev = "
        ++ b'"' ∷ codes "abc"
        ++ b'"' ∷ codes " }")
      ≡ some (codes "abc"))
    × (pin_source
          (codes "contracts = { git = "
            ++ b'"' ∷ codes "u"
            ++ b'"' ∷ codes ", rev = "
            ++ b'"' ∷ codes "abc"
            ++ b'"' ∷ codes " }")
          (codes "contracts")
          (codes "abc")
        ≡ ok (
            codes "contracts = { git = "
            ++ b'"' ∷ codes "u"
            ++ b'"' ∷ codes ", rev = "
            ++ b'"' ∷ codes "abc"
            ++ b'"' ∷ codes " }"))
unfolding codes pin_source find_pin pin_at key_at spaces is_space is_name
pin_in-pin_source_example =
    pin_in-pin_source pyproject (codes "contracts") (codes "abc") refl abc-IsValue refl

entry : Text → Text
unfolding codes
entry name =
    name
    ++ codes " = { git = "
    ++ b'"' ∷ codes "u"
    ++ b'"' ∷ codes ", tag = "
    ++ b'"' ∷ codes "v1"
    ++ b'"' ∷ codes " }"

entries : Text
unfolding entry codes
entries =
    entry (codes "traust-contracts")
    ++ entry (codes "traust-ledger")
    ++ entry (codes "traust-engine")

-- Every repository is on `main`, and the engine fails its tests.
reply : Command → Reply
unfolding codes text_eq
reply (rev_parse repo ref) = printed (codes "0123456789abcdef")
reply (branch_of_head repo) = printed (codes "main")
reply (branches_with repo sha) = printed (codes "  origin/main")
reply (remote_url repo remote) = printed (codes "git@github.com:me/traust.git")
reply (read_pyproject repo) = printed (entries)
reply (make_test repo) = if text_eq repo (codes "traust-engine") then failed else printed []
reply _ = printed []

abbrev start : World
start = record {
  host = λ log c. reply c;
  log = [];
  own = record { saved = []; state_in = λ out. err value_error };
}

start-Clean : Clean start.log
unfolding gated no_failed_test
start-Clean = record { commits = refl; tests = refl }

cmd_chain-Exits_example : Post Exits (cmd_chain true false start).0 (cmd_chain true false start).1
cmd_chain-Exits_example = cmd_chain-Exits true false start start-Clean

cmd_reconcile-Clean_example :
    Post (λ code log. Clean log) (cmd_reconcile none start).0 (cmd_reconcile none start).1
cmd_reconcile-Clean_example = cmd_reconcile-Clean none start start-Clean

take_events : ℕ → List Event → List Event
take_events zero events = []
take_events (suc n) [] = []
take_events (suc n) (event ∷ events) = event ∷ take_events n events

-- The ledger is committed and pushed, and the failure of the engine's tests ends the run.
stops_at_engine :
    ((cmd_chain true false start).0 ≡ ok 1)
    × (map (λ event. event.0) (take_events 3 (cmd_chain true false start).1.log)
        ≡ make_test (codes "traust-engine")
          ∷ uv_lock (codes "traust-engine")
          ∷ checkout_new (codes "traust-engine") (codes "deps/engine-pin-ledger-0123456")
          ∷ [])
unfolding codes cmd_chain reply ◌>>=◌ lift pure entries pin_at key_at take_events
stops_at_engine = (refl, refl)

-- A pull request for the pin of the commit before is on record.
abbrev earlier : Tracked
unfolding codes
earlier = record {
  branch = codes "deps/ledger-pin-contracts-aaaaaaa";
  dep = codes "traust-contracts";
  head_sha = codes "aaaaaaaa";
  pr = some (pos 5);
}

abbrev ledger_hop : Hop
unfolding codes
ledger_hop = record { name = codes "traust-ledger"; pins = codes "traust-contracts" ∷ [] }

abbrev recorded_start : World
unfolding codes
recorded_start = record start {
  own = record start.own { saved = (codes "traust-ledger", earlier) ∷ [] };
}

finalize-opened_example :
    finalize ledger_hop
      ((codes "traust-contracts", codes "bbbbbbbb") ∷ [])
      (codes "deps/ledger-pin-contracts-bbbbbbb")
      true
      true
      (codes "traust-contracts" ∷ [])
      recorded_start
    ≡ (
      ok true,
      record recorded_start {
        log =
            (push (codes "traust-ledger") (codes "deps/ledger-pin-contracts-bbbbbbb"), printed [])
            ∷ [];
        own = record recorded_start.own {
          saved =
              set
                (codes "traust-ledger")
                (record {
                  branch = codes "deps/ledger-pin-contracts-bbbbbbb";
                  dep = codes "traust-contracts";
                  head_sha = codes "bbbbbbbb";
                  pr = some (pos 5);
                })
                recorded_start.own.saved;
        };
      },
    )
unfolding codes trigger find has_pr reply
finalize-opened_example =
    finalize-opened ledger_hop ((codes "traust-contracts", codes "bbbbbbbb") ∷ [])
      (codes "deps/ledger-pin-contracts-bbbbbbb") (codes "traust-contracts" ∷ []) refl refl refl
      recorded_start refl refl
