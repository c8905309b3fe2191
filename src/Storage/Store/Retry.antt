-- ===== src/Storage/Store/Retry.antt =====
-- A second `ingest` of the same artifact in the same context, in v1/storage/store.py.
use traust_contracts.Base.{
  ◌≡◌, ◌≢◌, refl, sym, ◌∙◌, ap, subst, Text, text_eq_iff, true, false, List, [], ◌∷◌, ◌++◌, Option,
  none, some, ok, arith, ℕ, Bool-cases, inl, inr, >>=-ok, All, All-append,
}
use mathlib.Core.List.{append-nil, append_assoc}
use traust_contracts.Py.{Json}
use traust_contracts.Storage.Identity.{Binding, binding_id, references}
use traust_contracts.Storage.Identity.References.{NonEmpty, references-distinct}
use traust_contracts.Storage.Db.{
  Db, BindingRow, Location, find_binding, has_location, insert_location,
}
use traust_contracts.Storage.Exec.{Conn, lift, ◌>>=◌, now, query, labelled, continue}
use traust_contracts.Storage.Exec.Total.{
  Total, Completed, Total-pure, Total-lift, Total-query, Total-now, Total-statement, Total-bind,
  Total-for_each, Total-on_postgres, begin-Completed,
}
use traust_contracts.Storage.Exec.Atomic.{idle-ready}
use traust_contracts.Storage.Store.Defs.{
  Env, IngestResult, require_same_binding, register_locations, bind_again, choose_branch,
  ingest_body, validated, ingest, run_validator, validate_binding, artifact_label,
}
use traust_contracts.Storage.Store.Same.{require_same_binding_complete}
use traust_contracts.Storage.Store.Body.{Bound}

-- The two databases differ in their locations alone: those that were there stay, in their order, and
-- new ones of the binding follow.
pub record SameButLocations (bid : Text) (before db : Db) : Type 0 where
  pub meta : db.meta ≡ before.meta
  pub evidence : db.evidence ≡ before.evidence
  pub bindings : db.bindings ≡ before.bindings
  pub rows : db.rows ≡ before.rows
  pub registry : db.registry ≡ before.registry
  pub objects : db.objects ≡ before.objects
  pub added : List Location
  pub locations : db.locations ≡ before.locations ++ added
  pub own : All (λ l. l.binding_id ≡ bid) added

-- The result of a retry, and what it leaves.
abbrev pub Retried : Db → Text → Text → IngestResult → Db → Type 0
Retried before digest bid res db =
    (res ≡ record { digest = digest; binding_id = bid; already_bound = true })
    × SameButLocations bid before db

insert_location-total :
    (before : Db) (l : Location) (row : BindingRow)
    → find_binding l.binding_id before.bindings ≡ some row
    → l.reference ≢ []
    → (db : Db) → SameButLocations l.binding_id before db
    → (db' : Db) × (insert_location l db ≡ ok db') × SameButLocations l.binding_id before db'
unfolding insert_location
insert_location-total before l row found named db s =
    let here : find_binding l.binding_id db.bindings ≡ some row =
      subst (λ x. find_binding l.binding_id x ≡ some row) (sym s.bindings) found in
    elim (Bool-cases (has_location l.binding_id l.reference db.locations)) [
      | inl old ↦ (db, ground arith, s)
      | inr new ↦ (
        record db { locations = db.locations ++ l ∷ [] },
        ground (arith, text_eq_iff l.reference []),
        record {
          meta = s.meta;
          evidence = s.evidence;
          bindings = s.bindings;
          rows = s.rows;
          registry = s.registry;
          objects = s.objects;
          added = s.added ++ l ∷ [];
          locations =
              ap (λ x. x ++ l ∷ []) s.locations ∙ append_assoc before.locations s.added (l ∷ []);
          own = All-append (λ m. m.binding_id ≡ l.binding_id) s.added (l ∷ []) s.own (refl, tt);
        },
      )
    ]

validated-locations :
    (env : Env) (artifact : Text) (payload : List ℕ) (b : Binding) (refs : List Text)
    {document : Json} {locations : List Text}
    → validated env artifact payload b refs ≡ ok (document, locations)
    → All NonEmpty locations
unfolding validated
validated-locations env artifact payload b refs {document} {locations} h =
    let (d, hd, h1) = >>=-ok (run_validator (env.validator artifact) payload) _ h in
    let (u, hu, h2) = >>=-ok (validate_binding (env.profile artifact) b) _ h1 in
    let (ls, hl, h3) = >>=-ok (references refs) _ h2 in
    let same : ls ≡ locations = cc in
    subst (λ x. All NonEmpty x) same (references-distinct refs ls hl).0

module _ (before : Db) (artifact digest bid : Text) (b : Binding) where
  abbrev Unchanged : Db → Type 0
  Unchanged db = SameButLocations bid before db

  abbrev Again : IngestResult → Db → Type 0
  Again res db = Retried before digest bid res db

  Total-register_locations :
      (row : BindingRow) (locations : List Text)
      → find_binding bid before.bindings ≡ some row
      → All NonEmpty locations
      → Total Unchanged (register_locations bid locations) (λ _. Unchanged)
  unfolding register_locations
  Total-register_locations row locations found h =
      Total-bind {R = λ _. Unchanged} now _ Total-now λ at.
        Total-for_each locations _ h λ reference named.
          Total-statement _ (λ db s. insert_location-total before _ row found named db s)

  Total-bind_again :
      (row : BindingRow) (locations : List Text)
      → find_binding bid before.bindings ≡ some row
      → require_same_binding artifact digest b row ≡ ok tt
      → All NonEmpty locations
      → Total Unchanged (bind_again artifact digest bid b locations row) Again
  unfolding bind_again
  Total-bind_again row locations found same h =
      Total-bind {R = λ _. Unchanged} _ _ (Total-lift tt _ same (λ db s. s)) λ _.
        Total-bind {R = λ _. Unchanged} _ _ (Total-register_locations row locations found h)
          λ _. Total-pure _ (λ db s. (refl, s))

  Total-chosen :
      (show : Json → Text) (payload : List ℕ) (document : Json) (locations : List Text)
      (row : BindingRow) (existing : Option BindingRow)
      → find_binding bid before.bindings ≡ some row
      → require_same_binding artifact digest b row ≡ ok tt
      → All NonEmpty locations
      → Total
          (λ db. Unchanged db × (find_binding bid db.bindings ≡ existing))
          (choose_branch show artifact payload document digest bid b locations existing)
          Again
  unfolding choose_branch
  Total-chosen show payload document locations row none found same h = record {
    run = λ c calm (s, e).
        let f = subst (λ x. find_binding bid x ≡ some row) (sym s.bindings) found in absurd (cc);
  }
  Total-chosen show payload document locations row (some other) found same h = record {
    run = λ c calm (s, e).
        let f = subst (λ x. find_binding bid x ≡ some row) (sym s.bindings) found in
        let this : row ≡ other = cc in
        (subst (λ r. Total Unchanged (bind_again artifact digest bid b locations r) Again) this
            (Total-bind_again row locations found same h)).run
          c calm s;
  }

  Total-ingest_body :
      (show : Json → Text) (payload : List ℕ) (document : Json) (locations : List Text)
      (row : BindingRow)
      → find_binding bid before.bindings ≡ some row
      → require_same_binding artifact digest b row ≡ ok tt
      → All NonEmpty locations
      → Total Unchanged (ingest_body show artifact payload document digest bid b locations) Again
  unfolding ingest_body
  Total-ingest_body show payload document locations row found same h =
      Total-bind {R = λ _. Unchanged} _ _
        (Total-on_postgres (query (λ _. tt)) (Total-query _ (λ db s. s)) (λ db s. s))
        λ _.
          Total-bind {R = λ existing db. Unchanged db × (find_binding bid db.bindings ≡ existing)} _
            _ (Total-query _ (λ db s. (s, refl)))
            λ existing. Total-chosen show payload document locations row existing found same h

-- When the committed tables hold the binding already, the connection is idle, the arguments
-- validate and the driver raises at no statement, `ingest` returns with already_bound, commits,
-- and changes the database at most by locations of the binding that follow those that were there.
pub ingest-again :
    (env : Env) (artifact : Text) (payload : List ℕ) (b : Binding) (refs : List Text) (c : Conn)
    (document : Json) (locations : List Text) (bid : Text)
    → c.active ≡ false
    → c.faults ≡ []
    → validated env artifact payload b refs ≡ ok (document, locations)
    → binding_id env.sha256 (env.sha256 payload) artifact b ≡ ok bid
    → Bound env.sha256 artifact (env.sha256 payload) bid b c.committed
    → Completed
        (Retried c.committed (env.sha256 payload) bid)
        (ingest env artifact payload b refs c).0
        (ingest env artifact payload b refs c).1
unfolding ingest ◌>>=◌ labelled lift continue
ingest-again env artifact payload b refs c document locations bid ready calm valid identity held =
    let same =
      require_same_binding_complete artifact (env.sha256 payload) b held.row held.digest_bound
        held.name_bound held.context_bound in
    rw (idle-ready c ready, valid, identity)
      (begin-Completed (artifact_label artifact) c calm
        (record {
          meta = refl;
          evidence = refl;
          bindings = refl;
          rows = refl;
          registry = refl;
          objects = refl;
          added = [];
          locations = sym (append-nil c.committed.locations);
          own = tt;
        })
        (Total-ingest_body c.committed artifact (env.sha256 payload) bid b env.show payload document
          locations held.row held.found same
          (validated-locations env artifact payload b refs valid)))
