-- ===== src/Storage/Store/Body.antt =====
-- The transaction of `ingest` in v1/storage/store.py, by what it sees when it returns.
use traust_contracts.Base.{
  ◌≡◌, ◌≢◌, refl, sym, subst, Text, text_eq, text_eq_iff, List, Option, none, some, ok, arith, ℕ,
}
use traust_contracts.Py.{Json}
use traust_contracts.Storage.Identity.{Binding, binding_id}
use traust_contracts.Storage.Db.{
  Db, Evidence, BindingRow, Location, find_binding, insert_evidence, insert_binding,
  insert_location, registered,
}
use traust_contracts.Storage.Exec.{raise, statement, query}
use traust_contracts.Storage.Exec.Triples.{
  Triple, Triple-pure, Triple-raise, Triple-lift, Triple-query, Triple-if, Triple-now,
  Triple-statement, Triple-bind,
}
use traust_contracts.Storage.Exec.Keeps.{
  Keeps, keeps_rules, Keeps-statement, Keeps-on_postgres, Keeps-query,
}
use traust_contracts.Storage.Project.Frame.{Admits, project-Keeps}
use traust_contracts.Storage.Store.Defs.{
  IngestResult, require_predecessor, check_predecessor, register_locations, bind_again, bind_new,
  choose_branch, ingest_body,
}
use traust_contracts.Storage.Store.Valid.{Follows, IsValid}
use traust_contracts.Storage.Store.Preserve.{
  insert_evidence-IsValid, insert_binding-IsValid, insert_row-IsValid, insert_location-IsValid,
  insert_row-bindings, insert_location-bindings,
}
use traust_contracts.Storage.Store.Same.{require_same_binding_sound}

-- The tables are valid and hold the artifact under its identity.
pub record Bound (sha256 : List ℕ → Text) (artifact digest bid : Text) (b : Binding) (db : Db)
    : Type 0 where
  pub valid : IsValid sha256 db
  pub row : BindingRow
  pub found : find_binding bid db.bindings ≡ some row
  pub digest_bound : row.artifact_digest ≡ digest
  pub name_bound : row.artifact_name ≡ artifact
  pub context_bound : row.binding ≡ b

-- What the caller learns from the result.
pub record Stored (sha256 : List ℕ → Text) (artifact digest bid : Text) (b : Binding)
    (res : IngestResult) (db : Db) : Type 0 where
  pub bound : Bound sha256 artifact digest bid b db
  pub result_digest : res.digest ≡ digest
  pub result_binding : res.binding_id ≡ bid

check_predecessor-Follows :
    (artifact : Text) (b : Binding) (id : Text) (bindings : List BindingRow)
    (row : Option BindingRow) {u : Unit {0}}
    → find_binding id bindings ≡ row
    → check_predecessor artifact b row ≡ ok u
    → Follows bindings artifact b id
unfolding check_predecessor
check_predecessor-Follows artifact b id bindings none f h = absurd (cc)
check_predecessor-Follows artifact b id bindings (some row) f h = record {
  predecessor = row;
  found = f;
  context = ground arith;
}

module _ (sha256 : List ℕ → Text) (artifact digest bid : Text) (b : Binding) where
  -- The tables before the binding is added.
  record Ready (db : Db) : Type 0 where
    valid : IsValid sha256 db
    fresh : find_binding bid db.bindings ≡ none

  record Linked (db : Db) : Type 0 where
    ready : Ready db
    chain :
        (p : Text) → b.supersedes_binding_id ≡ some p → (p ≢ bid) × Follows db.bindings artifact b p

  Triple-require_predecessor :
      (o : Option Text)
      → b.supersedes_binding_id ≡ o
      → Triple Ready (require_predecessor artifact bid b o) (λ _ db. Linked db)
  unfolding require_predecessor
  Triple-require_predecessor none e =
      Triple-pure tt (λ db r. record { ready = r; chain = λ p s. absurd (cc) })
  Triple-require_predecessor (some q) e =
      Triple-if (text_eq q bid) (raise _) _ (λ _. Triple-raise _)
        λ other.
          Triple-bind {R = λ row db. Ready db × (find_binding q db.bindings ≡ row)} (query _) _
            (Triple-query _ (λ db r. (r, refl)))
            λ row. Triple-lift _ λ u db h (r, f). record {
              ready = r;
              chain = λ p s.
                  let same : q ≡ p = cc in
                  (
                    λ clash. ground (arith, text_eq_iff q bid),
                    subst (λ x. Follows db.bindings artifact b x) same
                        (check_predecessor-Follows artifact b q db.bindings row f h),
                  );
            }

  Triple-insert_evidence :
      (e : Evidence) → Triple Linked (statement (insert_evidence e)) (λ _ db. Linked db)
  Triple-insert_evidence e = Triple-statement (insert_evidence e) λ db db' l h.
      let (same, valid) = insert_evidence-IsValid sha256 e db db' l.ready.valid h in
      record {
        ready = record {
          valid = valid;
          fresh = subst (λ x. find_binding bid x ≡ none) (sym same) l.ready.fresh;
        };
        chain = λ p s.
            let (other, follows) = l.chain p s in
            (other, subst (λ x. Follows x artifact b p) (sym same) follows);
      }

  abbrev Holds : Db → Type 0
  Holds db = Bound sha256 artifact digest bid b db

  module _ (identity : binding_id sha256 digest artifact b ≡ ok bid) where
    Triple-insert_binding :
        (at : ℕ)
        → Triple Linked
            (statement λ db.
              insert_binding
                (registered "product_repo" db.registry)
                (record {
                  binding_id = bid;
                  artifact_digest = digest;
                  artifact_name = artifact;
                  binding = b;
                  bound_at = at;
                })
                db)
            (λ _ db. Holds db)
    Triple-insert_binding at = Triple-statement _ λ db db' l h.
        let (found, valid) =
          insert_binding-IsValid sha256 (registered "product_repo" db.registry) _ db db'
            l.ready.valid l.ready.fresh identity l.chain h in
        record {
          valid = valid;
          row = _;
          found = found;
          digest_bound = refl;
          name_bound = refl;
          context_bound = refl;
        }

  Bound-carry :
      (db db' : Db) → Holds db → db'.bindings ≡ db.bindings → IsValid sha256 db' → Holds db'
  Bound-carry db db' held same valid = record {
    valid = valid;
    row = held.row;
    found = subst (λ x. find_binding bid x ≡ some held.row) (sym same) held.found;
    digest_bound = held.digest_bound;
    name_bound = held.name_bound;
    context_bound = held.context_bound;
  }

  Keeps-insert_location : (l : Location) → Keeps Holds (statement (insert_location l))
  Keeps-insert_location l = Keeps-statement (insert_location l) λ db db' held h.
      Bound-carry db db' held (insert_location-bindings l db db' h)
        (insert_location-IsValid sha256 l db db' held.valid h)

  Keeps-register_locations : (refs : List Text) → Keeps Holds (register_locations bid refs)
  unfolding register_locations
  Keeps-register_locations refs = search (keeps_rules, Keeps-insert_location) depth 6

  Admits-row : Admits Holds digest bid
  Admits-row = record {
    add = λ r db db' _ _ held h.
        Bound-carry db db' held (insert_row-bindings r db db' h)
          (insert_row-IsValid sha256 r db db' held.valid h);
  }

  abbrev Returned : IngestResult → Db → Type 0
  Returned res db = Stored sha256 artifact digest bid b res db

  Triple-bind_new :
      (show : Json → Text) (payload : List ℕ) (document : Json) (locations : List Text)
      → binding_id sha256 digest artifact b ≡ ok bid
      → Triple Ready (bind_new show artifact payload document digest bid b locations) Returned
  unfolding bind_new
  Triple-bind_new show payload document locations identity =
      Triple-bind {R = λ _ db. Linked db} _ _
        (Triple-require_predecessor b.supersedes_binding_id refl)
        λ _. Triple-bind {R = λ _ db. Linked db} _ _ Triple-now λ first.
          Triple-bind {R = λ _ db. Linked db} _ _ (Triple-insert_evidence _) λ _.
            Triple-bind {R = λ _ db. Linked db} _ _ Triple-now λ at.
              Triple-bind {R = λ _ db. Holds db} _ _ (Triple-insert_binding identity at) λ _.
                Triple-bind {R = λ _ db. Holds db} _ _ (Keeps-register_locations locations).kept
                  λ _.
                    Triple-bind {R = λ _ db. Holds db} _ _
                      (project-Keeps digest bid Admits-row show artifact document).kept
                      λ _. Triple-pure _ λ db held. record {
                        bound = held;
                        result_digest = refl;
                        result_binding = refl;
                      }

  Triple-bind_again :
      (locations : List Text) (row : BindingRow)
      → Triple
          (λ db. IsValid sha256 db × (find_binding bid db.bindings ≡ some row))
          (bind_again artifact digest bid b locations row)
          Returned
  unfolding bind_again
  Triple-bind_again locations row =
      Triple-bind {R = λ _ db. Holds db} _ _
        (Triple-lift _ λ u db h (valid, found).
          let (ed, en, eb) = require_same_binding_sound artifact digest b row h in
          record {
            valid = valid;
            row = row;
            found = found;
            digest_bound = ed;
            name_bound = en;
            context_bound = eb;
          })
        λ _. Triple-bind {R = λ _ db. Holds db} _ _ (Keeps-register_locations locations).kept λ _.
          Triple-pure _
            λ db held. record { bound = held; result_digest = refl; result_binding = refl }

  Triple-choose_branch :
      (show : Json → Text) (payload : List ℕ) (document : Json) (locations : List Text)
      → binding_id sha256 digest artifact b ≡ ok bid
      → (existing : Option BindingRow)
      → Triple
          (λ db. IsValid sha256 db × (find_binding bid db.bindings ≡ existing))
          (choose_branch show artifact payload document digest bid b locations existing)
          Returned
  unfolding choose_branch
  Triple-choose_branch show payload document locations identity none = record {
    post = λ c a (valid, fresh) h.
        (Triple-bind_new show payload document locations identity).post c a
          (record { valid = valid; fresh = fresh }) h;
  }
  Triple-choose_branch show payload document locations identity (some row) =
      Triple-bind_again locations row

  -- From valid tables the transaction returns with the artifact in valid tables.
  pub Triple-ingest_body :
      (show : Json → Text) (payload : List ℕ) (document : Json) (locations : List Text)
      → binding_id sha256 digest artifact b ≡ ok bid
      → Triple
          (λ db. IsValid sha256 db)
          (ingest_body show artifact payload document digest bid b locations)
          Returned
  unfolding ingest_body
  Triple-ingest_body show payload document locations identity =
      Triple-bind {R = λ _ db. IsValid sha256 db} _ _ (Keeps-on_postgres _ (Keeps-query _)).kept
        λ _.
          Triple-bind {R = λ row db. IsValid sha256 db × (find_binding bid db.bindings ≡ row)} _ _
            (Triple-query _ (λ db valid. (valid, refl)))
            λ existing. Triple-choose_branch show payload document locations identity existing
