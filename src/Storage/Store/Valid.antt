-- ===== src/Storage/Store/Valid.antt =====
-- The invariant of the tables that `ingest` writes.
use traust_contracts.Base.{◌≡◌, ◌≢◌, Text, true, List, [], some, All, ok, ℕ}
use traust_contracts.Storage.Identity.{Binding, binding_id}
use traust_contracts.Storage.Db.{
  empty, Entry, Db, BindingRow, Location, Row, find_binding, has_evidence,
}
use traust_contracts.Storage.Store.Defs.{same_context}

-- A row of a projection refers to a binding of the same artifact.
pub record RowBound (bindings : List BindingRow) (r : Row) : Type 0 where
  pub owner : BindingRow
  pub found : find_binding r.binding_id bindings ≡ some owner
  pub digest : owner.artifact_digest ≡ r.artifact_digest

pub record LocationBound (bindings : List BindingRow) (l : Location) : Type 0 where
  pub owner : BindingRow
  pub found : find_binding l.binding_id bindings ≡ some owner
  pub named : l.reference ≢ []

-- A binding that supersedes another has it in the table, in the same context.
pub record Follows (bindings : List BindingRow) (name : Text) (b : Binding) (id : Text)
    : Type 0 where
  pub predecessor : BindingRow
  pub found : find_binding id bindings ≡ some predecessor
  pub context : same_context name b predecessor ≡ true

-- What holds of one row of artifact_binding.
pub record BindingValid (sha256 : List ℕ → Text) (db : Db) (id : Text) (r : BindingRow)
    : Type 0 where
  pub identity : binding_id sha256 r.artifact_digest r.artifact_name r.binding ≡ ok id
  pub evidence : has_evidence r.artifact_digest db.evidence ≡ true
  pub chain :
      (p : Text)
      → r.binding.supersedes_binding_id ≡ some p
      → (p ≢ id) × Follows db.bindings r.artifact_name r.binding p

pub record IsValid (sha256 : List ℕ → Text) (db : Db) : Type 0 where
  pub bound :
      (id : Text) (r : BindingRow)
      → find_binding id db.bindings ≡ some r
      → BindingValid sha256 db id r
  pub single :
      (id id' p : Text) (r r' : BindingRow)
      → find_binding id db.bindings ≡ some r
      → find_binding id' db.bindings ≡ some r'
      → r.binding.supersedes_binding_id ≡ some p
      → r'.binding.supersedes_binding_id ≡ some p
      → id ≡ id'
  pub rows : All (RowBound db.bindings) db.rows
  pub locations : All (LocationBound db.bindings) db.locations

-- The registry has no part in it.
pub IsValid-registry :
    (sha256 : List ℕ → Text) (db : Db) (entries : List Entry)
    → IsValid sha256 db
    → IsValid sha256 (record db { registry = entries })
IsValid-registry sha256 db entries v = record {
  bound = λ id r found. record {
    identity = (v.bound id r found).identity;
    evidence = (v.bound id r found).evidence;
    chain = (v.bound id r found).chain;
  };
  single = v.single;
  rows = v.rows;
  locations = v.locations;
}

pub IsValid-empty : (sha256 : List ℕ → Text) → IsValid sha256 empty
unfolding find_binding
IsValid-empty sha256 = record {
  bound = λ id r found. absurd (cc);
  single = λ id id' p r r' found. absurd (cc);
  rows = tt;
  locations = tt;
}
