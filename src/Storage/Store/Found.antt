-- ===== src/Storage/Store/Found.antt =====
-- What `get_binding` of v1/storage/store.py returns for a stored binding on valid tables.
use traust_contracts.Base.{
  ◌≡◌, refl, ◌∙◌, ap, ℕ, Text, text_eq, text_eq_iff, elem, true, false, ◌||◌, List, [], ◌∷◌, map,
  some, arith, Bool-cases, inl, inr,
}
use traust_contracts.Storage.Db.{
  Db, Evidence, BindingRow, Location, find_binding, has_evidence, evidence_size, has_location,
  locations_of, insert_ordered,
}
use traust_contracts.Storage.Db.Lookups.{find_binding-id}
use traust_contracts.Storage.Exec.{Conn}
use traust_contracts.Storage.Exec.Total.{Completed}
use traust_contracts.Storage.Store.Reads.{BindingRecord, is_digest, get_binding, binding_record}
use traust_contracts.Storage.Store.ReadOnly.{get_binding-row}
use traust_contracts.Storage.Store.Valid.{IsValid}

abbrev names_of : List Location → List Text
names_of = map (λ l. l.reference)

elem-insert_ordered :
    (t : Text) (l : Location) (ls : List Location)
    → elem t (names_of (insert_ordered l ls)) ≡ (text_eq t l.reference || elem t (names_of ls))
unfolding elem insert_ordered
elem-insert_ordered t l [] = refl
elem-insert_ordered t l (m ∷ ls) = ground (arith, elem-insert_ordered t l ls)

-- Sorting loses none of the locations and adds none.
elem-locations_of :
    (t id : Text) (ls : List Location)
    → elem t (names_of (locations_of id ls)) ≡ has_location id t ls
unfolding elem locations_of has_location
elem-locations_of t id [] = refl
elem-locations_of t id (l ∷ ls) = ground (
  arith,
  elem-locations_of t id ls,
  elem-insert_ordered t l (locations_of id ls),
  text_eq_iff t l.reference,
  text_eq_iff l.reference t,
)

evidence_size-some :
    (digest : Text) (es : List Evidence)
    → has_evidence digest es ≡ true
    → (n : ℕ) × (evidence_size digest es ≡ some n)
unfolding has_evidence evidence_size
evidence_size-some digest [] h = absurd (cc)
evidence_size-some digest (e ∷ es) h = elim (Bool-cases (text_eq e.digest digest)) [
  | inl same ↦ (e.byte_size, ground arith)
  | inr other ↦
      let rest = evidence_size-some digest es (ground arith) in (rest.0, ground (arith, rest.1))
]

-- The record has the row's columns, a size, which is that of the row's evidence, and as references
-- those that are registered for the binding and no others.
pub record Found (db : Db) (id : Text) (row : BindingRow) (got : BindingRecord) : Type 0 where
  pub same_id : got.binding_id ≡ id
  pub digest : got.artifact_digest ≡ row.artifact_digest
  pub name : got.artifact_name ≡ row.artifact_name
  pub context : got.binding ≡ row.binding
  pub bound : got.bound_at ≡ row.bound_at
  pub size : ℕ
  pub sized : got.byte_size ≡ some size
  pub evidence : evidence_size row.artifact_digest db.evidence ≡ some size
  pub exact_references : (t : Text) → elem t got.references ≡ has_location id t db.locations

-- On an idle connection with valid tables whose driver raises at no statement, `get_binding` of a
-- stored binding returns its row, the size of its evidence, which is there, and the references that
-- are registered for it, and commits an unchanged database.
pub get_binding-Found :
    (sha256 : List ℕ → Text) (id : Text) (row : BindingRow) (c : Conn)
    → IsValid sha256 c.committed
    → c.active ≡ false
    → c.faults ≡ []
    → is_digest id ≡ true
    → find_binding id c.committed.bindings ≡ some row
    → Completed
        (λ got db. (c.committed ≡ db) × Found c.committed id row got)
        (get_binding id c).0
        (get_binding id c).1
unfolding binding_record
get_binding-Found sha256 id row c valid ready calm digest found =
    let r = get_binding-row id row c ready calm digest found in
    let own : row.binding_id ≡ id = find_binding-id id c.committed.bindings row found in
    let sized =
      evidence_size-some row.artifact_digest c.committed.evidence
        (valid.bound id row found).evidence in
    record {
      value = r.value;
      returned = r.returned;
      closed = r.closed;
      faultless = r.faultless;
      post = (
        r.post.0,
        record {
          same_id = ap (λ g. g.binding_id) r.post.1 ∙ own;
          digest = ap (λ g. g.artifact_digest) r.post.1;
          name = ap (λ g. g.artifact_name) r.post.1;
          context = ap (λ g. g.binding) r.post.1;
          bound = ap (λ g. g.bound_at) r.post.1;
          size = sized.0;
          sized = ap (λ g. g.byte_size) r.post.1 ∙ sized.1;
          evidence = sized.1;
          exact_references = λ t.
              ap (λ g. elem t g.references) r.post.1
              ∙ elem-locations_of t row.binding_id c.committed.locations
              ∙ ap (λ i. has_location i t c.committed.locations) own;
        },
      );
    }
