-- ===== src/Storage/Store/Preserve.antt =====
-- The statements of `ingest` on evidence, bindings, locations and rows keep the tables valid.
use traust_contracts.Base.{
  ◌≡◌, ◌≢◌, sym, ◌∙◌, ap, subst, Text, text_eq, text_eq_iff, option_text_eq_iff, Bool, true, false,
  List, [], ◌∷◌, ◌++◌, none, some, Option-cases, All, All-append, ok, ◌⊎◌, inl, inr, arith,
  Bool-cases, ℕ,
}
use traust_contracts.Storage.Identity.{Binding, binding_id}
use traust_contracts.Storage.Db.{
  Db, Evidence, BindingRow, Location, Row, find_binding, has_evidence, has_successor, has_location,
  violates, insert_evidence, insert_binding, insert_location, insert_row,
}
use traust_contracts.Storage.Db.Lookups.{
  find_binding-append, find_binding-new, find_binding-split, has_evidence-append, has_evidence-new,
}
use traust_contracts.Storage.Store.Valid.{RowBound, LocationBound, Follows, BindingValid, IsValid}

-- A binding that is found supersedes nothing, or is the successor that the index finds.
has_successor-found :
    (id p : Text) (rows : List BindingRow) (r : BindingRow)
    → find_binding id rows ≡ some r
    → r.binding.supersedes_binding_id ≡ some p
    → has_successor (some p) rows ≡ true
unfolding has_successor find_binding
has_successor-found id p [] r h s = cc
has_successor-found id p (q ∷ rows) r h s = elim (Bool-cases (text_eq q.binding_id id)) [
  | inl same ↦ ground (arith, (option_text_eq_iff q.binding.supersedes_binding_id (some p)).1)
  | inr other ↦ ground (arith, has_successor-found id p rows r)
]

Follows-append :
    (bindings : List BindingRow) (r : BindingRow) {name : Text} {b : Binding} {id : Text}
    → Follows bindings name b id
    → Follows (bindings ++ r ∷ []) name b id
Follows-append bindings r f = record {
  predecessor = f.predecessor;
  found = find_binding-append _ bindings r f.predecessor f.found;
  context = f.context;
}

rows-append :
    (bindings : List BindingRow) (r : BindingRow) (rows : List Row)
    → All (RowBound bindings) rows
    → All (RowBound (bindings ++ r ∷ [])) rows
rows-append bindings r [] h = tt
rows-append bindings r (x ∷ xs) (h, hs) = (
  record {
    owner = h.owner;
    found = find_binding-append _ bindings r h.owner h.found;
    digest = h.digest;
  },
  rows-append bindings r xs hs,
)

locations-append :
    (bindings : List BindingRow) (r : BindingRow) (ls : List Location)
    → All (LocationBound bindings) ls
    → All (LocationBound (bindings ++ r ∷ [])) ls
locations-append bindings r [] h = tt
locations-append bindings r (x ∷ xs) (h, hs) = (
  record {
    owner = h.owner;
    found = find_binding-append _ bindings r h.owner h.found;
    named = h.named;
  },
  locations-append bindings r xs hs,
)

other_successor :
    (id p : Text) (q r : BindingRow) (db : Db)
    → find_binding id db.bindings ≡ some q
    → q.binding.supersedes_binding_id ≡ some p
    → r.binding.supersedes_binding_id ≡ some p
    → has_successor r.binding.supersedes_binding_id db.bindings ≢ false
other_successor id p q r db f s s' unique =
    let seen = has_successor-found id p db.bindings q f s in
    let none_seen = subst (λ x. has_successor x db.bindings ≡ false) s' unique in cc

insert_evidence-cases :
    (e : Evidence) (db db' : Db)
    → insert_evidence e db ≡ ok db'
    → (has_evidence e.digest db'.evidence ≡ true)
      × ((db' ≡ db) ⊎ (db' ≡ record db { evidence = db.evidence ++ e ∷ [] }))
unfolding insert_evidence
insert_evidence-cases e db db' h = elim (Bool-cases (has_evidence e.digest db.evidence)) [
  | inl seen ↦
      let same : db' ≡ db = ground arith in
      (subst (λ d. has_evidence e.digest d.evidence ≡ true) (sym same) seen, inl same)
  | inr fresh ↦
      let added : db' ≡ record db { evidence = db.evidence ++ e ∷ [] } = ground arith in
      (
        subst (λ d. has_evidence e.digest d.evidence ≡ true) (sym added)
            (has_evidence-new db.evidence e),
        inr added,
      )
]

insert_row-cases :
    (r : Row) (db db' : Db)
    → insert_row r db ≡ ok db'
    → (RowBound db.bindings r) × ((db' ≡ db) ⊎ (db' ≡ record db { rows = db.rows ++ r ∷ [] }))
unfolding insert_row
insert_row-cases r db db' h = elim (Option-cases (find_binding r.binding_id db.bindings)) [
  | inl none_found ↦ absurd (ground arith)
  | inr (owner, found) ↦ (
    record {
      owner = owner;
      found = found;
      digest = ground (arith, text_eq_iff owner.artifact_digest r.artifact_digest);
    },
    ground arith,
  )
]

insert_location-cases :
    (l : Location) (db db' : Db)
    → insert_location l db ≡ ok db'
    → (db' ≡ db)
      ⊎ (LocationBound db.bindings l × (db' ≡ record db { locations = db.locations ++ l ∷ [] }))
unfolding insert_location
insert_location-cases l db db' h = elim (Option-cases (find_binding l.binding_id db.bindings)) [
  | inl missing ↦ inl (ground arith)
  | inr (owner, found) ↦ elim (Bool-cases (has_location l.binding_id l.reference db.locations)) [
    | inl seen ↦ inl (ground arith)
    | inr fresh ↦ inr (
      record {
        owner = owner;
        found = found;
        named = λ e. ground (arith, text_eq_iff l.reference []);
      },
      ground (arith, text_eq_iff l.reference []),
    )
  ]
]

insert_binding-new :
    (known : Text → Bool) (r : BindingRow) (db db' : Db)
    → find_binding r.binding_id db.bindings ≡ none
    → insert_binding known r db ≡ ok db'
    → (has_evidence r.artifact_digest db.evidence ≡ true)
      × (has_successor r.binding.supersedes_binding_id db.bindings ≡ false)
      × (db' ≡ record db { bindings = db.bindings ++ r ∷ [] })
unfolding insert_binding violates
insert_binding-new known r db db' fresh h = ground arith

pub insert_row-bindings :
    (r : Row) (db db' : Db) → insert_row r db ≡ ok db' → db'.bindings ≡ db.bindings
insert_row-bindings r db db' h = elim (insert_row-cases r db db' h).1 [
  | inl same ↦ ap (λ d. d.bindings) same
  | inr added ↦ ap (λ d. d.bindings) added
]

pub insert_location-bindings :
    (l : Location) (db db' : Db) → insert_location l db ≡ ok db' → db'.bindings ≡ db.bindings
insert_location-bindings l db db' h = elim (insert_location-cases l db db' h) [
  | inl same ↦ ap (λ d. d.bindings) same
  | inr (bound, added) ↦ ap (λ d. d.bindings) added
]

module _ (sha256 : List ℕ → Text) where
  pub insert_evidence-IsValid :
      (e : Evidence) (db db' : Db)
      → IsValid sha256 db
      → insert_evidence e db ≡ ok db'
      → (db'.bindings ≡ db.bindings) × IsValid sha256 db'
  insert_evidence-IsValid e db db' v h = elim (insert_evidence-cases e db db' h).1 [
    | inl same ↦ (ap (λ d. d.bindings) same, subst (λ d. IsValid sha256 d) (sym same) v)
    | inr added ↦ (
      ap (λ d. d.bindings) added,
      subst (λ d. IsValid sha256 d) (sym added)
          (record {
            bound = λ id r found.
                let b = v.bound id r found in
                record {
                  identity = b.identity;
                  evidence = has_evidence-append r.artifact_digest db.evidence e b.evidence;
                  chain = b.chain;
                };
            single = v.single;
            rows = v.rows;
            locations = v.locations;
          }),
    )
  ]

  pub insert_row-IsValid :
      (r : Row) (db db' : Db) → IsValid sha256 db → insert_row r db ≡ ok db' → IsValid sha256 db'
  insert_row-IsValid r db db' v h =
      let (bound, cases) = insert_row-cases r db db' h in
      elim cases [
        | inl same ↦ subst (λ d. IsValid sha256 d) (sym same) v
        | inr added ↦
            subst (λ d. IsValid sha256 d) (sym added)
              (record {
                bound = λ id q found. record {
                  identity = (v.bound id q found).identity;
                  evidence = (v.bound id q found).evidence;
                  chain = (v.bound id q found).chain;
                };
                single = v.single;
                rows = All-append (RowBound db.bindings) db.rows (r ∷ []) v.rows (bound, tt);
                locations = v.locations;
              })
      ]

  pub insert_location-IsValid :
      (l : Location) (db db' : Db)
      → IsValid sha256 db
      → insert_location l db ≡ ok db'
      → IsValid sha256 db'
  insert_location-IsValid l db db' v h = elim (insert_location-cases l db db' h) [
    | inl same ↦ subst (λ d. IsValid sha256 d) (sym same) v
    | inr (bound, added) ↦
        subst (λ d. IsValid sha256 d) (sym added)
          (record {
            bound = λ id q found. record {
              identity = (v.bound id q found).identity;
              evidence = (v.bound id q found).evidence;
              chain = (v.bound id q found).chain;
            };
            single = v.single;
            rows = v.rows;
            locations =
                All-append (LocationBound db.bindings) db.locations (l ∷ []) v.locations
                  (bound, tt);
          })
  ]

  appended-valid :
      (r : BindingRow) (db : Db)
      → IsValid sha256 db
      → binding_id sha256 r.artifact_digest r.artifact_name r.binding ≡ ok r.binding_id
      → ((p : Text)
          → r.binding.supersedes_binding_id ≡ some p
          → (p ≢ r.binding_id) × Follows db.bindings r.artifact_name r.binding p)
      → has_evidence r.artifact_digest db.evidence ≡ true
      → (id : Text) (q : BindingRow)
      → (find_binding id db.bindings ≡ some q) ⊎ ((r ≡ q) × (r.binding_id ≡ id))
      → BindingValid sha256 (record db { bindings = db.bindings ++ r ∷ [] }) id q
  appended-valid r db v identity chain evidence id q (inl found) =
      let b = v.bound id q found in
      record {
        identity = b.identity;
        evidence = b.evidence;
        chain = λ p s. ((b.chain p s).0, Follows-append db.bindings r (b.chain p s).1);
      }
  appended-valid r db v identity chain evidence id q (inr (same, named)) =
      subst (λ x. BindingValid sha256 (record db { bindings = db.bindings ++ r ∷ [] }) id x) same
        (subst (λ x. BindingValid sha256 (record db { bindings = db.bindings ++ r ∷ [] }) x r) named
          (record {
            identity = identity;
            evidence = evidence;
            chain = λ p s. ((chain p s).0, Follows-append db.bindings r (chain p s).1);
          }))

  appended-single :
      (r : BindingRow) (db : Db)
      → IsValid sha256 db
      → has_successor r.binding.supersedes_binding_id db.bindings ≡ false
      → (id id' p : Text) (q q' : BindingRow)
      → (find_binding id db.bindings ≡ some q) ⊎ ((r ≡ q) × (r.binding_id ≡ id))
      → (find_binding id' db.bindings ≡ some q') ⊎ ((r ≡ q') × (r.binding_id ≡ id'))
      → q.binding.supersedes_binding_id ≡ some p
      → q'.binding.supersedes_binding_id ≡ some p
      → id ≡ id'
  appended-single r db v unique id id' p q q' (inl f) (inl f') s s' =
      v.single id id' p q q' f f' s s'
  appended-single r db v unique id id' p q q' (inl f) (inr (same, named)) s s' =
      absurd (
        other_successor id p q r db f s (ap (λ x. x.binding.supersedes_binding_id) same ∙ s')
          unique)
  appended-single r db v unique id id' p q q' (inr (same, named)) (inl f') s s' = absurd (
      other_successor id' p q' r db f' s' (ap (λ x. x.binding.supersedes_binding_id) same ∙ s)
        unique)
  appended-single r db v unique id id' p q q' (inr (_, named)) (inr (_, named')) s s' =
      sym named ∙ named'

  -- A new row whose chain has been looked up.
  pub insert_binding-IsValid :
      (known : Text → Bool) (r : BindingRow) (db db' : Db)
      → IsValid sha256 db
      → find_binding r.binding_id db.bindings ≡ none
      → binding_id sha256 r.artifact_digest r.artifact_name r.binding ≡ ok r.binding_id
      → ((p : Text)
          → r.binding.supersedes_binding_id ≡ some p
          → (p ≢ r.binding_id) × Follows db.bindings r.artifact_name r.binding p)
      → insert_binding known r db ≡ ok db'
      → (find_binding r.binding_id db'.bindings ≡ some r) × IsValid sha256 db'
  insert_binding-IsValid known r db db' v fresh identity chain h =
      let (evidence, unique, added) = insert_binding-new known r db db' fresh h in
      (
        subst (λ d. find_binding r.binding_id d.bindings ≡ some r) (sym added)
            (find_binding-new db.bindings r fresh),
        subst (λ d. IsValid sha256 d) (sym added)
            (record {
              bound = λ id q found.
                  appended-valid r db v identity chain evidence id q
                    (find_binding-split id db.bindings r q found);
              single = λ id id' p q q' found found' s s'.
                  appended-single r db v unique id id' p q q'
                    (find_binding-split id db.bindings r q found)
                    (find_binding-split id' db.bindings r q' found') s s';
              rows = rows-append db.bindings r db.rows v.rows;
              locations = locations-append db.bindings r db.locations v.locations;
            }),
      )
