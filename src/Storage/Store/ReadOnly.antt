-- ===== src/Storage/Store/ReadOnly.antt =====
-- What the reading methods of v1/storage/store.py return.
use traust_contracts.Base.{
  ℕ, ◌∷◌, ◌++◌, All, ◌≡◌, refl, sym, ◌∙◌, ap, Text, String, true, false, List, [], map, some,
  Result, Error, ok, err,
}
use traust_contracts.Py.{dumps_texts}
use traust_contracts.Storage.Identity.{identifier_bytes}
use traust_contracts.Storage.Db.{Db, BindingRow, find_binding, evidence_size, locations_of}
use traust_contracts.Storage.Exec.{Conn, Exec, lift, ◌>>=◌, idle, begin, committing, continue}
use traust_contracts.Storage.Exec.Atomic.{idle-ready}
use traust_contracts.Storage.Exec.Total.{
  Total, Completed, Total-pure, Total-query, Total-bind, Total-on_postgres, begin-Completed,
}
use traust_contracts.Storage.Store.Reads.{
  BindingRecord, is_digest, check_digest, binding_record, read_record, get_body, get_binding,
  read_label, Query, encoded_scopes, check_scopes, view_body, view_label, query_view, no_scope,
  view_name,
}

module _ {A X : Type 0} (r : Result X) (label : Text) (body : X → Exec A) (c : Conn) where
  -- The skeleton of a read: the idle check, the check of the arguments, and a transaction.
  read-Completed :
      {Q : A → Db → Type 0} (x : X)
      → c.active ≡ false
      → c.faults ≡ []
      → r ≡ ok x
      → Total (λ db. c.committed ≡ db) (body x) Q
      → Completed Q
          ((idle >>= λ _. lift r >>= λ x. begin >>= λ _. committing label (body x)) c).0
          ((idle >>= λ _. lift r >>= λ x. begin >>= λ _. committing label (body x)) c).1
  unfolding ◌>>=◌ lift continue
  read-Completed x ready calm valid t =
      rw (idle-ready c ready, valid) (begin-Completed label c calm refl t)

  read-refused :
      {e : Error}
      → c.active ≡ false
      → r ≡ err e
      → (idle >>= λ _. lift r >>= λ x. begin >>= λ _. committing label (body x)) c ≡ (err e, c)
  unfolding ◌>>=◌ lift continue
  read-refused ready invalid = rw (idle-ready c ready, invalid) refl

-- The record of a row in a database.
abbrev pub record_in : Db → BindingRow → BindingRecord
record_in db row =
    binding_record row (evidence_size row.artifact_digest db.evidence)
      (map (λ l. l.reference) (locations_of row.binding_id db.locations))

Total-read_row :
    (before : Db) (row : BindingRow)
    → Total
        (λ db. before ≡ db)
        (read_record (some row))
        (λ got db. (before ≡ db) × (got ≡ record_in before row))
unfolding read_record
Total-read_row before row =
    Total-bind
      {R = λ size db. (before ≡ db) × (size ≡ evidence_size row.artifact_digest before.evidence)} _
      _
      (Total-query _
        (λ db same. (same, ap (λ d. evidence_size row.artifact_digest d.evidence) (sym same))))
      λ size.
        Total-bind
          {R = λ references db.
            (before ≡ db) × (binding_record row size references ≡ record_in before row)}
          _ _
          (Total-query _ λ db (same, e). (
            same,
            ap
                  (λ d.
                    binding_record row size
                      (map (λ l. l.reference) (locations_of row.binding_id d.locations)))
                  (sym same)
                ∙ ap
                    (λ n.
                      binding_record row n
                        (map (λ l. l.reference) (locations_of row.binding_id before.locations)))
                    e,
          ))
          λ references. Total-pure _ (λ db h. h)

Total-get_body :
    (id : Text) (before : Db) (row : BindingRow)
    → find_binding id before.bindings ≡ some row
    → Total
        (λ db. before ≡ db)
        (get_body id)
        (λ got db. (before ≡ db) × (got ≡ record_in before row))
unfolding get_body
Total-get_body id before row found =
    Total-bind {R = λ r db. (before ≡ db) × (r ≡ some row)} _ _
      (Total-query _ (λ db same. (same, ap (λ d. find_binding id d.bindings) (sym same) ∙ found)))
      λ r. record { run = λ c calm (same, e). rw e ((Total-read_row before row).run c calm same) }

-- `get_binding` of a stored binding, where the driver raises at no statement.
pub get_binding-row :
    (id : Text) (row : BindingRow) (c : Conn)
    → c.active ≡ false
    → c.faults ≡ []
    → is_digest id ≡ true
    → find_binding id c.committed.bindings ≡ some row
    → Completed
        (λ got db. (c.committed ≡ db) × (got ≡ record_in c.committed row))
        (get_binding id c).0
        (get_binding id c).1
unfolding get_binding check_digest
get_binding-row id row c ready calm digest found =
    read-Completed (check_digest id) read_label (λ _. get_body id) c tt ready calm (rw digest refl)
      (Total-get_body id c.committed row found)

-- `_identifier_bytes` takes the text as a scope.
abbrev pub IsScope : Text → Type 0
IsScope s = (bytes : List ℕ) × (identifier_bytes "scope_id" s ≡ ok bytes)

check_scopes-valid : (ss : List Text) → All IsScope ss → check_scopes ss ≡ ok tt
unfolding check_scopes
check_scopes-valid [] h = refl
check_scopes-valid (s ∷ ss) (h, hs) = rw (h.1, check_scopes-valid ss hs) refl

check_scopes-invalid :
    (front : List Text) (s : Text) (rest : List Text) {e : Error}
    → All IsScope front
    → identifier_bytes "scope_id" s ≡ err e
    → check_scopes (front ++ s ∷ rest) ≡ err e
unfolding check_scopes
check_scopes-invalid [] s rest h bad = rw bad refl
check_scopes-invalid (f ∷ front) s rest (h, hs) bad =
    rw (h.1, check_scopes-invalid front s rest hs bad) refl

encoded_scopes-valid :
    (s : Text) (ss : List Text)
    → All IsScope (s ∷ ss)
    → encoded_scopes (s ∷ ss) ≡ ok (dumps_texts (s ∷ ss))
unfolding encoded_scopes
encoded_scopes-valid s ss h = rw (check_scopes-valid (s ∷ ss) h) refl

encoded_scopes-invalid :
    (front : List Text) (s : Text) (rest : List Text) {e : Error}
    → All IsScope front
    → identifier_bytes "scope_id" s ≡ err e
    → encoded_scopes (front ++ s ∷ rest) ≡ err e
unfolding encoded_scopes
encoded_scopes-invalid [] s rest h bad = rw (check_scopes-invalid [] s rest h bad) refl
encoded_scopes-invalid (f ∷ front) s rest h bad =
    rw (check_scopes-invalid (f ∷ front) s rest h bad) refl

module _ {Rows : Type 0} (read : String → Text → Db → Rows) where
  Total-view_body :
      (q : Query) (encoded : Text) (before : Db)
      → Total
          (λ db. before ≡ db)
          (view_body read q encoded)
          (λ rows db. (before ≡ db) × (rows ≡ read (view_name q) encoded before))
  unfolding view_body
  Total-view_body q encoded before =
      Total-bind {R = λ _ db. before ≡ db} _ _
        (Total-on_postgres _ (Total-query _ (λ db same. same)) (λ db same. same))
        λ _. Total-query _ (λ db same. (same, ap (λ d. read (view_name q) encoded d) (sym same)))

  -- On an idle connection a query_* method refuses an empty scope list, and a list with a text that
  -- `_identifier_bytes` refuses with the error for the first of these, and leaves the connection as it
  -- was. With any other list and a driver that raises at no statement, it returns the rows that its
  -- view has for the JSON list of exactly these scopes.
  pub query_view-scoped :
      (q : Query) (c : Conn)
      → c.active ≡ false
      → (query_view read q [] c ≡ (err no_scope, c))
        × ((front : List Text) (s : Text) (rest : List Text) (e : Error)
            → All IsScope front
            → identifier_bytes "scope_id" s ≡ err e
            → query_view read q (front ++ s ∷ rest) c ≡ (err e, c))
        × ((s : Text) (ss : List Text)
            → All IsScope (s ∷ ss)
            → c.faults ≡ []
            → Completed
                (λ rows db.
                  (c.committed ≡ db)
                  × (rows ≡ read (view_name q) (dumps_texts (s ∷ ss)) c.committed))
                (query_view read q (s ∷ ss) c).0
                (query_view read q (s ∷ ss) c).1)
  unfolding query_view encoded_scopes
  query_view-scoped q c ready = (
    read-refused (encoded_scopes []) (view_label q) (view_body read q) c ready refl,
    λ front s rest e valid bad.
        read-refused (encoded_scopes (front ++ s ∷ rest)) (view_label q) (view_body read q) c ready
          (encoded_scopes-invalid front s rest valid bad),
    λ s ss valid calm.
        read-Completed (encoded_scopes (s ∷ ss)) (view_label q) (view_body read q) c
          (dumps_texts (s ∷ ss)) ready calm (encoded_scopes-valid s ss valid)
          (Total-view_body q (dumps_texts (s ∷ ss)) c.committed),
  )
