-- ===== src/Storage/Store/Migrated.antt =====
-- What `init` and `migrate` of v1/storage/store.py leave.
use traust_contracts.Base.{
  ℕ, ◌≤◌, ltb, ◌≡◌, refl, sym, ◌∙◌, ap, subst, text_eq_iff, elem, Bool, true, false, List, Option,
  none, some, if◌then◌else◌, Result, ok, arith, Bool-cases, inl, inr,
}
use traust_contracts.Storage.Db.{Db, Meta}
use traust_contracts.Storage.Exec.{Conn, Exec, pure, ◌>>=◌, statement}
use traust_contracts.Storage.Exec.Triples.{
  Triple, Triple-pure, Triple-lift, Triple-query, Triple-now, Triple-statement, Triple-bind,
  Triple-if,
}
use traust_contracts.Storage.Exec.Keeps.{
  Keeps, keeps_rules, Keeps-statement, Keeps-on_postgres, Keeps-query, Keeps-current_dialect,
  Keeps-lift, Keeps-for_each,
}
use traust_contracts.Storage.Exec.Atomic.{Outcome, transact-Outcome}
use traust_contracts.Storage.Sql.{File, contract_version, revision}
use traust_contracts.Storage.Store.Bootstrap.{
  Package, meta_table, meta_of, meta_row, read_meta, current_meta, put_meta, stamp, run_file,
  run_files, check_init, create, init_body, init, create_missing, step_up, check_migrate,
  migrate_from, migrate_body, migrate, unless_there, table_exists, init_label, migrate_label,
}

-- The database is stamped with the package's version and revision.
abbrev pub Current : Db → Type 0
Current db = meta_of db ≡ some current_meta

abbrev Same : Db → Db → Type 0
Same before db = before ≡ db

meta_of-table :
    (db : Db) (b : Bool)
    → elem meta_table db.objects ≡ b
    → meta_of db ≡ (if b then db.meta else none)
unfolding meta_of
meta_of-table db b e = rw e refl

Triple-read_meta :
    (before : Db) (b : Bool)
    → Triple
        (λ db. Same before db × (elem meta_table db.objects ≡ b))
        (read_meta b)
        (λ row db. Same before db × (row ≡ meta_of before))
unfolding read_meta
Triple-read_meta before true =
    Triple-query _ λ db (same, e). (same, sym (ap meta_of same ∙ meta_of-table db true e))
Triple-read_meta before false =
    Triple-pure none λ db (same, e). (same, sym (ap meta_of same ∙ meta_of-table db false e))

Triple-meta_row :
    (before : Db)
    → Triple (λ db. Same before db) meta_row (λ row db. Same before db × (row ≡ meta_of before))
unfolding meta_row
Triple-meta_row before =
    Triple-bind {R = λ _ db. Same before db} _ _ (Keeps-on_postgres _ (Keeps-query _)).kept λ _.
      Triple-bind {R = λ b db. Same before db × (elem meta_table db.objects ≡ b)} _ _
        (Triple-query _ (λ db same. (same, refl))) λ b. Triple-read_meta before b

put_meta-meta : (m : Meta) (db db' : Db) → put_meta m db ≡ ok db' → meta_of db' ≡ some m
unfolding put_meta
put_meta-meta m db db' h = elim (Bool-cases (elem meta_table db.objects)) [
  | inl there ↦
      let stored : db' ≡ record db { meta = some m } = ground arith in
      subst (λ d. meta_of d ≡ some m) (sym stored)
        (meta_of-table (record db { meta = some m }) true there)
  | inr gone ↦ absurd (ground arith)
]

Triple-stamp : Triple (λ _. Unit {0}) stamp (λ _ db. Current db)
unfolding stamp put_meta
Triple-stamp =
    Triple-bind {R = λ _ _. Unit {0}} _ _ Triple-now
      λ at. Triple-statement _ λ db db' u h. put_meta-meta current_meta db db' h

Keeps-anything : (run : Db → Result Db) → Keeps (λ _. Unit {0}) (statement run)
Keeps-anything run = Keeps-statement run (λ _ _ _ _. tt)

ruleset anything = (keeps_rules, Keeps-anything)

module _ (p : Package) where
  run_file-Keeps : (file : File) → Keeps (λ _. Unit {0}) (run_file p file)
  unfolding run_file
  run_file-Keeps file = search anything depth 8

  run_files-Keeps : (files : List File) → Keeps (λ _. Unit {0}) (run_files p files)
  unfolding run_files
  run_files-Keeps files = search (anything, run_file-Keeps) depth 4

  unless_there-Keeps : (file : File) (b : Bool) → Keeps (λ _. Unit {0}) (unless_there p file b)
  unfolding unless_there
  unless_there-Keeps file true = search anything depth 2
  unless_there-Keeps file false = run_file-Keeps file

  create_missing-Keeps : (file : File) → Keeps (λ _. Unit {0}) (create_missing p file)
  unfolding create_missing table_exists
  create_missing-Keeps file = search (anything, unless_there-Keeps) depth 6

  stamp-Keeps : Keeps (λ _. Unit {0}) stamp
  unfolding stamp
  stamp-Keeps = search anything depth 4

  step_up-Keeps : (files : List File) (n : ℕ) → Keeps (λ _. Unit {0}) (step_up p files n)
  unfolding step_up
  step_up-Keeps files n =
      search (anything, run_file-Keeps, run_files-Keeps, create_missing-Keeps, stamp-Keeps) depth 16

  read_meta-Keeps : (b : Bool) → Keeps (λ _. Unit {0}) (read_meta b)
  unfolding read_meta
  read_meta-Keeps true = search anything depth 2
  read_meta-Keeps false = search anything depth 2

  meta_row-Keeps : Keeps (λ _. Unit {0}) meta_row
  unfolding meta_row
  meta_row-Keeps = search (anything, read_meta-Keeps) depth 6

  create-Keeps : (row : Option Meta) → Keeps (λ _. Unit {0}) (create p row)
  unfolding create
  create-Keeps none = search (anything, run_files-Keeps, stamp-Keeps) depth 8
  create-Keeps (some m) = search anything depth 2

  init_body-Keeps : Keeps (λ _. Unit {0}) (init_body p)
  unfolding init_body
  init_body-Keeps = search (anything, meta_row-Keeps, create-Keeps) depth 6

  migrate_from-Keeps :
      (files : List File) (row : Option Meta) → Keeps (λ _. Unit {0}) (migrate_from p files row)
  unfolding migrate_from
  migrate_from-Keeps files none = search (anything, run_files-Keeps, stamp-Keeps) depth 8
  migrate_from-Keeps files (some m) = search (anything, step_up-Keeps) depth 8

  migrate_body-Keeps : Keeps (λ _. Unit {0}) (migrate_body p)
  unfolding migrate_body
  migrate_body-Keeps = search (anything, meta_row-Keeps, migrate_from-Keeps) depth 8

  stamped :
      {A : Type 0} (m : Exec A)
      → Keeps (λ _. Unit {0}) m
      → Triple (λ _. Unit {0}) (m >>= λ _. stamp) (λ _ db. Current db)
  stamped m k = Triple-bind {R = λ _ _. Unit {0}} m (λ _. stamp) k.kept (λ _. Triple-stamp)

  -- What `init` leaves: a database of the package's revision, and one that was there as it was.
  abbrev pub Initialized : Db → Db → Type 0
  Initialized before db = Current db × ((m : Meta) → meta_of before ≡ some m → before ≡ db)

  check_init-current : (m : Meta) {u : Unit {0}} → check_init p (some m) ≡ ok u → m ≡ current_meta
  unfolding check_init
  check_init-current m h =
      let ev : m.contract_version ≡ contract_version =
        ground (arith, text_eq_iff m.contract_version contract_version) in
      let er : m.revision ≡ revision = ground arith in
      λ i. record { contract_version = ev i; revision = er i }

  Triple-create-none : Triple (λ _. Unit {0}) (create p none) (λ _ db. Current db)
  unfolding create
  Triple-create-none = Triple-bind {R = λ _ _. Unit {0}} _ _ Keeps-current_dialect.kept λ dialect.
      Triple-bind {R = λ _ _. Unit {0}} _ _ (Keeps-lift _).kept
        λ files. stamped (run_files p files) (run_files-Keeps files)

  Triple-create :
      (before : Db) (row : Option Meta) {u : Unit {0}}
      → check_init p row ≡ ok u
      → Triple
          (λ db. Same before db × (row ≡ meta_of before))
          (create p row)
          (λ _ db. Initialized before db)
  unfolding create
  Triple-create before none h = record {
    post = λ c a (same, e) done. ((Triple-create-none).post c a tt done, λ m there. absurd (cc));
  }
  Triple-create before (some m) h = Triple-pure tt λ db (same, e).
      (sym (ap meta_of same) ∙ sym e ∙ ap some (check_init-current m h), λ m' _. same)

  Triple-init_body :
      (before : Db) → Triple (λ db. before ≡ db) (init_body p) (λ _ db. Initialized before db)
  unfolding init_body
  Triple-init_body before =
      Triple-bind {R = λ row db. Same before db × (row ≡ meta_of before)} _ _
        (Triple-meta_row before)
        λ row.
          Triple-bind
            {R = λ _ db. (check_init p row ≡ ok tt) × (Same before db × (row ≡ meta_of before))} _ _
            (Triple-lift (check_init p row) (λ u db h s. (h, s)))
            λ _. record { post = λ c a (h, s) done. (Triple-create before row h).post c a s done }

  -- When `init` returns, the transaction is closed, the database is stamped with the package's version
  -- and revision, and one that had a stamp before is as it was. When `init` raises, the database
  -- is as it was. Both hold whatever the SQL files do and wherever the driver raises.
  pub init-Outcome :
      (c : Conn)
      → Outcome (λ _ db. Initialized c.committed db) c.committed (init p c).0 (init p c).1
  unfolding init
  init-Outcome c =
      transact-Outcome {P = λ db. c.committed ≡ db} init_label c init_body-Keeps.quiet
        (Triple-init_body c.committed) refl

  -- The revision that a database is at.
  abbrev pub revision_of : Option Meta → ℕ
  revision_of none = 0
  revision_of (some m) = m.revision

  -- What `migrate` leaves, and which databases it accepts.
  pub record Migration (before : Db) (from_revision : ℕ) (db : Db) : Type 0 where
    pub current : Current db
    pub started : from_revision ≡ revision_of (meta_of before)
    pub accepted :
        (m : Meta)
        → meta_of before ≡ some m
        → (m.contract_version ≡ contract_version) × (m.revision ≤ revision)
    pub idle : meta_of before ≡ some current_meta → before ≡ db

  check_migrate-accepted :
      (m : Meta) {u : Unit {0}}
      → check_migrate p m ≡ ok u
      → (m.contract_version ≡ contract_version) × (m.revision ≤ revision)
  unfolding check_migrate
  check_migrate-accepted m h = ground (arith, text_eq_iff m.contract_version contract_version)

  Triple-step_up :
      (files : List File) (n : ℕ) → Triple (λ _. Unit {0}) (step_up p files n) (λ _ db. Current db)
  unfolding step_up
  Triple-step_up files n =
      Triple-bind {R = λ _ _. Unit {0}} _ _ Keeps-current_dialect.kept λ dialect.
        Triple-bind {R = λ _ _. Unit {0}} _ _ (Keeps-lift _).kept λ deltas.
          Triple-bind {R = λ _ _. Unit {0}} _ _ (Keeps-lift _).kept λ names.
            Triple-bind {R = λ _ _. Unit {0}} _ _
              (Keeps-for_each _ _ (λ name. Keeps-anything _)).kept
              λ _.
                Triple-bind {R = λ _ _. Unit {0}} _ _ (Keeps-for_each _ _ create_missing-Keeps).kept
                  λ _.
                    Triple-bind {R = λ _ _. Unit {0}} _ _ (Keeps-for_each _ _ run_file-Keeps).kept
                      λ _. stamped (run_files p files) (run_files-Keeps files)

  at_revision :
      (m : Meta) → m.contract_version ≡ contract_version → m.revision ≡ revision → m ≡ current_meta
  at_revision m ev er i = record { contract_version = ev i; revision = er i }

  some-injective : {m m' : Meta} → some m ≡ some m' → m ≡ m'
  some-injective e = cc

  Triple-fact :
      {A : Type 0} (F : Type 0) (m : Exec A)
      → Keeps (λ _. Unit {0}) m
      → {before : Db} → Triple (λ db. Same before db × F) m (λ _ _. F)
  Triple-fact F m k = record { post = λ c a (same, f) done. f }

  Triple-stamp_with : (F : Type 0) → Triple (λ _. F) stamp (λ _ db. F × Current db)
  Triple-stamp_with F = record { post = λ c a f done. (f, Triple-stamp.post c a tt done) }

  Triple-step :
      (before : Db) (files : List File) (m : Meta)
      → (m.contract_version ≡ contract_version) × (m.revision ≤ revision)
      → Triple
          (λ db. Same before db × (some m ≡ meta_of before))
          (if ltb m.revision revision then step_up p files m.revision else pure tt)
          (λ _ db. Current db × (meta_of before ≡ some current_meta → before ≡ db))
  Triple-step before files m accepted =
      Triple-if (ltb m.revision revision) _ _
        (λ below. record {
          post = λ c a (same, e) done. (
            (Triple-step_up files m.revision).post c a tt done,
            λ there.
                let level : m.revision ≡ revision = ap revision_of (e ∙ there) in
                absurd (ground arith),
          );
        })
        λ level. Triple-pure tt λ db (same, e). (
          sym (ap meta_of same)
              ∙ sym e
              ∙ ap some (at_revision m accepted.0 (ground (arith, accepted.1))),
          λ _. same,
        )

  -- What `migrate_from` leaves when the row that was read is the database's.
  Triple-migrate_from :
      (before : Db) (files : List File) (row : Option Meta)
      → Triple
          (λ db. Same before db × (row ≡ meta_of before))
          (migrate_from p files row)
          (λ n db. Migration before n db)
  unfolding migrate_from
  Triple-migrate_from before files none =
      Triple-bind {R = λ _ db. none ≡ meta_of before} _ _
        (Triple-fact (none ≡ meta_of before) (run_files p files) (run_files-Keeps files))
        λ _.
          Triple-bind {R = λ _ db. (none ≡ meta_of before) × Current db} _ _ (Triple-stamp_with _)
            λ _. Triple-pure 0 λ db (e, current). record {
              current = current;
              started = ap revision_of e;
              accepted = λ m there. absurd (cc);
              idle = λ there. absurd (cc);
            }
  Triple-migrate_from before files (some m) =
      Triple-bind
        {R = λ _ db.
          ((m.contract_version ≡ contract_version) × (m.revision ≤ revision))
          × (Same before db × (some m ≡ meta_of before))}
        _ _ (Triple-lift (check_migrate p m) (λ u db h s. (check_migrate-accepted m h, s)))
        λ _.
          Triple-bind
            {R = λ _ db.
              ((m.contract_version ≡ contract_version) × (m.revision ≤ revision))
              × (some m ≡ meta_of before)
              × (Current db × (meta_of before ≡ some current_meta → before ≡ db))}
            _ _
            (record {
              post =
                  λ c a (ok_, s) done. (ok_, s.1, (Triple-step before files m ok_).post c a s done);
            })
            λ _. Triple-pure m.revision λ db (ok_, e, (current, idle)). record {
              current = current;
              started = ap revision_of e;
              accepted = λ m' there.
                  subst (λ x. (x.contract_version ≡ contract_version) × (x.revision ≤ revision))
                    (some-injective (e ∙ there)) ok_;
              idle = idle;
            }

  Triple-migrate_body :
      (before : Db) → Triple (λ db. before ≡ db) (migrate_body p) (λ n db. Migration before n db)
  unfolding migrate_body
  Triple-migrate_body before =
      Triple-bind {R = λ row db. Same before db × (row ≡ meta_of before)} _ _
        (Triple-meta_row before)
        λ row.
          Triple-bind {R = λ _ db. Same before db × (row ≡ meta_of before)} _ _
            Keeps-current_dialect.kept
            λ dialect.
              Triple-bind {R = λ _ db. Same before db × (row ≡ meta_of before)} _ _
                (Keeps-lift _).kept λ files. Triple-migrate_from before files row

  -- When `migrate` returns, the transaction is closed, the database is stamped with the package's
  -- version and revision, the result is the revision that it was at (0 without a stamp), which was
  -- of the package's version and no newer than its revision, and a database that was current is as
  -- it was. When `migrate` raises, the database is as it was. Both hold whatever the SQL files do
  -- and wherever the driver raises.
  pub migrate-Outcome :
      (c : Conn)
      → Outcome (λ n db. Migration c.committed n db) c.committed (migrate p c).0 (migrate p c).1
  unfolding migrate
  migrate-Outcome c =
      transact-Outcome {P = λ db. c.committed ≡ db} migrate_label c migrate_body-Keeps.quiet
        (Triple-migrate_body c.committed) refl
