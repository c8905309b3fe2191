-- ===== src/Storage/Store/Bootstrap.antt =====
-- `init` and `migrate` of v1/storage/store.py. What is packaged with the code is an argument: the
-- listing and the texts of the SQL files, what executing a statement does, and the names of the views.
use traust_contracts.Base.{
  ℕ, ltb, ◌==◌, Text, codes, text_eq, elem, Bool, true, false, not, ◌||◌, List, [], ◌∷◌, ◌++◌,
  Option, none, some, if◌then◌else◌, Result, ok, err, message, driver_error,
}
use traust_contracts.Storage.Db.{Db, Meta}
use traust_contracts.Storage.Exec.{
  Dialect, sqlite, postgres, Exec, pure, lift, ◌>>=◌, ◌>>◌, now, statement, query, for_each,
  transact, current_dialect, on_postgres,
}
use traust_contracts.Storage.Sql.{
  Listing, File, Folder, root, schema, views, migrations, bootstrap_files, migration_files,
  contract_version, revision,
}
use traust_contracts.Storage.Sql.Statements.{bootstrap_statements}

pub record Package : Type 0 where
  pub listing : Dialect → Listing
  pub text : Dialect → File → Text
  pub complete : Text → Bool
  pub execute : Text → Db → Result Db
  pub view_names : Dialect → Result (List Text)

abbrev pub meta_table : Text
meta_table = codes "traust_storage_meta"

-- The row of traust_storage_meta, where the table exists.
unfoldable pub meta_of : Db → Option Meta
unfolding codes elem
meta_of db = if elem meta_table db.objects then db.meta else none

unfoldable pub read_meta : Bool → Exec (Option Meta)
read_meta true = query (λ db. db.meta)
read_meta false = pure none

-- `_meta_row`
unfoldable pub meta_row : Exec (Option Meta)
unfolding codes elem
meta_row = do
  on_postgres (query (λ _. tt))
  exists_ ← query (λ db. elem meta_table db.objects)
  read_meta exists_

abbrev pub current_meta : Meta
current_meta = record { contract_version = contract_version; revision = revision }

-- traust_storage_meta.upsert.sql
unfoldable pub put_meta : Meta → Db → Result Db
unfolding codes elem
put_meta m db =
    if elem meta_table db.objects then ok (record db { meta = some m }) else err driver_error

-- `_stamp`
unfoldable pub stamp : Exec (Unit {0})
stamp = do now; statement (put_meta current_meta)

abbrev pub init_label : Text
init_label = codes "storage init"

abbrev pub migrate_label : Text
migrate_label = codes "storage migrate"

abbrev reversed : List Text → List Text → List Text
reversed [] done = done
reversed (x ∷ xs) done = reversed xs (x ∷ done)

module _ (p : Package) where
  -- `_run_file`
  unfoldable pub run_file : File → Exec (Unit {0})
  run_file file = do
    dialect ← current_dialect
    for_each (bootstrap_statements p.complete dialect (p.text dialect file)).0
        λ sql. statement (p.execute sql)
    lift (bootstrap_statements p.complete dialect (p.text dialect file)).1

  unfoldable pub run_files : List File → Exec (Unit {0})
  run_files files = for_each files run_file

  -- The check of `init` on the row that it read.
  unfoldable pub check_init : Option Meta → Result (Unit {0})
  unfolding codes
  check_init none = ok tt
  check_init (some m) =
      if not (text_eq m.contract_version contract_version) || not (m.revision == revision)
      then err (message (codes "explicit migration required"))
      else ok tt

  unfoldable pub create : Option Meta → Exec (Unit {0})
  create (some m) = pure tt
  create none = do
    dialect ← current_dialect
    files ← lift (bootstrap_files (p.listing dialect) dialect)
    run_files files
    stamp

  unfoldable pub init_body : Exec (Unit {0})
  init_body = do row ← meta_row; lift (check_init row); create row

  -- `init`
  unfoldable pub init : Exec (Unit {0})
  unfolding codes
  init = transact init_label init_body

  -- `_drop_view_sql`
  unfoldable pub drop_view_sql : Dialect → Text → Text
  unfolding codes
  drop_view_sql sqlite name = codes "DROP VIEW IF EXISTS " ++ name
  drop_view_sql postgres name = codes "DROP VIEW IF EXISTS " ++ name ++ codes " CASCADE"

  is_schema : Folder → Bool
  is_schema root = false
  is_schema schema = true
  is_schema views = false
  is_schema migrations = false

  -- The table that a file of the schema folder is named for.
  stem : Text → Text
  stem [] = []
  stem (c ∷ s) = let rest = stem s in if c == 46 then [] else c ∷ rest

  unfoldable pub unless_there : File → Bool → Exec (Unit {0})
  unless_there file true = pure tt
  unless_there file false = run_file file

  -- `_table_exists`
  unfoldable pub table_exists : Text → Exec Bool
  unfolding elem
  table_exists name = query (λ db. elem name db.objects)

  unfoldable pub create_missing : File → Exec (Unit {0})
  unfolding stem unless_there is_schema
  create_missing file =
      if is_schema file.folder then table_exists (stem file.name) >>= unless_there file else pure tt

  -- The steps of `migrate` below the package's revision.
  unfoldable pub step_up : List File → ℕ → Exec (Unit {0})
  step_up files from_revision = do
    dialect ← current_dialect
    deltas ← lift (migration_files (p.listing dialect) from_revision)
    names ← lift (p.view_names dialect)
    for_each (reversed names []) λ name. statement (p.execute (drop_view_sql dialect name))
    for_each files create_missing
    for_each deltas run_file
    run_files files
    stamp

  unfoldable pub check_migrate : Meta → Result (Unit {0})
  unfolding codes
  check_migrate m =
      if not (text_eq m.contract_version contract_version)
      then err (message (codes "database storage version"))
      else if ltb revision m.revision
      then err (message (codes "database revision is newer"))
      else ok tt

  unfoldable pub migrate_from : List File → Option Meta → Exec ℕ
  migrate_from files none = do run_files files; stamp; pure 0
  migrate_from files (some m) = do
    lift (check_migrate m)
    (if ltb m.revision revision then step_up files m.revision else pure tt)
    pure m.revision

  unfoldable pub migrate_body : Exec ℕ
  migrate_body = do
    row ← meta_row
    dialect ← current_dialect
    files ← lift (bootstrap_files (p.listing dialect) dialect)
    migrate_from files row

  -- `migrate`
  unfoldable pub migrate : Exec ℕ
  unfolding codes
  migrate = transact migrate_label migrate_body
