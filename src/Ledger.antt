-- ===== src/Ledger.antt =====
-- src/traust_contracts/v1/ledger/sql.py: the ledger's table inventory and its migrations.
use traust_contracts.Base.{
  ℕ, ◌-◌, ◌≡◌, ◌↔◌, Text, codes, elem, true, false, List, [], ◌∷◌, ◌++◌, map, sorted, Result, ok,
  err, message, if◌then◌else◌,
}
use traust_contracts.Storage.Exec.{Dialect}
use traust_contracts.Storage.Sql.{
  Listing, File, schema, views, migrations, sql_name, order_files, remaining, present_of, absent,
  namespace, namespace_absent, in_folder, is_empty, range_from, step_name,
}
use traust_contracts.Storage.Sql.Order.{order_files-exact}

-- `TABLE_ORDER`, by the names of the files.
abbrev pub table_order : List Text
unfolding codes
table_order =
    map (λ s. sql_name (codes s))
      ("schema_revision" ∷ "layers" ∷ "events" ∷ "materialized_findings" ∷ [])

-- `REVISION`
abbrev pub ledger_revision : ℕ
ledger_revision = 1

-- `bootstrap_files`
unfoldable pub ledger_files : Listing → Dialect → Result (List File)
ledger_files listing dialect = order_files listing dialect table_order [] true

-- `migration_files`
unfoldable pub ledger_migrations : Listing → ℕ → Result (List File)
unfolding codes
ledger_migrations listing from_revision =
    let names = map step_name (range_from from_revision (ledger_revision - from_revision)) in
    if is_empty (absent names listing.migration_names)
    then ok (in_folder migrations names)
    else err (message (codes "missing ledger migration"))

-- The ledger's `bootstrap_files` returns a list exactly where the directory has the files of the table
-- inventory and no other schema file, and the namespace on PostgreSQL, and the list is the namespace
-- on PostgreSQL, those files in the order of the inventory, and the views.
pub ledger_files-exact :
    (listing : Listing) (dialect : Dialect) (files : List File)
    → (ledger_files listing dialect ≡ ok files) ↔ (
        ((t : Text) → elem t listing.schema_files ≡ elem t table_order)
        × (namespace_absent dialect listing.namespace_present ≡ false)
        × (files
            ≡ namespace dialect
              ++ in_folder schema table_order
              ++ in_folder views (sorted (remaining [] listing.view_files))))
unfolding ledger_files present_of
ledger_files-exact listing dialect files = order_files-exact listing dialect table_order [] files
