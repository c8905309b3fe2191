-- ===== src/Tests/Ledger.antt =====
-- src/traust_contracts/v1/ledger/sql.py on a listing of the ledger's tables.
use traust_contracts.Base.{
  ◌≡◌, ◌↔◌, refl, Text, codes, elem, true, false, [], ◌∷◌, ◌++◌, map, ok, err, message, sorted,
}
use traust_contracts.Storage.Exec.{sqlite}
use traust_contracts.Storage.Sql.{
  Listing, schema, views, namespace, namespace_absent, in_folder, order_files, absent, remaining,
  present_of,
}
use traust_contracts.Ledger.{table_order, ledger_files, ledger_files-exact}

abbrev ledger : Listing
ledger = record {
  namespace_present = true;
  schema_files = table_order;
  view_files = [];
  migration_names = [];
}

-- One table is missing.
abbrev partial : Listing
unfolding codes
partial = record ledger { schema_files = map codes ("layers.sql" ∷ "events.sql" ∷ []) }

returned : ledger_files ledger sqlite ≡ ok (in_folder schema table_order)
unfolding ledger_files order_files absent remaining present_of namespace sorted
returned = refl

refused : ledger_files partial sqlite ≡ err (message (codes "missing SQL contract"))
unfolding codes ledger_files order_files absent
refused = refl

ledger_files-exact_example : (ledger_files ledger sqlite ≡ ok (in_folder schema table_order)) ↔ (
    ((t : Text) → elem t ledger.schema_files ≡ elem t table_order)
    × (namespace_absent sqlite ledger.namespace_present ≡ false)
    × (in_folder schema table_order
        ≡ namespace sqlite
          ++ in_folder schema table_order
          ++ in_folder views (sorted (remaining [] ledger.view_files))))
ledger_files-exact_example = ledger_files-exact ledger sqlite (in_folder schema table_order)
