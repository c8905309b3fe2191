-- ===== src/Tests/Migrations.antt =====
-- `init` and `migrate` of v1/storage/store.py on a database that is a revision behind.
use traust_contracts.Base.{codes, true, false, [], ◌∷◌, some, ok, any, ◌==◌}
use traust_contracts.Storage.Db.{empty}
use traust_contracts.Storage.Exec.{Conn, sqlite}
use traust_contracts.Storage.Exec.Atomic.{Outcome}
use traust_contracts.Storage.Sql.{first_tables, contract_version}
use traust_contracts.Storage.Store.Bootstrap.{Package, meta_table, init, migrate}
use traust_contracts.Storage.Store.Migrated.{Initialized, Migration, init-Outcome, migrate-Outcome}

-- Every file is one statement, and every statement creates the stamp's table.
abbrev bundle : Package
unfolding codes
bundle = record {
  listing = λ dialect. record {
    namespace_present = true;
    schema_files = first_tables;
    view_files = [];
    migration_names = codes "005_to_006.sql" ∷ [];
  };
  text = λ dialect file. codes "S;";
  complete = any (λ c. c == 59);
  execute = λ sql db. ok (record db { objects = meta_table ∷ db.objects });
  view_names = λ dialect. ok (codes "v" ∷ []);
}

abbrev behind : Conn
behind = record {
  dialect = sqlite;
  committed = record empty {
    meta = some (record { contract_version = contract_version; revision = 5 });
    objects = meta_table ∷ [];
  };
  work = empty;
  active = false;
  faults = [];
  clock = 5;
}

init-Outcome_example :
    Outcome
      (λ _ db. Initialized bundle behind.committed db)
      behind.committed
      (init bundle behind).0
      (init bundle behind).1
init-Outcome_example = init-Outcome bundle behind

migrate-Outcome_example :
    Outcome
      (λ n db. Migration bundle behind.committed n db)
      behind.committed
      (migrate bundle behind).0
      (migrate bundle behind).1
migrate-Outcome_example = migrate-Outcome bundle behind
