-- ===== src/Tests/Registry.antt =====
-- The registry of v1/storage/store.py on a product that is registered twice.
use traust_contracts.Base.{
  ℕ, ◌≡◌, refl, Text, String, codes, true, false, List, [], ◌∷◌, Option, none, some,
}
use traust_contracts.Storage.Db.{Entry, empty, parents_known, columns_valid, accepted}
use traust_contracts.Storage.Exec.{Conn, sqlite}
use traust_contracts.Storage.Exec.Total.{Completed}
use traust_contracts.Storage.Exec.Atomic.{Outcome}
use traust_contracts.Storage.Store.{IsValid-registry, IsValid-empty}
use traust_contracts.Storage.Store.Registry.{write, register}
use traust_contracts.Storage.Store.Registered.{Registration, register-Registration}
use traust_contracts.Storage.Store.Keyed.{Constrained, keys_once}
use traust_contracts.Storage.Store.Written.{Written, write-Outcome}

abbrev values : List (String × Option Text)
unfolding codes
values = ("slug", some (codes "p")) ∷ ("segment", none) ∷ []

abbrev other_values : List (String × Option Text)
unfolding codes
other_values = ("slug", some (codes "q")) ∷ ("segment", none) ∷ []

abbrev known : Entry
unfolding codes
known = record { table = "product"; id = codes "old"; values = values; registered_at = 1 }

abbrev conn : Conn
conn = record {
  dialect = sqlite;
  committed = record empty { registry = known ∷ [] };
  work = empty;
  active = false;
  faults = [];
  clock = 5;
}

register-Registration_example :
    Completed
      (Registration "product" (codes "new") values conn.committed)
      (register "product" (codes "new") values conn).0
      (register "product" (codes "new") values conn).1
unfolding accepted values traust_contracts.Storage.Db.agree traust_contracts.Storage.Db.natural_key
    traust_contracts.Base.option_text_eq traust_contracts.Base.text_eq
register-Registration_example =
    register-Registration "product" (codes "new") values conn refl refl (λ at. refl)

-- The driver raises at the third statement.
abbrev faulty_conn : Conn
faulty_conn = record conn { faults = false ∷ false ∷ true ∷ [] }

abbrev hash : List ℕ → Text
hash bytes = bytes

known-Constrained : Constrained (known ∷ []) known
unfolding columns_valid parents_known known
known-Constrained = record { columns = refl; parents = refl }

start-Written : Written hash conn.committed.registry conn.committed
unfolding keys_once
start-Written = record {
  artifacts = IsValid-registry hash empty (known ∷ []) (IsValid-empty hash);
  registry = record { rows = (known-Constrained, tt); once = refl; stable = λ table key id h. h };
}

-- The id of a new row is taken.
taken : (register "product" (codes "old") other_values conn).1.committed ≡ conn.committed
unfolding codes register traust_contracts.Storage.Exec.◌>>=◌ write
    traust_contracts.Storage.Exec.transact traust_contracts.Storage.Exec.idle
    traust_contracts.Storage.Exec.begin traust_contracts.Storage.Store.Registry.write_body
    traust_contracts.Storage.Exec.now traust_contracts.Storage.Exec.statement
    traust_contracts.Storage.Db.upsert_entry traust_contracts.Storage.Db.agree
    traust_contracts.Storage.Db.natural_key traust_contracts.Base.option_text_eq
    traust_contracts.Base.text_eq
taken = refl

write-Outcome_example :
    Outcome
      (λ _ db. Written hash faulty_conn.committed.registry db)
      faulty_conn.committed
      (write "product" (codes "new") values true faulty_conn).0
      (write "product" (codes "new") values true faulty_conn).1
write-Outcome_example =
    write-Outcome hash "product" (codes "new") values true faulty_conn start-Written
