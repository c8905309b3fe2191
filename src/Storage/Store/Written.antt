-- ===== src/Storage/Store/Written.antt =====
-- A registration of v1/storage/store.py, wherever the driver raises.
use traust_contracts.Base.{◌≡◌, sym, subst, Text, String, Bool, true, false, List, Option, arith, ℕ}
use traust_contracts.Storage.Db.{Db, Entry, accepted, upsert_entry, refresh}
use traust_contracts.Storage.Exec.{Conn, statement}
use traust_contracts.Storage.Exec.Keeps.{Keeps, keeps_rules, Keeps-statement}
use traust_contracts.Storage.Exec.Atomic.{Outcome, transact-Outcome}
use traust_contracts.Storage.Store.Registry.{write_body, write, read_back, register_label}
use traust_contracts.Storage.Store.Valid.{IsValid, IsValid-registry}
use traust_contracts.Storage.Store.Keyed.{Keyed, Keyed-refresh}

-- The tables of artifacts are valid, and so is the registry, with the ids of `before`.
pub record Written (sha256 : List ℕ → Text) (before : List Entry) (db : Db) : Type 0 where
  pub artifacts : IsValid sha256 db
  pub registry : Keyed before db.registry

module _ (sha256 : List ℕ → Text) (before : List Entry) where
  Keeps-upsert_entry :
      (e : Entry) → Keeps (λ db. Written sha256 before db) (statement (upsert_entry e))
  unfolding upsert_entry
  Keeps-upsert_entry e = Keeps-statement (upsert_entry e) λ db db' valid h.
      let fits : accepted e db.registry ≡ true = ground arith in
      let stored : db' ≡ record db { registry = refresh e db.registry } = ground arith in
      subst (λ d. Written sha256 before d) (sym stored)
        (record {
          artifacts = IsValid-registry sha256 db (refresh e db.registry) valid.artifacts;
          registry = Keyed-refresh before db.registry e fits valid.registry;
        })

  Keeps-write_body :
      (table : String) (uuid : Text) (values : List (String × Option Text)) (keyed : Bool)
      → Keeps (λ db. Written sha256 before db) (write_body table uuid values keyed)
  unfolding write_body read_back
  Keeps-write_body table uuid values true = search (keeps_rules, Keeps-upsert_entry) depth 8
  Keeps-write_body table uuid values false = search (keeps_rules, Keeps-upsert_entry) depth 8

-- A registration, whatever the driver does, leaves the registry as it was when it raises, and else
-- with its constraints: the NOT NULL columns, the foreign keys, and one row for each key; every key
-- that had an id before has it after. It keeps the tables of artifacts valid, too.
pub write-Outcome :
    (sha256 : List ℕ → Text) (table : String) (uuid : Text) (values : List (String × Option Text))
    (keyed : Bool) (c : Conn)
    → Written sha256 c.committed.registry c.committed
    → Outcome
        (λ _ db. Written sha256 c.committed.registry db)
        c.committed
        (write table uuid values keyed c).0
        (write table uuid values keyed c).1
unfolding write
write-Outcome sha256 table uuid values keyed c valid =
    let k = Keeps-write_body sha256 c.committed.registry table uuid values keyed in
    transact-Outcome (register_label table) c k.quiet k.kept valid
