-- ===== src/Storage/Store/Registered.antt =====
-- The ids that the registry of v1/storage/store.py hands out.
use traust_contracts.Base.{
  ℕ, ◌≡◌, refl, sym, ◌∙◌, subst, Text, String, option_text_eq_iff, option_text_eq_refl, str_eq,
  str_eq_iff, str_eq_refl, true, false, ◌&&◌, List, [], ◌∷◌, Option, none, some, ok, arith,
  Bool-cases, inl, inr,
}
use traust_contracts.Storage.Db.{
  Db, Entry, upsert_entry, entry_id, value_of, agree, natural_key, same_entry, refresh, accepted,
}
use traust_contracts.Storage.Exec.{Conn, lift, ◌>>=◌, continue}
use traust_contracts.Storage.Exec.Total.{
  Total, Completed, Total-query, Total-now, Total-statement, Total-bind, transact-Completed,
}
use traust_contracts.Storage.Store.Registry.{write_body, write, read_back, register, register_label}

agree_refl : (names : List String) (xs : List (String × Option Text)) → agree names xs xs ≡ true
unfolding agree
agree_refl [] xs = refl
agree_refl (n ∷ names) xs = ground (arith, agree_refl names xs, option_text_eq_refl (value_of n xs))

agree_same :
    (names : List String) (xs ys zs : List (String × Option Text))
    → agree names ys zs ≡ true
    → agree names xs ys ≡ agree names xs zs
unfolding agree
agree_same [] xs ys zs h = refl
agree_same (n ∷ names) xs ys zs h = ground (
  arith,
  agree_same names xs ys zs,
  option_text_eq_iff (value_of n xs) (value_of n ys),
  option_text_eq_iff (value_of n ys) (value_of n zs),
  option_text_eq_iff (value_of n xs) (value_of n zs),
)

-- A row and the values that refresh it match the same keys.
pub same_entry-matches :
    (table : String) (values : List (String × Option Text)) (e f : Entry)
    → same_entry e f ≡ true
    → (str_eq table f.table && agree (natural_key table) values e.values)
      ≡ (str_eq table f.table && agree (natural_key table) values f.values)
unfolding same_entry
same_entry-matches table values e f h = elim (Bool-cases (str_eq table f.table)) [
  | inr other ↦ rw other refl
  | inl this ↦
      let e1 : e.table ≡ f.table = (str_eq_iff e.table f.table).0 (ground arith) in
      let e2 : table ≡ f.table = (str_eq_iff table f.table).0 this in
      let e3 : e.table ≡ table = e1 ∙ sym e2 in
      let k : agree (natural_key table) e.values f.values ≡ true =
        subst (λ t. agree (natural_key t) e.values f.values ≡ true) e3 (ground arith) in
      rw this (agree_same (natural_key table) values e.values f.values k)
]

-- The id of a key's row, or else the new one.
abbrev pub known_or : Text → Option Text → Text
known_or new none = new
known_or new (some old) = old

pub entry_id-refresh :
    (e : Entry) (entries : List Entry)
    → entry_id e.table e.values (refresh e entries)
      ≡ some (known_or e.id (entry_id e.table e.values entries))
unfolding entry_id refresh same_entry
entry_id-refresh e [] =
    ground (arith, str_eq_refl e.table, agree_refl (natural_key e.table) e.values)
entry_id-refresh e (f ∷ fs) =
    ground
      (arith, str_eq_refl e.table, agree_refl (natural_key e.table) e.values, entry_id-refresh e fs)

pub entry_id-stable :
    (table : String) (values : List (String × Option Text)) (id : Text) (e : Entry)
    (entries : List Entry)
    → entry_id table values entries ≡ some id
    → entry_id table values (refresh e entries) ≡ some id
unfolding entry_id refresh
entry_id-stable table values id e [] h = cc
entry_id-stable table values id e (f ∷ fs) h = elim (Bool-cases (same_entry e f)) [
  | inl same ↦ ground (arith, same_entry-matches table values e f same)
  | inr other ↦ ground (arith, entry_id-stable table values id e fs)
]

-- What one registration leaves: a database that is valid if it was, the ids that were there, and the
-- key's own id, which is new only where the key had none.
pub record Registration (table : String) (uuid : Text) (values : List (String × Option Text))
    (before : Db) (id : Text) (db : Db) : Type 0 where
  pub chosen : id ≡ known_or uuid (entry_id table values before.registry)
  pub found : entry_id table values db.registry ≡ some id
  pub stable :
      (other : String) (key : List (String × Option Text)) (old : Text)
      → entry_id other key before.registry ≡ some old
      → entry_id other key db.registry ≡ some old
  pub untouched :
      (db.bindings ≡ before.bindings)
      × (db.evidence ≡ before.evidence)
      × (db.rows ≡ before.rows)
      × (db.locations ≡ before.locations)

module _ (table : String) (uuid : Text) (values : List (String × Option Text)) (before : Db) where
  -- The row is in the table, and the key's id is known.
  record Upserted (db : Db) : Type 0 where
    here :
        entry_id table values db.registry
        ≡ some (known_or uuid (entry_id table values before.registry))
    kept :
        (other : String) (key : List (String × Option Text)) (old : Text)
        → entry_id other key before.registry ≡ some old
        → entry_id other key db.registry ≡ some old
    same :
        (db.bindings ≡ before.bindings)
        × (db.evidence ≡ before.evidence)
        × (db.rows ≡ before.rows)
        × (db.locations ≡ before.locations)

  abbrev entry_at : ℕ → Entry
  entry_at at = record { table = table; id = uuid; values = values; registered_at = at }

  module _ (known : (at : ℕ) → accepted (entry_at at) before.registry ≡ true) where
    upsert_entry-total :
        (at : ℕ) (db : Db)
        → before ≡ db
        → (db' : Db) × (upsert_entry (entry_at at) db ≡ ok db') × Upserted db'
    unfolding upsert_entry
    upsert_entry-total at db start =
        subst (λ d. (db' : Db) × (upsert_entry (entry_at at) d ≡ ok db') × Upserted db') start
          (
            record before { registry = refresh (entry_at at) before.registry },
            rw (known at) refl,
            record {
              here = entry_id-refresh (entry_at at) before.registry;
              kept =
                  λ other key old h. entry_id-stable other key old (entry_at at) before.registry h;
              same = (refl, refl, refl, refl);
            },
          )

    abbrev chosen_id : Text
    chosen_id = known_or uuid (entry_id table values before.registry)

    Total-read_back :
        Total
          (λ db. Upserted db)
          (read_back true table values)
          (λ stored db. (stored ≡ some chosen_id) × Upserted db)
    unfolding read_back lift
    Total-read_back =
        Total-bind {R = λ row db. (row ≡ some chosen_id) × Upserted db} _ _
          (Total-query _ (λ db u. (u.here, u)))
          λ row. record {
            run = λ c calm (e, u). rw e (record {
              value = some chosen_id;
              returned = refl;
              faultless = calm;
              post = (refl, u);
            });
          }

    Total-write_body :
        Total
          (λ db. before ≡ db)
          (write_body table uuid values true)
          (λ stored db. (stored ≡ some chosen_id) × Upserted db)
    unfolding write_body
    Total-write_body = Total-bind {R = λ _ db. before ≡ db} _ _ Total-now λ at.
        Total-bind {R = λ _ db. Upserted db} _ _
          (Total-statement _ (λ db start. upsert_entry-total at db start)) λ _. Total-read_back

-- Registering a row that the constraints of its table accept, its parents registered, on an idle connection whose driver raises at no
-- statement, returns the id that its key has, or the fresh id where the key has none; every id
-- that was registered stays its key's.
pub register-Registration :
    (table : String) (uuid : Text) (values : List (String × Option Text)) (c : Conn)
    → c.active ≡ false
    → c.faults ≡ []
    → ((at : ℕ)
        → accepted
            (record { table = table; id = uuid; values = values; registered_at = at })
            c.committed.registry
          ≡ true)
    → Completed
        (Registration table uuid values c.committed)
        (register table uuid values c).0
        (register table uuid values c).1
unfolding register ◌>>=◌ lift continue write
register-Registration table uuid values c ready calm known =
    let w =
      transact-Completed (register_label table) c ready calm refl
        (Total-write_body table uuid values c.committed known) in
    rw (w.returned, w.post.0)
      (record {
        value = known_or uuid (entry_id table values c.committed.registry);
        returned = refl;
        closed = w.closed;
        faultless = w.faultless;
        post = record {
          chosen = refl;
          found = w.post.1.here;
          stable = w.post.1.kept;
          untouched = w.post.1.same;
        };
      })
