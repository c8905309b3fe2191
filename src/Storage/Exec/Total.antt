-- ===== src/Storage/Exec/Total.antt =====
-- Actions of store.py that return when the driver raises at no statement.
use traust_contracts.Base.{
  ◌≡◌, refl, sym, subst, true, false, Text, List, [], ◌∷◌, Result, ok, arith, All,
}
use traust_contracts.Storage.Db.{Db}
use traust_contracts.Storage.Exec.Defs.{
  Dialect, sqlite, postgres, Conn, Exec, pure, lift, continue, ◌>>=◌, now, statement, query,
  for_each, begin, commit, settle, attempt, committing, transact, store_work, in_dialect,
  on_postgres,
}
use traust_contracts.Storage.Exec.Atomic.{idle-ready}

-- The action returned, with `Q` of what the transaction sees.
pub record Ran {A : Type 0} (Q : A → Db → Type 0) (r : Result A) (c : Conn) : Type 0 where
  pub value : A
  pub returned : r ≡ ok value
  pub faultless : c.faults ≡ []
  pub post : Q value c.work

pub record Total {A : Type 0} (P : Db → Type 0) (m : Exec A) (Q : A → Db → Type 0) : Type 0 where
  pub run : (c : Conn) → c.faults ≡ [] → P c.work → Ran Q (m c).0 (m c).1

-- The method returned with its transaction committed.
pub record Completed {A : Type 0} (Q : A → Db → Type 0) (r : Result A) (c : Conn) : Type 0 where
  pub value : A
  pub returned : r ≡ ok value
  pub closed : c.active ≡ false
  pub faultless : c.faults ≡ []
  pub post : Q value c.committed

abbrev calm : Conn → Conn
calm c = record c { faults = [] }

statement-faultless :
    (run : Db → Result Db) (c : Conn)
    → c.faults ≡ []
    → statement run c ≡ store_work (run c.work) (calm c)
unfolding statement
statement-faultless run c none = ground arith

query-faultless :
    {A : Type 0} (read : Db → A) (c : Conn)
    → c.faults ≡ []
    → query read c ≡ (ok (read c.work), calm c)
unfolding query
query-faultless read c none = ground arith

begin-faultless :
    (c : Conn)
    → c.faults ≡ []
    → begin c ≡ (ok tt, record c { faults = []; work = c.committed; active = true })
unfolding begin
begin-faultless c none = ground arith

commit-faultless :
    (c : Conn)
    → c.faults ≡ []
    → commit c ≡ (ok tt, record c { faults = []; committed = c.work; active = false })
unfolding commit
commit-faultless c none = ground arith

module _ {A : Type 0} {P : Db → Type 0} {Q : A → Db → Type 0} where
  pub Total-pure : (a : A) → ((db : Db) → P db → Q a db) → Total P (pure a) Q
  unfolding pure
  Total-pure a h = record {
    run = λ c none p. record { value = a; returned = refl; faultless = none; post = h c.work p };
  }

  pub Total-lift :
      (a : A) (r : Result A) → r ≡ ok a → ((db : Db) → P db → Q a db) → Total P (lift r) Q
  unfolding lift
  Total-lift a r e h = record {
    run = λ c none p. record { value = a; returned = e; faultless = none; post = h c.work p };
  }

  pub Total-query : (read : Db → A) → ((db : Db) → P db → Q (read db) db) → Total P (query read) Q
  Total-query read h = record {
    run = λ c none p.
        rw (query-faultless read c none)
          (record { value = read c.work; returned = refl; faultless = refl; post = h c.work p });
  }

module _ {P : Db → Type 0} where
  pub Total-now : Total P now (λ _ db. P db)
  unfolding now
  Total-now = record {
    run = λ c none p. record { value = c.clock; returned = refl; faultless = none; post = p };
  }

  pub Total-statement :
      {Q : Unit {0} → Db → Type 0} (run : Db → Result Db)
      → ((db : Db) → P db → (db' : Db) × (run db ≡ ok db') × Q tt db')
      → Total P (statement run) Q
  Total-statement {Q} run h = record {
    run = λ c none p.
        let (db', e, q) = h c.work p in
        rw (statement-faultless run c none, e)
          (record { value = tt; returned = refl; faultless = refl; post = q });
  }

module _ {A B : Type 0} {P : Db → Type 0} {R : A → Db → Type 0} {Q : B → Db → Type 0} where
  pub Total-bind :
      (m : Exec A) (f : A → Exec B)
      → Total P m R
      → ((a : A) → Total (R a) (f a) Q)
      → Total P (m >>= f) Q
  unfolding ◌>>=◌ continue
  Total-bind m f tm tf = record {
    run = λ c none p.
        let first = tm.run c none p in
        let second = (tf first.value).run (m c).1 first.faultless first.post in
        subst (λ r. Ran Q (continue r f (m c).1).0 (continue r f (m c).1).1) (sym first.returned)
          second;
  }

module _ {A : Type 0} {P : Db → Type 0} {C : A → Type 0} where
  pub Total-for_each :
      (xs : List A) (body : A → Exec (Unit {0}))
      → All C xs
      → ((x : A) → C x → Total P (body x) (λ _. P))
      → Total P (for_each xs body) (λ _. P)
  unfolding for_each
  Total-for_each [] body h t = record {
    run = λ c none p. record { value = tt; returned = refl; faultless = none; post = p };
  }
  Total-for_each (x ∷ xs) body (h, hs) t =
      let rest =
        Total-bind {R = λ _. P} (body x) (λ _. for_each xs body) (t x h)
          (λ _. Total-for_each xs body hs t) in
      record { run = rest.run }

module _ {P : Db → Type 0} {Q : Unit {0} → Db → Type 0} (m : Exec (Unit {0})) where
  Total-in_dialect :
      Total P m Q → ((db : Db) → P db → Q tt db) → (d : Dialect) → Total P (in_dialect d m) Q
  unfolding in_dialect
  Total-in_dialect t h sqlite = record {
    run = λ c none p. record { value = tt; returned = refl; faultless = none; post = h c.work p };
  }
  Total-in_dialect t h postgres = record { run = t.run }

  pub Total-on_postgres : Total P m Q → ((db : Db) → P db → Q tt db) → Total P (on_postgres m) Q
  unfolding on_postgres
  Total-on_postgres t h = record { run = λ c none p. (Total-in_dialect t h c.dialect).run c none p }

module _ {A : Type 0} {P : Db → Type 0} {Q : A → Db → Type 0} {body : Exec A} where
  committing-Completed :
      (label : Text) (c : Conn)
      → c.faults ≡ []
      → P c.work
      → Total P body Q
      → Completed Q (committing label body c).0 (committing label body c).1
  unfolding committing attempt ◌>>=◌ continue settle pure
  committing-Completed label c none p t =
      let ran = t.run c none p in
      rw (ran.returned, commit-faultless (body c).1 ran.faultless)
        (record {
          value = ran.value;
          returned = refl;
          closed = refl;
          faultless = refl;
          post = ran.post;
        })

  pub begin-Completed :
      (label : Text) (c : Conn)
      → c.faults ≡ []
      → P c.committed
      → Total P body Q
      → Completed Q
          ((begin >>= λ _. committing label body) c).0
          ((begin >>= λ _. committing label body) c).1
  unfolding ◌>>=◌ continue
  begin-Completed label c none p t = rw (begin-faultless c none) (
      committing-Completed label (record c { faults = []; work = c.committed; active = true }) refl
        p t)

  pub transact-Completed :
      (label : Text) (c : Conn)
      → c.active ≡ false
      → c.faults ≡ []
      → P c.committed
      → Total P body Q
      → Completed Q (transact label body c).0 (transact label body c).1
  unfolding transact ◌>>=◌ continue
  transact-Completed label c ready none p t =
      rw (idle-ready c ready) (begin-Completed label c none p t)
