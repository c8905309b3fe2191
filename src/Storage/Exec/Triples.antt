-- ===== src/Storage/Exec/Triples.antt =====
-- Contracts of actions inside a transaction of store.py, by what the transaction sees.
use traust_contracts.Base.{
  ◌≡◌, refl, sym, Bool, true, false, Text, List, [], ◌∷◌, Result, Error, ok, err, arith,
  if◌then◌else◌, driver_error,
}
use traust_contracts.Storage.Db.{Db}
use traust_contracts.Storage.Exec.Defs.{
  Conn, Exec, pure, raise, lift, continue, ◌>>=◌, now, statement, query, for_each, labelled,
  relabel, store_work,
}

-- From a transaction that sees `P`, an `m` that returns `a` leaves one that sees `Q a`.
pub record Triple {A : Type 0} (P : Db → Type 0) (m : Exec A) (Q : A → Db → Type 0) : Type 0 where
  pub post : (c : Conn) (a : A) → P c.work → (m c).0 ≡ ok a → Q a (m c).1.work

ok-injective : {A : Type 0} {a b : A} → ok a ≡ ok b → a ≡ b
ok-injective e = cc

relabel-ok : {A : Type 0} (label : Text) (r : Result A) (a : A) → relabel label r ≡ ok a → r ≡ ok a
relabel-ok label (ok b) a h = h
relabel-ok label (err e) a h = cc

-- A statement that returned has stored what its run gave.
statement_stores :
    (Q : Unit {0} → Db → Type 0) (fault : Bool) (r : Result Db) (c : Conn) (a : Unit {0})
    → ((db : Db) → r ≡ ok db → Q tt db)
    → (if fault then (err driver_error, c) else store_work r c).0 ≡ ok a
    → Q a (if fault then (err driver_error, c) else store_work r c).1.work
statement_stores Q true r c a h e = absurd (cc)
statement_stores Q false (err x) c a h e = absurd (cc)
statement_stores Q false (ok db) c tt h e = h db refl

module _ {A : Type 0} {P : Db → Type 0} {Q : A → Db → Type 0} where
  pub Triple-pure : (a : A) → ((db : Db) → P db → Q a db) → Triple P (pure a) Q
  unfolding pure
  Triple-pure a h = record { post = λ c b p e. rw (sym (ok-injective e)) (h c.work p) }

  pub Triple-raise : (e : Error) → Triple P (raise e) Q
  unfolding raise
  Triple-raise e = record { post = λ c b p h. absurd (cc) }

  pub Triple-lift :
      (r : Result A) → ((a : A) (db : Db) → r ≡ ok a → P db → Q a db) → Triple P (lift r) Q
  unfolding lift
  Triple-lift r h = record { post = λ c a p e. h a c.work e p }

  pub Triple-query : (read : Db → A) → ((db : Db) → P db → Q (read db) db) → Triple P (query read) Q
  unfolding query
  Triple-query read h = record { post = λ c a p e. ground (arith, h c.work p) }

  pub Triple-labelled : (label : Text) (m : Exec A) → Triple P m Q → Triple P (labelled label m) Q
  unfolding labelled
  Triple-labelled label m t = record {
    post = λ c a p e. t.post c a p (relabel-ok label (m c).0 a e);
  }

  pub Triple-if :
      (b : Bool) (m n : Exec A)
      → (b ≡ true → Triple P m Q)
      → (b ≡ false → Triple P n Q)
      → Triple P (if b then m else n) Q
  Triple-if true m n tm tn = tm refl
  Triple-if false m n tm tn = tn refl

module _ {P : Db → Type 0} where
  pub Triple-now : Triple P now (λ _ db. P db)
  unfolding now
  Triple-now = record { post = λ c a p e. p }

  pub Triple-statement :
      {Q : Unit {0} → Db → Type 0} (run : Db → Result Db)
      → ((db db' : Db) → P db → run db ≡ ok db' → Q tt db')
      → Triple P (statement run) Q
  unfolding statement
  Triple-statement {Q} run h = record {
    post = λ c a p e. statement_stores Q _ _ _ a (λ db r. h c.work db p r) e;
  }

module _ {A B : Type 0} {R : A → Db → Type 0} {Q : B → Db → Type 0} where
  continue-post :
      (r : Result A) (f : A → Exec B) (c : Conn) (b : B)
      → ((a : A) → r ≡ ok a → R a c.work)
      → ((a : A) → Triple (R a) (f a) Q)
      → (continue r f c).0 ≡ ok b
      → Q b (continue r f c).1.work
  unfolding continue
  continue-post (ok a) f c b hr tf e = (tf a).post c b (hr a refl) e
  continue-post (err x) f c b hr tf e = absurd (cc)

module _ {A B : Type 0} {P : Db → Type 0} {R : A → Db → Type 0} {Q : B → Db → Type 0} where
  pub Triple-bind :
      (m : Exec A) (f : A → Exec B)
      → Triple P m R
      → ((a : A) → Triple (R a) (f a) Q)
      → Triple P (m >>= f) Q
  unfolding ◌>>=◌
  Triple-bind m f tm tf = record {
    post = λ c b p e. continue-post (m c).0 f (m c).1 b (λ a h. tm.post c a p h) tf e;
  }

module _ {A : Type 0} {P : Db → Type 0} where
  pub Triple-for_each :
      (xs : List A) (body : A → Exec (Unit {0}))
      → ((x : A) → Triple P (body x) (λ _. P))
      → Triple P (for_each xs body) (λ _. P)
  unfolding for_each
  Triple-for_each [] body t = record { post = λ c a p e. p }
  Triple-for_each (x ∷ xs) body t =
      let rest =
        Triple-bind {R = λ _. P} (body x) (λ _. for_each xs body) (t x)
          (λ _. Triple-for_each xs body t) in
      record { post = rest.post }
