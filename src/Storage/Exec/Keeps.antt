-- ===== src/Storage/Exec/Keeps.antt =====
-- Actions of store.py that are quiet and keep a property of what the transaction sees.
use traust_contracts.Base.{
  ◌≡◌, refl, Bool, true, false, Text, List, Result, Error, ok, if◌then◌else◌,
}
use traust_contracts.Storage.Db.{Db}
use traust_contracts.Storage.Exec.Defs.{
  Exec, pure, raise, lift, ◌>>=◌, now, statement, query, for_each, labelled, Dialect, sqlite,
  postgres, in_dialect, on_postgres, current_dialect,
}
use traust_contracts.Storage.Exec.Frame.{
  Quiet, Quiet-pure, Quiet-raise, Quiet-lift, Quiet-query, Quiet-labelled, Quiet-now,
  Quiet-statement, Quiet-bind, Quiet-for_each,
}
use traust_contracts.Storage.Exec.Triples.{
  Triple, Triple-pure, Triple-raise, Triple-lift, Triple-query, Triple-labelled, Triple-now,
  Triple-statement, Triple-bind, Triple-for_each,
}

pub record Keeps {A : Type 0} (P : Db → Type 0) (m : Exec A) : Type 0 where
  pub quiet : Quiet m
  pub kept : Triple P m (λ _. P)

module _ {P : Db → Type 0} {A : Type 0} where
  pub Keeps-pure : (a : A) → Keeps P (pure a)
  Keeps-pure a = record { quiet = Quiet-pure a; kept = Triple-pure a (λ db p. p) }

  pub Keeps-raise : (e : Error) → Keeps P (raise {A = A} e)
  Keeps-raise e = record { quiet = Quiet-raise e; kept = Triple-raise e }

  pub Keeps-lift : (r : Result A) → Keeps P (lift r)
  Keeps-lift r = record { quiet = Quiet-lift r; kept = Triple-lift r (λ a db e p. p) }

  pub Keeps-query : (read : Db → A) → Keeps P (query read)
  Keeps-query read = record { quiet = Quiet-query read; kept = Triple-query read (λ db p. p) }

  pub Keeps-labelled : (label : Text) (m : Exec A) → Keeps P m → Keeps P (labelled label m)
  Keeps-labelled label m k = record {
    quiet = Quiet-labelled label m k.quiet;
    kept = Triple-labelled label m k.kept;
  }

  pub Keeps-if : (b : Bool) (m n : Exec A) → Keeps P m → Keeps P n → Keeps P (if b then m else n)
  Keeps-if true m n km kn = km
  Keeps-if false m n km kn = kn

  pub Keeps-for_each :
      (xs : List A) (body : A → Exec (Unit {0}))
      → ((x : A) → Keeps P (body x))
      → Keeps P (for_each xs body)
  Keeps-for_each xs body k = record {
    quiet = Quiet-for_each xs body (λ x. (k x).quiet);
    kept = Triple-for_each xs body (λ x. (k x).kept);
  }

module _ {P : Db → Type 0} where
  pub Keeps-now : Keeps P now
  Keeps-now = record { quiet = Quiet-now; kept = Triple-now }

  pub Keeps-statement :
      (run : Db → Result Db)
      → ((db db' : Db) → P db → run db ≡ ok db' → P db')
      → Keeps P (statement run)
  Keeps-statement run h = record { quiet = Quiet-statement run; kept = Triple-statement run h }

module _ {P : Db → Type 0} {A B : Type 0} where
  pub Keeps-bind :
      (m : Exec A) (f : A → Exec B) → Keeps P m → ((a : A) → Keeps P (f a)) → Keeps P (m >>= f)
  Keeps-bind m f km kf = record {
    quiet = Quiet-bind m f km.quiet (λ a. (kf a).quiet);
    kept = Triple-bind {R = λ _. P} m f km.kept (λ a. (kf a).kept);
  }

pub Keeps-current_dialect : {P : Db → Type 0} → Keeps P current_dialect
unfolding current_dialect
Keeps-current_dialect = record {
  quiet = record { committed = λ c. refl; active = λ c. refl };
  kept = record { post = λ c a p e. p };
}

module _ {P : Db → Type 0} (m : Exec (Unit {0})) (k : Keeps P m) where
  Keeps-in_dialect : (d : Dialect) → Keeps P (in_dialect d m)
  unfolding in_dialect
  Keeps-in_dialect sqlite = record {
    quiet = record { committed = λ c. refl; active = λ c. refl };
    kept = record { post = λ c a p e. p };
  }
  Keeps-in_dialect postgres = record {
    quiet = record { committed = k.quiet.committed; active = k.quiet.active };
    kept = record { post = k.kept.post };
  }

  pub Keeps-on_postgres : Keeps P (on_postgres m)
  unfolding on_postgres
  Keeps-on_postgres = record {
    quiet = record {
      committed = λ c. (Keeps-in_dialect c.dialect).quiet.committed c;
      active = λ c. (Keeps-in_dialect c.dialect).quiet.active c;
    };
    kept = record { post = λ c a p e. (Keeps-in_dialect c.dialect).kept.post c a p e };
  }

pub ruleset keeps_rules = (
  Keeps-pure, Keeps-raise, Keeps-lift, Keeps-query, Keeps-labelled, Keeps-if, Keeps-for_each,
  Keeps-now, Keeps-bind, Keeps-on_postgres, Keeps-current_dialect,
)
