-- ===== src/Storage/Exec/Frame.antt =====
-- Actions inside a transaction of store.py: `Quiet` ones leave the committed database and the
-- transaction's state alone.
use traust_contracts.Base.{
  ◌≡◌, refl, ◌∙◌, Bool, true, false, Text, List, [], ◌∷◌, Result, Error, ok, err, arith,
  if◌then◌else◌,
}
use traust_contracts.Storage.Db.{Db}
use traust_contracts.Storage.Exec.Defs.{
  Conn, Exec, pure, raise, lift, continue, ◌>>=◌, now, statement, query, for_each, labelled,
}

pub record Quiet {A : Type 0} (m : Exec A) : Type 0 where
  pub committed : (c : Conn) → (m c).1.committed ≡ c.committed
  pub active : (c : Conn) → (m c).1.active ≡ c.active

module _ {A : Type 0} where
  pub Quiet-pure : (a : A) → Quiet (pure a)
  unfolding pure
  Quiet-pure a = record { committed = λ c. refl; active = λ c. refl }

  pub Quiet-raise : (e : Error) → Quiet (raise {A = A} e)
  unfolding raise
  Quiet-raise e = record { committed = λ c. refl; active = λ c. refl }

  pub Quiet-lift : (r : Result A) → Quiet (lift r)
  unfolding lift
  Quiet-lift r = record { committed = λ c. refl; active = λ c. refl }

  pub Quiet-query : (read : Db → A) → Quiet (query read)
  unfolding query
  Quiet-query read = record { committed = λ c. ground arith; active = λ c. ground arith }

  pub Quiet-labelled : (label : Text) (m : Exec A) → Quiet m → Quiet (labelled label m)
  unfolding labelled
  Quiet-labelled label m q = record { committed = q.committed; active = q.active }

  pub Quiet-if : (b : Bool) (m n : Exec A) → Quiet m → Quiet n → Quiet (if b then m else n)
  Quiet-if true m n qm qn = qm
  Quiet-if false m n qm qn = qn

pub Quiet-now : Quiet now
unfolding now
Quiet-now = record { committed = λ c. refl; active = λ c. refl }

pub Quiet-statement : (run : Db → Result Db) → Quiet (statement run)
unfolding statement
Quiet-statement run = record { committed = λ c. ground arith; active = λ c. ground arith }

module _ {A B : Type 0} where
  continue-Quiet : (r : Result A) (f : A → Exec B) → ((a : A) → Quiet (f a)) → Quiet (continue r f)
  unfolding continue
  continue-Quiet (ok a) f q = record { committed = (q a).committed; active = (q a).active }
  continue-Quiet (err e) f q = record { committed = λ c. refl; active = λ c. refl }

  pub Quiet-bind :
      (m : Exec A) (f : A → Exec B) → Quiet m → ((a : A) → Quiet (f a)) → Quiet (m >>= f)
  unfolding ◌>>=◌
  Quiet-bind m f qm qf = record {
    committed = λ c. (continue-Quiet (m c).0 f qf).committed (m c).1 ∙ qm.committed c;
    active = λ c. (continue-Quiet (m c).0 f qf).active (m c).1 ∙ qm.active c;
  }

module _ {A : Type 0} where
  pub Quiet-for_each :
      (xs : List A) (body : A → Exec (Unit {0}))
      → ((x : A) → Quiet (body x))
      → Quiet (for_each xs body)
  unfolding for_each
  Quiet-for_each [] body q = record { committed = λ c. refl; active = λ c. refl }
  Quiet-for_each (x ∷ xs) body q =
      let rest =
        Quiet-bind (body x) (λ _. for_each xs body) (q x) (λ _. Quiet-for_each xs body q) in
      record { committed = rest.committed; active = rest.active }

pub ruleset quiet_rules = (
  Quiet-pure, Quiet-raise, Quiet-lift, Quiet-query, Quiet-labelled, Quiet-if, Quiet-now,
  Quiet-statement, Quiet-bind, Quiet-for_each,
)
