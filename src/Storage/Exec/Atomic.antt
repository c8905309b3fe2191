-- ===== src/Storage/Exec/Atomic.antt =====
-- Transactions of store.py commit the whole body or nothing.
use traust_contracts.Base.{
  ◌≡◌, refl, true, false, Text, Result, Error, ok, err, arith, Bool-cases, inl, inr, driver_error,
  ingest_error,
}
use traust_contracts.Storage.Db.{Db}
use traust_contracts.Storage.Exec.Defs.{
  Conn, Exec, pure, continue, ◌>>=◌, idle, begin, commit, rollback, settle, attempt, committing,
  transact, busy_error, faulty, later, relabel,
}
use traust_contracts.Storage.Exec.Frame.{Quiet}
use traust_contracts.Storage.Exec.Triples.{Triple}

-- What a transaction leaves: on success a closed transaction whose database meets `Q`, on an
-- exception the database as it was.
pub record Outcome {A : Type 0} (Q : A → Db → Type 0) (before : Db) (r : Result A) (c : Conn)
    : Type 0 where
  pub done : (a : A) → r ≡ ok a → (c.active ≡ false) × Q a c.committed
  pub failed : (e : Error) → r ≡ err e → c.committed ≡ before

-- What follows the body: COMMIT, and the handler.
abbrev finish : {A : Type 0} → Text → Result A → Exec A
finish label r c =
    let (r', c') = continue r (λ a. commit >>= λ _. pure a) c in settle (relabel label r') c'

pub idle-ready : (c : Conn) → c.active ≡ false → idle c ≡ (ok tt, c)
unfolding idle
idle-ready c ready = ground arith

pub idle-busy : (c : Conn) → c.active ≡ true → idle c ≡ (err busy_error, c)
unfolding idle
idle-busy c busy = ground arith

abbrev opened : Conn → Conn
opened c = record c { faults = later c.faults; work = c.committed; active = true }

module _ {A : Type 0} (Q : A → Db → Type 0) (before : Db) where
  rollback-Outcome :
      (e : Error) (c : Conn)
      → c.committed ≡ before
      → Outcome Q before (rollback {A = A} e c).0 (rollback {A = A} e c).1
  unfolding rollback
  rollback-Outcome e c same = record { done = λ a h. ground arith; failed = λ x h. ground arith }

  finish-Outcome :
      (label : Text) (r : Result A) (c : Conn)
      → c.committed ≡ before
      → ((a : A) → r ≡ ok a → Q a c.work)
      → Outcome Q before (finish label r c).0 (finish label r c).1
  unfolding continue settle ◌>>=◌ commit pure
  finish-Outcome label (err e) c same post = rollback-Outcome (ingest_error label e) c same
  finish-Outcome label (ok a) c same post = elim (Bool-cases (faulty c.faults)) [
    | inl bad ↦ rw bad (
        rollback-Outcome (ingest_error label driver_error) (record c { faults = later c.faults })
          same)
    | inr good ↦ rw good (record { done = λ b h. (refl, post b h); failed = λ x h. absurd (cc) })
  ]

module _ {A : Type 0} {P : Db → Type 0} {Q : A → Db → Type 0} {body : Exec A} where
  -- A body that runs in an open transaction, with COMMIT and the handler after it.
  pub committing-Outcome :
      (label : Text) (c : Conn)
      → Quiet body
      → Triple P body Q
      → P c.work
      → Outcome Q c.committed (committing label body c).0 (committing label body c).1
  unfolding committing attempt ◌>>=◌
  committing-Outcome label c q t p =
      finish-Outcome Q c.committed label (body c).0 (body c).1 (q.committed c)
        (λ a h. t.post c a p h)

  -- BEGIN, the body, and its COMMIT.
  pub begin-Outcome :
      (label : Text) (c : Conn)
      → Quiet body
      → Triple P body Q
      → P c.committed
      → Outcome Q c.committed
          ((begin >>= λ _. committing label body) c).0
          ((begin >>= λ _. committing label body) c).1
  unfolding begin ◌>>=◌ continue
  begin-Outcome label c q t p = elim (Bool-cases (faulty c.faults)) [
    | inl bad ↦ rw bad (record { done = λ b h. absurd (cc); failed = λ x h. refl })
    | inr good ↦ rw good (committing-Outcome label (opened c) q t p)
  ]

  -- A transaction that its method opens.
  pub transact-Outcome :
      (label : Text) (c : Conn)
      → Quiet body
      → Triple P body Q
      → P c.committed
      → Outcome Q c.committed (transact label body c).0 (transact label body c).1
  unfolding transact ◌>>=◌ continue
  transact-Outcome label c q t p = elim (Bool-cases c.active) [
    | inl busy ↦ rw (idle-busy c busy) (record { done = λ b h. absurd (cc); failed = λ x h. refl })
    | inr ready ↦ rw (idle-ready c ready) (begin-Outcome label c q t p)
  ]

module _ {A : Type 0} {Q : A → Db → Type 0} where
  -- Code before BEGIN that raises leaves the database as it is.
  pub continue-Outcome :
      {X : Type 0} (r : Result X) (f : X → Exec A) (c : Conn)
      → ((x : X) → r ≡ ok x → Outcome Q c.committed (f x c).0 (f x c).1)
      → Outcome Q c.committed (continue r f c).0 (continue r f c).1
  unfolding continue
  continue-Outcome (ok x) f c h = h x refl
  continue-Outcome (err e) f c h = record { done = λ a e. absurd (cc); failed = λ x e. refl }
