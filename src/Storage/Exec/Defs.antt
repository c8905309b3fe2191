-- ===== src/Storage/Exec/Defs.antt =====
-- The connection that store.py is given, and the transaction skeleton of its methods: `_idle`,
-- `_begin`, the statements, COMMIT, and the handler that rolls back.
--
-- `committed` is what the database holds, `work` what the open transaction sees. `faults` says, for
-- each statement in turn, whether the driver raises at it. `clock` is the time.
use traust_contracts.Base.{
  ℕ, suc, Text, codes, Bool, true, false, List, [], ◌∷◌, Result, Error, ok, err, ingest_error,
  with_rollback_failure, message, driver_error, if◌then◌else◌,
}
use traust_contracts.Storage.Db.{Db}

pub data Dialect : Type 0 where
  sqlite postgres : Dialect

pub record Conn : Type 0 where
  pub dialect : Dialect
  pub committed : Db
  pub work : Db
  pub active : Bool
  pub faults : List Bool
  pub clock : ℕ

abbrev pub Exec {ℓ} : Type ℓ → Type ℓ
Exec A = Conn → Result A × Conn

unfoldable pub pure {ℓ} : {A : Type ℓ} → A → Exec A
pure a c = (ok a, c)

unfoldable pub raise {ℓ} : {A : Type ℓ} → Error → Exec A
raise e c = (err e, c)

unfoldable pub lift {ℓ} : {A : Type ℓ} → Result A → Exec A
lift r c = (r, c)

unfoldable pub continue {ℓ κ} : {A : Type ℓ} {B : Type κ} → Result A → (A → Exec B) → Exec B
continue (ok a) f c = f a c
continue (err e) f c = (err e, c)

infixl 5 ◌>>=◌ ◌>>◌
unfoldable pub ◌>>=◌ {ℓ κ} : {A : Type ℓ} {B : Type κ} → Exec A → (A → Exec B) → Exec B
unfolding continue
◌>>=◌ m f c = let (r, c') = m c in continue r f c'

abbrev pub ◌>>◌ {ℓ κ} : {A : Type ℓ} {B : Type κ} → Exec A → Exec B → Exec B
m >> n = m >>= λ _. n

-- `datetime.now(UTC)`
unfoldable pub now : Exec ℕ
now c = (ok c.clock, record c { clock = suc c.clock })

abbrev pub faulty : List Bool → Bool
faulty [] = false
faulty (b ∷ bs) = b

abbrev pub later : List Bool → List Bool
later [] = []
later (b ∷ bs) = bs

abbrev pub store_work : Result Db → Conn → Result (Unit {0}) × Conn
store_work (ok db) c = (ok tt, record c { work = db })
store_work (err e) c = (err e, c)

-- `_execute` of a statement that writes, inside a transaction.
unfoldable pub statement : (Db → Result Db) → Exec (Unit {0})
statement run c =
    let c' : Conn = record c { faults = later c.faults } in
    if faulty c.faults then (err driver_error, c') else store_work (run c.work) c'

-- `_execute` of a statement that reads, with its rows fetched.
unfoldable pub query {ℓ} : {A : Type ℓ} → (Db → A) → Exec A
query read c =
    let c' : Conn = record c { faults = later c.faults } in
    if faulty c.faults then (err driver_error, c') else (ok (read c.work), c')

unfoldable pub in_dialect : Dialect → Exec (Unit {0}) → Exec (Unit {0})
in_dialect sqlite m c = (ok tt, c)
in_dialect postgres m c = m c

-- `self.dialect`
unfoldable pub current_dialect : Exec Dialect
current_dialect c = (ok c.dialect, c)

-- `if self.dialect == "postgres": ...`
unfoldable pub on_postgres : Exec (Unit {0}) → Exec (Unit {0})
unfolding in_dialect
on_postgres m c = in_dialect c.dialect m c

unfoldable pub for_each {ℓ} : {A : Type ℓ} → List A → (A → Exec (Unit {0})) → Exec (Unit {0})
for_each [] body c = (ok tt, c)
for_each (x ∷ xs) body c = (body x >>= λ _. for_each xs body) c

pub busy_error : Error
busy_error = message (codes "storage requires an idle connection; caller transaction is untouched")

-- `_idle`
unfoldable pub idle : Exec (Unit {0})
idle c = if c.active then (err busy_error, c) else (ok tt, c)

-- `_begin`
unfoldable pub begin : Exec (Unit {0})
unfolding codes
begin c =
    let c' : Conn = record c { faults = later c.faults } in
    if faulty c.faults
    then (err (ingest_error (codes "begin transaction") driver_error), c')
    else (ok tt, record c' { work = c.committed; active = true })

-- COMMIT. One that raises has committed nothing and leaves the transaction open.
unfoldable pub commit : Exec (Unit {0})
commit c =
    let c' : Conn = record c { faults = later c.faults } in
    if faulty c.faults
    then (err driver_error, c')
    else (ok tt, record c' { committed = c.work; active = false })

-- `_rollback`, with the exception that the handler raises after it.
unfoldable pub rollback {ℓ} : {A : Type ℓ} → Error → Exec A
rollback e c =
    let c' : Conn = record c { faults = later c.faults } in
    if c.active
    then (if faulty c.faults
        then (err (with_rollback_failure e driver_error), c')
        else (err e, record c' { work = c.committed; active = false }))
    else (err e, c)

unfoldable pub settle {ℓ} : {A : Type ℓ} → Result A → Exec A
unfolding rollback
settle (ok a) c = (ok a, c)
settle (err e) c = rollback e c

abbrev pub relabel {ℓ} : {A : Type ℓ} → Text → Result A → Result A
relabel label (ok a) = ok a
relabel label (err e) = err (ingest_error label e)

-- The context in front of an error raised here.
unfoldable pub labelled {ℓ} : {A : Type ℓ} → Text → Exec A → Exec A
labelled label m c = let (r, c') = m c in (relabel label r, c')

-- `try: ... except Exception as error: rollback; raise IngestError(f"{label}: ...")`
unfoldable pub attempt {ℓ} : {A : Type ℓ} → Text → Exec A → Exec A
unfolding settle
attempt label body c = let (r, c') = body c in settle (relabel label r) c'

-- The body of a transaction and its COMMIT, under the handler.
unfoldable pub committing {ℓ} : {A : Type ℓ} → Text → Exec A → Exec A
unfolding ◌>>=◌ pure attempt
committing label body = attempt label (do a ← body; commit; pure a)

-- The whole skeleton, as the reading methods and `_write` have it.
unfoldable pub transact {ℓ} : {A : Type ℓ} → Text → Exec A → Exec A
unfolding committing
transact label body = do idle; begin; committing label body
