-- ===== src/Storage/Project/Columns.antt =====
-- store.py: the parameters of a projection's upsert, each computed from the document in turn.
use traust_contracts.Base.{Text, String, List, [], ◌∷◌, Result, ok, err}
use traust_contracts.Base
use traust_contracts.Py.{Json, get, item}
use traust_contracts.Storage.Db.{SqlValue, insert_row}
use traust_contracts.Storage.Values.{bind, integer_value, boolean_value, json_or_none}
use traust_contracts.Storage.Exec.{Exec, lift, statement, ◌>>=◌}

abbrev chain {ℓ κ} : {A : Type ℓ} {B : Type κ} → Result A → (A → Result B) → Result B
chain = Base.◌>>=◌

-- `d.get(key)`
unfoldable pub opt : String → Json → Result SqlValue
opt key d = chain (get key d) bind

-- `d[key]`
unfoldable pub req : String → Json → Result SqlValue
req key d = chain (item key d) bind

-- `_json_or_none(d.get(key))`
unfoldable pub enc : String → Json → Result SqlValue
enc key d = chain (get key d) json_or_none

-- `_boolean(d.get(key))`
unfoldable pub flag : String → Json → Result SqlValue
flag key d = chain (get key d) boolean_value

-- `_integer(d.get(key))`
unfoldable pub integral : String → Json → Result SqlValue
integral key d = chain (get key d) integer_value

unfoldable pub col : String → Result SqlValue → Result (String × SqlValue)
col name r = chain r (λ v. ok (name, v))

unfoldable pub sequence : List (Result (String × SqlValue)) → Result (List (String × SqlValue))
sequence [] = ok []
sequence (r ∷ rs) = chain r (λ v. chain (sequence rs) (λ vs. ok (v ∷ vs)))

-- `_execute(query(self.dialect, "<table>.upsert.sql"), {...})`: every projection row has the
-- binding's id and digest.
unfoldable pub upsert : String → Text → Text → List (Result (String × SqlValue)) → Exec (Unit {0})
upsert table digest bid columns = do
  values ← lift (sequence columns)
  statement (
      insert_row
        (record { table = table; binding_id = bid; artifact_digest = digest; columns = values }))
