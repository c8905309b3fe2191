-- ===== src/Storage/Db/Registry.antt =====
-- The statements on the product and repo registry.
use traust_contracts.Base.{
  String, str_eq, Text, text_eq, option_text_eq, Bool, true, false, not, ◌&&◌, ◌||◌, List, [], ◌∷◌,
  Option, none, some, if◌then◌else◌, any, Result, ok, err, driver_error,
}
use traust_contracts.Storage.Db.Rows.{Entry, Db}

-- ON CONFLICT (...) of each <table>.upsert.sql.
unfoldable pub natural_key : String → List String
natural_key table =
    if str_eq table "product"
    then "slug" ∷ []
    else if str_eq table "repo"
    then "repo_url" ∷ []
    else if str_eq table "product_repo"
    then "product_id" ∷ "repo_id" ∷ "ref" ∷ []
    else if str_eq table "product_repo_version"
    then "product_repo_id" ∷ "version" ∷ []
    else "product_repo_id" ∷ "team" ∷ []

unfoldable pub value_of : String → List (String × Option Text) → Option Text
value_of name [] = none
value_of name ((k, v) ∷ rest) = if str_eq k name then v else value_of name rest

-- Two rows agree on the named columns, all of them declared NOT NULL.
unfoldable pub agree :
    List String → List (String × Option Text) → List (String × Option Text) → Bool
agree [] xs ys = true
agree (n ∷ names) xs ys = option_text_eq (value_of n xs) (value_of n ys) && agree names xs ys

unfoldable pub same_entry : Entry → Entry → Bool
same_entry e f = str_eq e.table f.table && agree (natural_key e.table) e.values f.values

-- Whether the table has a row with the id.
unfoldable pub registered : String → List Entry → Text → Bool
registered table entries id = any (λ e. str_eq e.table table && text_eq e.id id) entries

unfoldable pub refers : List Entry → String → Option Text → Bool
unfolding registered
refers entries table none = false
refers entries table (some id) = registered table entries id

-- The foreign keys of product_repo, product_repo_version and repo_owner.
unfoldable pub parents_known : Entry → List Entry → Bool
unfolding refers value_of
parents_known e entries =
    if str_eq e.table "product" || str_eq e.table "repo"
    then true
    else if str_eq e.table "product_repo"
    then refers entries "product" (value_of "product_id" e.values)
      && refers entries "repo" (value_of "repo_id" e.values)
    else refers entries "product_repo" (value_of "product_repo_id" e.values)

-- DO UPDATE SET of every column but the id, the key and registered_at: the key is the same.
unfoldable pub refresh : Entry → List Entry → List Entry
refresh e [] = e ∷ []
refresh e (f ∷ fs) =
    if same_entry e f then record f { values = e.values } ∷ fs else f ∷ refresh e fs

-- <table>.get.sql: the id of the row with the given key.
unfoldable pub entry_id : String → List (String × Option Text) → List Entry → Option Text
entry_id table values [] = none
entry_id table values (f ∷ fs) =
    if str_eq table f.table && agree (natural_key table) values f.values
    then some f.id
    else entry_id table values fs

-- A column that is NOT NULL CHECK (... <> '').
abbrev pub filled : Option Text → Bool
filled none = false
filled (some []) = false
filled (some (c ∷ s)) = true

abbrev pub given : Option Text → Bool
given none = false
given (some s) = true

-- The columns that are NOT NULL and no foreign keys, and their CHECK. The JSON columns, which the
-- methods encode, and registered_at are left out.
unfoldable pub columns_valid : Entry → Bool
unfolding value_of
columns_valid e =
    if str_eq e.table "product"
    then filled (value_of "slug" e.values)
    else if str_eq e.table "repo"
    then filled (value_of "repo_url" e.values)
    else if str_eq e.table "product_repo"
    then given (value_of "ref" e.values)
    else if str_eq e.table "product_repo_version"
    then filled (value_of "version" e.values)
    else filled (value_of "team" e.values)

-- The tables with an id of their own as PRIMARY KEY.
unfoldable pub has_id : String → Bool
has_id table = str_eq table "product" || str_eq table "repo" || str_eq table "product_repo"

-- The id of a row that is inserted is in the table. A row whose key is there inserts none.
unfoldable pub id_taken : Entry → List Entry → Bool
unfolding has_id entry_id registered
id_taken e entries =
    has_id e.table
    && not (given (entry_id e.table e.values entries))
    && registered e.table entries e.id

unfoldable pub accepted : Entry → List Entry → Bool
unfolding columns_valid parents_known id_taken
accepted e entries = columns_valid e && parents_known e entries && not (id_taken e entries)

-- <table>.upsert.sql
unfoldable pub upsert_entry : Entry → Db → Result Db
unfolding accepted refresh
upsert_entry e db =
    if accepted e db.registry
    then ok (record db { registry = refresh e db.registry })
    else err driver_error
