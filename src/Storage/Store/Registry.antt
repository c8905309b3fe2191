-- ===== src/Storage/Store/Registry.antt =====
-- The product and repo registry of v1/storage/store.py: the register_* methods, `_register`,
-- `_write` and `find_product_repo`. A fresh `uuid4` is an argument.
use traust_contracts.Base.{
  ℕ, Text, String, codes, text_eq, option_text_eq, str_eq, Bool, true, false, ◌&&◌, List, [], ◌∷◌,
  ◌++◌, Option, none, some, if◌then◌else◌, Result, Error, ok, err, message, type_error,
}
use traust_contracts.Base
use traust_contracts.Py.{dumps_texts}
use traust_contracts.Storage.Identity.{text_attribute}
use traust_contracts.Storage.Db.{Entry, upsert_entry, entry_id}
use traust_contracts.Storage.Exec.{
  Exec, pure, raise, lift, ◌>>=◌, ◌>>◌, now, statement, query, transact,
}

text_items : String → List Text → Result (List Text)
text_items field [] = ok []
text_items field (s ∷ ss) =
    let rest = text_items field ss in
    Base.◌>>=◌ (text_attribute field (some s) true) λ _. Base.◌>>=◌ rest λ items. ok (s ∷ items)

abbrev encoded_list : List Text → Option Text
encoded_list [] = none
encoded_list (s ∷ ss) = some (dumps_texts (s ∷ ss))

-- `_text_list`
unfoldable pub text_list : String → Option (List Text) → Result (Option Text)
unfolding text_items dumps_texts
text_list field none = ok none
text_list field (some values) =
    Base.◌>>=◌ (text_items field values) λ items. ok (encoded_list items)

-- The value of a keyword argument, under its column's name.
abbrev pub attribute : String → Result (Option Text) → Result (String × Option Text)
attribute field (ok v) = ok (field, v)
attribute field (err e) = err e

-- A dict whose values are computed in turn.
unfoldable pub dict_of : List (Result (String × Option Text)) → Result (List (String × Option Text))
dict_of [] = ok []
dict_of (r ∷ rs) = let rest = dict_of rs in Base.◌>>=◌ r λ v. Base.◌>>=◌ rest λ vs. ok (v ∷ vs)

abbrev pub register_label : String → Text
register_label table = codes "register " ++ codes table

-- `row[0]`
abbrev pub first_column : Option Text → Result (Option Text)
first_column none = err type_error
first_column (some id) = ok (some id)

-- The id of the row with the key that the values have, where `key` is given.
unfoldable pub read_back : Bool → String → List (String × Option Text) → Exec (Option Text)
read_back true table values = do
  row ← query (λ db. entry_id table values db.registry)
  lift (first_column row)
read_back false table values = pure none

-- Inside the transaction of `_write`.
unfoldable pub write_body : String → Text → List (String × Option Text) → Bool → Exec (Option Text)
write_body table id values keyed = do
  at ← now
  statement (upsert_entry (record { table = table; id = id; values = values; registered_at = at }))
  read_back keyed table values

-- `_write`; `keyed` says whether `key` was given.
unfoldable pub write : String → Text → List (String × Option Text) → Bool → Exec (Option Text)
unfolding codes
write table id values keyed = transact (register_label table) (write_body table id values keyed)

abbrev pub stored_id : String → Option Text → Result Text
stored_id table none = err (message (register_label table ++ codes ": row not found after upsert"))
stored_id table (some id) = ok id

-- `_register`
unfoldable pub register : String → Text → List (String × Option Text) → Exec Text
unfolding codes
register table uuid values = do stored ← write table uuid values true; lift (stored_id table stored)

unfoldable pub register_product : Text → Option Text → Option Text → Exec Text
register_product uuid slug segment = do
  values ← lift (
      dict_of (
        attribute "slug" (text_attribute "slug" slug true)
        ∷ attribute "segment" (text_attribute "segment" segment false)
        ∷ []))
  register "product" uuid values

unfoldable pub register_repo : Text → Option Text → Exec Text
register_repo uuid repo_url = do
  values ← lift (dict_of (attribute "repo_url" (text_attribute "repo_url" repo_url true) ∷ []))
  register "repo" uuid values

unfoldable pub register_product_repo :
    Text → Option Text → Option Text → Option Text → Option Text → Option Text → Exec Text
unfolding codes
register_product_repo uuid product_id repo_id none sub_service resource_type =
    raise (message (codes "ref: expected string ('' for the default branch)"))
register_product_repo uuid product_id repo_id (some ref) sub_service resource_type = do
  values ← lift (
      dict_of (
        attribute "product_id" (text_attribute "product_id" product_id true)
        ∷ attribute "repo_id" (text_attribute "repo_id" repo_id true)
        ∷ attribute "ref" (text_attribute "ref" (some ref) false)
        ∷ attribute "sub_service" (text_attribute "sub_service" sub_service false)
        ∷ attribute "resource_type" (text_attribute "resource_type" resource_type false)
        ∷ []))
  register "product_repo" uuid values

unfoldable pub register_product_repo_version :
    Text → Option Text → Option Text → Option (List Text) → Option (List Text) → Exec (Unit {0})
register_product_repo_version product_repo_id version category cluster_operators images = do
  values ← lift (
      dict_of (
        ok ("product_repo_id", some product_repo_id)
        ∷ attribute "version" (text_attribute "version" version true)
        ∷ attribute "category" (text_attribute "category" category false)
        ∷ attribute "cluster_operators" (text_list "cluster_operators" cluster_operators)
        ∷ attribute "images" (text_list "images" images)
        ∷ []))
  write "product_repo_version" [] values false
  pure tt

unfoldable pub register_repo_owner :
    Text
    → Option Text
    → Option Text
    → Option (List Text)
    → Option Text
    → Option Text
    → Option Text
    → Exec (Unit {0})
register_repo_owner product_repo_id team manager individuals source jira_project jira_component = do
  values ← lift (
      dict_of (
        ok ("product_repo_id", some product_repo_id)
        ∷ attribute "team" (text_attribute "team" team true)
        ∷ attribute "manager" (text_attribute "manager" manager false)
        ∷ attribute "individuals" (text_list "individuals" individuals)
        ∷ attribute "source" (text_attribute "source" source false)
        ∷ attribute "jira_project" (text_attribute "jira_project" jira_project false)
        ∷ attribute "jira_component" (text_attribute "jira_component" jira_component false)
        ∷ []))
  write "repo_owner" [] values false
  pure tt

-- product_repo.find.sql: the product and the repo by their keys, and the product_repo of both.
unfoldable pub find_entry : Text → Text → Text → List Entry → Option Text
find_entry slug repo_url ref entries =
    elim (entry_id "product" (("slug", some slug) ∷ []) entries) [
      | none ↦ none
      | some product ↦ elim (entry_id "repo" (("repo_url", some repo_url) ∷ []) entries) [
        | none ↦ none
        | some repo ↦
            entry_id "product_repo"
              (("product_id", some product) ∷ ("repo_id", some repo) ∷ ("ref", some ref) ∷ [])
              entries
      ]
    ]

-- `find_product_repo`
unfoldable pub find_product_repo : Text → Text → Text → Exec (Option Text)
unfolding codes
find_product_repo slug repo_url ref =
    transact (codes "find product_repo") (query (λ db. find_entry slug repo_url ref db.registry))
