-- ===== src/Storage/Db/Rows.antt =====
-- The rows of storage/v1/sqlite/schema/*.sql, and the value that a statement's parameter takes.
use traust_contracts.Base.{ℕ, Text, String, text_eq, Bool, false, List, [], Option, none}
use traust_contracts.Py.{ℤ, int_eq, Float, Json}
use traust_contracts.Storage.Identity.{Binding}

-- `document` is the text that `json.dumps` writes for the value.
pub data SqlValue : Type 0 where
  null : SqlValue
  text : Text → SqlValue
  integer : ℤ → SqlValue
  real : Float → SqlValue
  document : Json → SqlValue

pub record Meta : Type 0 where
  pub contract_version : Text
  pub revision : ℕ

pub record Evidence : Type 0 where
  pub digest : Text
  pub byte_size : ℕ
  pub first_ingested_at : ℕ

pub record BindingRow : Type 0 where
  pub binding_id : Text
  pub artifact_digest : Text
  pub artifact_name : Text
  pub binding : Binding
  pub bound_at : ℕ

pub record Location : Type 0 where
  pub binding_id : Text
  pub reference : Text
  pub registered_at : ℕ

-- A row of a projection table. Each of these tables has the two columns named here.
pub record Row : Type 0 where
  pub table : String
  pub binding_id : Text
  pub artifact_digest : Text
  pub columns : List (String × SqlValue)

-- A row of product, repo, product_repo, product_repo_version or repo_owner.
pub record Entry : Type 0 where
  pub table : String
  pub id : Text
  pub values : List (String × Option Text)
  pub registered_at : ℕ

pub record Db : Type 0 where
  pub meta : Option Meta
  pub objects : List Text
  pub evidence : List Evidence
  pub bindings : List BindingRow
  pub locations : List Location
  pub rows : List Row
  pub registry : List Entry

-- Equality of the values of a UNIQUE key, where NULL is no value's equal.
unfoldable pub same_key : SqlValue → SqlValue → Bool
same_key (text s) (text t) = text_eq s t
same_key (integer i) (integer j) = int_eq i j
same_key _ _ = false

abbrev pub empty : Db
empty = record {
  meta = none;
  objects = [];
  evidence = [];
  bindings = [];
  locations = [];
  rows = [];
  registry = [];
}
