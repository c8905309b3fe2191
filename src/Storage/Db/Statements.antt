-- ===== src/Storage/Db/Statements.antt =====
-- The statements on evidence, bindings, locations and projection rows. Each INSERT keeps the row
-- that is there on a conflict (ON CONFLICT ... DO NOTHING), and a violated constraint is an error.
use traust_contracts.Base.{
  String, str_eq, ℕ, Text, codes, text_eq, is, option_text_eq, Bool, true, false, not, ◌&&◌, ◌||◌,
  List, [], ◌∷◌, ◌++◌, Option, none, some, if◌then◌else◌, any, Result, ok, err, driver_error, ltb,
  ◌==◌, text_leb,
}
use traust_contracts.Storage.Db.Rows.{
  SqlValue, null, same_key, Evidence, BindingRow, Location, Row, Db,
}

unfoldable pub has_evidence : Text → List Evidence → Bool
has_evidence digest = any (λ e. text_eq e.digest digest)

-- artifact_evidence.upsert.sql
unfoldable pub insert_evidence : Evidence → Db → Result Db
insert_evidence e db = ok (
    if has_evidence e.digest db.evidence
    then db
    else record db { evidence = db.evidence ++ e ∷ [] })

-- artifact_evidence_size.get.sql
unfoldable pub evidence_size : Text → List Evidence → Option ℕ
evidence_size digest [] = none
evidence_size digest (e ∷ es) =
    if text_eq e.digest digest then some e.byte_size else evidence_size digest es

-- artifact_binding.get.sql
unfoldable pub find_binding : Text → List BindingRow → Option BindingRow
find_binding id [] = none
find_binding id (r ∷ rs) = if text_eq r.binding_id id then some r else find_binding id rs

abbrev pub is_some {ℓ} : {A : Type ℓ} → Option A → Bool
is_some none = false
is_some (some a) = true

-- idx_artifact_binding_successor: one successor for each binding.
unfoldable pub has_successor : Option Text → List BindingRow → Bool
has_successor none rows = false
has_successor (some id) rows =
    any (λ r. option_text_eq r.binding.supersedes_binding_id (some id)) rows

-- A cumulative report without a predecessor, which starts a chain.
unfoldable pub is_root : BindingRow → Bool
unfolding codes
is_root r =
    is r.artifact_name "report"
    && option_text_eq r.binding.role (some (codes "cumulative"))
    && not (is_some r.binding.supersedes_binding_id)
    && is_some r.binding.product_repo_id

-- idx_artifact_binding_cumulative_root: one chain for each scope, product_repo and run. A NULL run
-- is no other's equal.
unfoldable pub same_root : BindingRow → BindingRow → Bool
unfolding is_root
same_root r s =
    is_root r
    && is_root s
    && text_eq r.binding.scope_id s.binding.scope_id
    && option_text_eq r.binding.product_repo_id s.binding.product_repo_id
    && is_some r.binding.run_id
    && option_text_eq r.binding.run_id s.binding.run_id

-- The foreign key into product_repo; `known` says which ids are registered.
abbrev owner_known : (Text → Bool) → Option Text → Bool
owner_known known none = true
owner_known known (some id) = known id

-- The constraints of schema/artifact_binding.sql on a new row.
unfoldable pub violates : (Text → Bool) → BindingRow → Db → Bool
violates known r db =
    not (has_evidence r.artifact_digest db.evidence)
    || not (owner_known known r.binding.product_repo_id)
    || has_successor r.binding.supersedes_binding_id db.bindings
    || any (same_root r) db.bindings

-- artifact_binding.upsert.sql
unfoldable pub insert_binding : (Text → Bool) → BindingRow → Db → Result Db
insert_binding known r db =
    if is_some (find_binding r.binding_id db.bindings)
    then ok db
    else if violates known r db
    then err driver_error
    else ok (record db { bindings = db.bindings ++ r ∷ [] })

unfoldable pub has_location : Text → Text → List Location → Bool
has_location id reference = any (λ l. text_eq l.binding_id id && text_eq l.reference reference)

-- artifact_location.upsert.sql, with the foreign key to the binding and CHECK (reference <> '').
unfoldable pub insert_location : Location → Db → Result Db
insert_location l db =
    if has_location l.binding_id l.reference db.locations
    then ok db
    else if is_some (find_binding l.binding_id db.bindings) && not (text_eq l.reference [])
    then ok (record db { locations = db.locations ++ l ∷ [] })
    else err driver_error

-- `registered_at, reference`, the order of artifact_location.get.sql.
unfoldable pub location_leb : Location → Location → Bool
unfolding text_leb
location_leb l m =
    ltb l.registered_at m.registered_at
    || (l.registered_at == m.registered_at && text_leb l.reference m.reference)

unfoldable pub insert_ordered : Location → List Location → List Location
unfolding location_leb
insert_ordered l [] = l ∷ []
insert_ordered l (m ∷ ms) = if location_leb l m then l ∷ m ∷ ms else m ∷ insert_ordered l ms

-- artifact_location.get.sql
unfoldable pub locations_of : Text → List Location → List Location
unfolding insert_ordered
locations_of id [] = []
locations_of id (l ∷ ls) =
    let rest = locations_of id ls in if text_eq l.binding_id id then insert_ordered l rest else rest

-- The columns beside binding_id on which a projection's upsert finds a conflict.
unfoldable pub conflict_columns : String → List String
conflict_columns table =
    if str_eq table "finding"
      || str_eq table "triage_verdict"
      || str_eq table "report_finding"
      || str_eq table "cloud_config_finding"
    then "finding_id" ∷ []
    else if str_eq table "layer_event"
    then "event_id" ∷ []
    else if str_eq table "attack_chain"
    then "chain_id" ∷ []
    else if str_eq table "validation_finding"
    then "source_id" ∷ []
    else if str_eq table "verification_finding"
    then "original_id" ∷ []
    else if str_eq table "verification_regression"
    then "regression_id" ∷ []
    else if str_eq table "remediation_source"
    then "finding_ref" ∷ []
    else if str_eq table "compliance_result"
    then "framework" ∷ "control_id" ∷ []
    else if str_eq table "subject_ownership"
    then "subject_id" ∷ []
    else if str_eq table "threat"
    then "threat_key" ∷ []
    else []

unfoldable pub column : String → List (String × SqlValue) → SqlValue
column name [] = null
column name ((k, v) ∷ rest) = if str_eq k name then v else column name rest

unfoldable pub same_columns :
    List String → List (String × SqlValue) → List (String × SqlValue) → Bool
unfolding column same_key
same_columns [] xs ys = true
same_columns (n ∷ names) xs ys = same_key (column n xs) (column n ys) && same_columns names xs ys

unfoldable pub conflicts : Row → Row → Bool
unfolding same_columns conflict_columns
conflicts r s =
    str_eq r.table s.table
    && text_eq r.binding_id s.binding_id
    && same_columns (conflict_columns r.table) r.columns s.columns

-- The upsert of a projection table, with the foreign key (binding_id, artifact_digest).
unfoldable pub insert_row : Row → Db → Result Db
unfolding conflicts
insert_row r db = elim (find_binding r.binding_id db.bindings) [
  | none ↦ err driver_error
  | some b ↦
      if text_eq b.artifact_digest r.artifact_digest
      then ok (if any (conflicts r) db.rows then db else record db { rows = db.rows ++ r ∷ [] })
      else err driver_error
]
