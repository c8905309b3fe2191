-- ===== src/Storage/Store/Reads.antt =====
-- The reading methods of v1/storage/store.py: `get_binding`, `query_findings_summary` and the
-- query_* methods that `_query_view` serves. The SQL of a view is an argument, as what it reads.
use traust_contracts.Base.{
  ℕ, Text, String, codes, leb, ◌==◌, Bool, true, false, not, ◌&&◌, ◌||◌, List, [], ◌∷◌, ◌++◌, map,
  length, Option, none, some, if◌then◌else◌, Result, Error, ok, err, message,
}
use traust_contracts.Base
use traust_contracts.Py.{dumps_texts}
use traust_contracts.Storage.Identity.{Binding, identifier_bytes}
use traust_contracts.Storage.Db.{Db, BindingRow, find_binding, evidence_size, locations_of}
use traust_contracts.Storage.Exec.{
  Exec, pure, raise, lift, ◌>>=◌, ◌>>◌, query, idle, begin, committing, on_postgres,
}

pub record BindingRecord : Type 0 where
  pub binding_id : Text
  pub artifact_digest : Text
  pub artifact_name : Text
  pub binding : Binding
  pub bound_at : ℕ
  pub references : List Text
  pub byte_size : Option ℕ

abbrev is_hex : ℕ → Bool
is_hex c = (leb 48 c && leb c 57) || (leb 97 c && leb c 102)

abbrev all_hex : Text → Bool
all_hex [] = true
all_hex (c ∷ s) = is_hex c && all_hex s

-- `DIGEST_PATTERN.fullmatch(s)`
unfoldable pub is_digest : Text → Bool
is_digest s = length s == 64 && all_hex s

-- `_binding_record`, with the evidence's size and the references that `get_binding` puts in.
unfoldable pub binding_record : BindingRow → Option ℕ → List Text → BindingRecord
binding_record row size references = record {
  binding_id = row.binding_id;
  artifact_digest = row.artifact_digest;
  artifact_name = row.artifact_name;
  binding = row.binding;
  bound_at = row.bound_at;
  references = references;
  byte_size = size;
}

abbrev pub no_binding : Error
no_binding = message (codes "artifact binding not found")

unfoldable pub read_record : Option BindingRow → Exec BindingRecord
read_record none = raise no_binding
read_record (some row) = do
  size ← query (λ db. evidence_size row.artifact_digest db.evidence)
  references ← query (λ db. map (λ l. l.reference) (locations_of row.binding_id db.locations))
  pure (binding_record row size references)

-- Inside the transaction of `get_binding`.
unfoldable pub get_body : Text → Exec BindingRecord
get_body id = do row ← query (λ db. find_binding id db.bindings); read_record row

abbrev pub read_label : Text
read_label = codes "storage binding read"

unfoldable pub check_digest : Text → Result (Unit {0})
unfolding is_digest
check_digest id = if is_digest id then ok tt else err no_binding

-- `get_binding`
unfoldable pub get_binding : Text → Exec BindingRecord
unfolding codes check_digest
get_binding id = do idle; lift (check_digest id); begin; committing read_label (get_body id)

-- The query_* methods, by the view that each of them names.
pub data Query : Type 0 where
  open_findings hardening_findings current_finding_detail distinct_exposure census_population :
      Query
  finding_timeline exposure_trend sla_threshold finding_sla pqc_posture pqc_readiness_rollup : Query
  threat_current threat_exposure advisory_exposure validation_exposure validation_current : Query
  attack_coverage verification_current verification_regression_current remediation_current : Query
  compliance_posture pattern_exposure operator_privilege census_exposure findings_summary : Query

-- The argument that the method passes to `_query_view`.
unfoldable pub view_name : Query → String
view_name open_findings = "open_findings"
view_name hardening_findings = "hardening_findings"
view_name current_finding_detail = "current_finding_detail"
view_name distinct_exposure = "distinct_exposure"
view_name census_population = "census_population"
view_name finding_timeline = "finding_timeline"
view_name exposure_trend = "exposure_trend"
view_name sla_threshold = "sla_threshold"
view_name finding_sla = "finding_sla"
view_name pqc_posture = "pqc_posture"
view_name pqc_readiness_rollup = "pqc_readiness_rollup"
view_name threat_current = "threat_current"
view_name threat_exposure = "threat_exposure"
view_name advisory_exposure = "advisory_exposure"
view_name validation_exposure = "validation_exposure"
view_name validation_current = "validation_current"
view_name attack_coverage = "attack_coverage"
view_name verification_current = "verification_current"
view_name verification_regression_current = "verification_regression_current"
view_name remediation_current = "remediation_current"
view_name compliance_posture = "compliance_posture"
view_name pattern_exposure = "pattern_exposure"
view_name operator_privilege = "operator_privilege"
view_name census_exposure = "census_exposure"
view_name findings_summary = "findings_summary"

-- The context that the handler puts in front of an error.
unfoldable pub view_label : Query → Text
unfolding codes view_name
view_label findings_summary = codes "storage findings summary read"
view_label q = codes "storage " ++ (codes (view_name q) ++ codes " read")

-- The identifier check of each scope in turn.
unfoldable pub check_scopes : List Text → Result (Unit {0})
check_scopes [] = ok tt
check_scopes (s ∷ ss) =
    let rest = check_scopes ss in Base.◌>>=◌ (identifier_bytes "scope_id" s) λ _. rest

abbrev pub no_scope : Error
no_scope = message (codes "storage scope is required")

-- The checks of the scope list, and its encoding.
unfoldable pub encoded_scopes : List Text → Result Text
unfolding codes check_scopes
encoded_scopes [] = err no_scope
encoded_scopes (s ∷ ss) = Base.◌>>=◌ (check_scopes (s ∷ ss)) λ _. ok (dumps_texts (s ∷ ss))

module _ {Rows : Type 0} (read : String → Text → Db → Rows) where
  -- Inside the transaction of `_query_view`. On PostgreSQL scope.set.sql comes first.
  unfoldable pub view_body : Query → Text → Exec Rows
  view_body q encoded = do on_postgres (query (λ _. tt)); query (read (view_name q) encoded)

  -- `_query_view` of the method, or `query_findings_summary`.
  unfoldable pub query_view : Query → List Text → Exec Rows
  query_view q scopes = do
    idle
    encoded ← lift (encoded_scopes scopes)
    begin
    committing (view_label q) (view_body q encoded)
