-- ===== src/Storage/Project/OneRow.antt =====
-- store.py: ONE_ROW_PROJECTIONS and `_project_one_row`.
use traust_contracts.Base.{
  Text, String, is, Bool, true, false, List, [], ◌∷◌, ◌++◌, Option, none, some, if◌then◌else◌,
  Result, ok, err, key_error,
}
use traust_contracts.Base
use traust_contracts.Py.{Json, get}
use traust_contracts.Storage.Db.{SqlValue}
use traust_contracts.Storage.Values.{bind, integer_value, json_or_none}
use traust_contracts.Storage.Exec.{Exec, raise}
use traust_contracts.Storage.Project.Columns.{col, upsert}

pub data Kind : Type 0 where
  scalar json integer : Kind

-- The artifact, its table, and the table's columns with the way each is written.
abbrev pub Projections : Type 0
Projections = List (String × String × List (String × Kind))

-- ONE_ROW_PROJECTIONS, as far as isolation-review.
abbrev pub one_row_first : Projections
one_row_first =
    (
      "adapter-result",
      "adapter_result",
      ("target", scalar)
          ∷ ("scanned_at", scalar)
          ∷ ("metadata", json)
          ∷ ("findings", json)
          ∷ ("summary", json)
          ∷ ("focus_areas", json)
          ∷ [],
    )
    ∷ (
      "adr-registry",
      "adr_registry",
      ("version", integer) ∷ ("note", scalar) ∷ ("registers", json) ∷ [],
    )
    ∷ (
      "attack-mapping",
      "attack_mapping",
      ("mapping_version", scalar)
          ∷ ("attack_version", scalar)
          ∷ ("source", scalar)
          ∷ ("documentation", scalar)
          ∷ ("schema", scalar)
          ∷ ("attribution", scalar)
          ∷ ("capability_map", json)
          ∷ ("category_map", json)
          ∷ [],
    )
    ∷ (
      "benchmark-target",
      "benchmark_target",
      ("version", integer) ∷ ("updated", scalar) ∷ ("targets", json) ∷ [],
    )
    ∷ (
      "cloud-config-audit",
      "cloud_config_audit",
      ("title", scalar)
          ∷ ("metadata", json)
          ∷ ("summary", json)
          ∷ ("findings", json)
          ∷ ("gaps", json)
          ∷ [],
    )
    ∷ (
      "cloud-config-findings-current",
      "cloud_config_findings_current",
      ("title", scalar)
          ∷ ("metadata", json)
          ∷ ("summary", json)
          ∷ ("findings", json)
          ∷ ("gaps", json)
          ∷ ("disposition_summary", json)
          ∷ [],
    )
    ∷ (
      "compliance-assessment",
      "compliance_assessment",
      ("metadata", json) ∷ ("coverage", json) ∷ ("results", json) ∷ [],
    )
    ∷ (
      "compliance-mapping",
      "compliance_mapping",
      ("version", integer) ∷ ("note", scalar) ∷ ("controls", json) ∷ ("checks", json) ∷ [],
    )
    ∷ (
      "compliance-scope",
      "compliance_scope",
      ("version", integer) ∷ ("updated", scalar) ∷ ("boundaries", json) ∷ [],
    )
    ∷ ("doc-variance", "doc_variance", ("metadata", json) ∷ ("records", json) ∷ [])
    ∷ (
      "fleet-fix",
      "fleet_fix",
      ("id", scalar)
          ∷ ("pattern_ref", scalar)
          ∷ ("description", scalar)
          ∷ ("matcher", json)
          ∷ ("resolver", json)
          ∷ ("rewrite", json)
          ∷ ("guards", json)
          ∷ ("tests", json)
          ∷ [],
    )
    ∷ (
      "impact-analysis",
      "impact_analysis",
      ("metadata", json) ∷ ("summary", json) ∷ ("repos", json) ∷ [],
    )
    ∷ (
      "isolation-review",
      "isolation_review",
      ("title", scalar)
          ∷ ("metadata", json)
          ∷ ("interfaces", json)
          ∷ ("gaps", json)
          ∷ ("posture", json)
          ∷ ("notes", scalar)
          ∷ [],
    )
    ∷ []

-- ONE_ROW_PROJECTIONS, from org-parameters on.
abbrev pub one_row_second : Projections
one_row_second =
    (
      "org-parameters",
      "org_parameters",
      ("version", integer)
          ∷ ("declared_by", scalar)
          ∷ ("declared_on", scalar)
          ∷ ("note", scalar)
          ∷ ("parameters", json)
          ∷ [],
    )
    ∷ (
      "pqc-blockers",
      "pqc_blockers",
      ("artifact", scalar)
          ∷ ("title", scalar)
          ∷ ("metadata", json)
          ∷ ("executive_summary", json)
          ∷ ("severity_criteria", json)
          ∷ ("findings", json)
          ∷ ("findings_summary", json)
          ∷ ("remediation_roadmap", json)
          ∷ [],
    )
    ∷ (
      "pqc-decision-tree",
      "pqc_decision_tree",
      ("tree_version", scalar)
          ∷ ("plan", scalar)
          ∷ ("schema", scalar)
          ∷ ("provenance_tree", json)
          ∷ ("remediation_effort", json)
          ∷ ("readiness_buckets", json)
          ∷ ("tls_control_crosswalk", json)
          ∷ ("fips_interaction", json)
          ∷ ("pqc_classification_map", json)
          ∷ ("server_side_caveat", json)
          ∷ [],
    )
    ∷ (
      "pqc-facts",
      "pqc_facts",
      ("artifact", scalar)
          ∷ ("repository", scalar)
          ∷ ("stamps", json)
          ∷ ("coverage", json)
          ∷ ("summary", json)
          ∷ ("facts", json)
          ∷ [],
    )
    ∷ (
      "pqc-readiness",
      "pqc_readiness",
      ("title", scalar)
          ∷ ("metadata", json)
          ∷ ("scores", json)
          ∷ ("flags", json)
          ∷ ("provenance_summary", json)
          ∷ ("clock_items", json)
          ∷ ("readiness_bucket", scalar)
          ∷ ("fips_interaction", json)
          ∷ ("runtime_evidence", json)
          ∷ ("server_side_caveats", json)
          ∷ ("notes", scalar)
          ∷ ("remediations", json)
          ∷ [],
    )
    ∷ (
      "remediation",
      "remediation",
      ("title", scalar)
          ∷ ("metadata", json)
          ∷ ("source_findings", json)
          ∷ ("fork", json)
          ∷ ("patch", json)
          ∷ ("checks", json)
          ∷ ("evidence", json)
          ∷ ("revalidation", json)
          ∷ ("pull_request", json)
          ∷ ("summary", json)
          ∷ ("notes", scalar)
          ∷ ("footer", scalar)
          ∷ [],
    )
    ∷ (
      "refuted-register",
      "refuted_register",
      ("source", scalar) ∷ ("sources", json) ∷ ("generated_at", scalar) ∷ ("entries", json) ∷ [],
    )
    ∷ (
      "report",
      "report",
      ("title", scalar)
          ∷ ("metadata", json)
          ∷ ("executive_summary", json)
          ∷ ("severity_criteria", json)
          ∷ ("findings", json)
          ∷ ("findings_summary", json)
          ∷ ("remediation_roadmap", json)
          ∷ ("dependency_audit", json)
          ∷ ("negative_results", json)
          ∷ ("asvs_coverage", json)
          ∷ ("review_surface_coverage", json)
          ∷ ("scanner_correlation", json)
          ∷ ("peach_isolation_review", json)
          ∷ ("disposition_summary", json)
          ∷ ("footer", scalar)
          ∷ [],
    )
    ∷ (
      "risk-rating-methodology",
      "risk_rating_methodology",
      ("methodology", scalar)
          ∷ ("methodology_version", scalar)
          ∷ ("source", scalar)
          ∷ ("documentation", scalar)
          ∷ ("schema", scalar)
          ∷ ("bands", json)
          ∷ ("bucket_thresholds", json)
          ∷ ("likelihood_factors", json)
          ∷ ("impact_factors", json)
          ∷ ("matrix", json)
          ∷ ("fallback", json)
          ∷ ("threat_intel_factor", json)
          ∷ [],
    )
    ∷ (
      "sla-policy",
      "sla_policy",
      ("policy_name", scalar)
          ∷ ("source", json)
          ∷ ("severity_mapping", json)
          ∷ ("clock_start", scalar)
          ∷ ("profiles", json)
          ∷ [],
    )
    ∷ (
      "validation",
      "validation",
      ("title", scalar)
          ∷ ("metadata", json)
          ∷ ("source_reports", json)
          ∷ ("summary", json)
          ∷ ("validated_findings", json)
          ∷ ("attack_chains", json)
          ∷ ("novel_findings", json)
          ∷ ("negative_results", json)
          ∷ ("execution_log_ref", scalar)
          ∷ ("execution_log_sha256", scalar)
          ∷ ("footer", scalar)
          ∷ [],
    )
    ∷ (
      "verification",
      "verification",
      ("title", scalar)
          ∷ ("metadata", json)
          ∷ ("summary", json)
          ∷ ("verified_findings", json)
          ∷ ("regressions", json)
          ∷ ("commit_timeline", json)
          ∷ ("evidence", json)
          ∷ ("recommendations", json)
          ∷ ("review_surface_coverage", json)
          ∷ ("notes", scalar)
          ∷ ("footer", scalar)
          ∷ [],
    )
    ∷ []

unfoldable pub projection_of : Text → Projections → Option (String × List (String × Kind))
projection_of artifact [] = none
projection_of artifact ((name, table, fields) ∷ rest) =
    if is artifact name then some (table, fields) else projection_of artifact rest

-- A json column of None stays None; a scalar is passed on as it is.
unfoldable pub field_value : Kind → Json → Result SqlValue
field_value scalar v = bind v
field_value json v = json_or_none v
field_value integer v = integer_value v

unfoldable pub one_row_columns : Json → List (String × Kind) → List (Result (String × SqlValue))
one_row_columns document [] = []
one_row_columns document ((name, kind) ∷ fields) =
    col name (Base.◌>>=◌ (get name document) (field_value kind)) ∷ one_row_columns document fields

abbrev pub one_row_upsert :
    Option (String × List (String × Kind)) → Json → Text → Text → Exec (Unit {0})
one_row_upsert none document digest bid = raise key_error
one_row_upsert (some (table, fields)) document digest bid =
    upsert table digest bid (one_row_columns document fields)

-- `_project_one_row`
unfoldable pub project_one_row : Text → Json → Text → Text → Exec (Unit {0})
project_one_row artifact document digest bid =
    one_row_upsert (projection_of artifact (one_row_first ++ one_row_second)) document digest bid
