-- ===== src/Storage/Project/Verifications.antt =====
-- store.py: the projections of verification, and of the findings of cloud-config-findings-current
-- and report.
use traust_contracts.Base.{Text, not, [], ◌∷◌, if◌then◌else◌}
use traust_contracts.Py.{Json, get, section, each, truthy}
use traust_contracts.Storage.Values.{bind, json_or_none}
use traust_contracts.Storage.Exec.{Exec, pure, lift, for_each, ◌>>=◌, ◌>>◌}
use traust_contracts.Storage.Project.Columns.{opt, req, enc, flag, col, upsert}

verified_row : Text → Text → Json → Exec (Unit {0})
verified_row digest bid finding = do
  original_id ← lift (get "original_id" finding)
  if not (truthy original_id) then pure tt else do
    evidence ← lift (section "evidence" finding)
    upsert "verification_finding" digest bid (
        col "original_id" (bind original_id)
        ∷ col "original_title" (opt "original_title" finding)
        ∷ col "original_severity" (opt "original_severity" finding)
        ∷ col "verdict" (opt "verdict" finding)
        ∷ col "remediation_commits" (enc "remediation_commits" finding)
        ∷ col "unattributed" (flag "unattributed" finding)
        ∷ col "evidence_explanation" (opt "explanation" evidence)
        ∷ col "evidence_framework_reference" (opt "framework_reference" evidence)
        ∷ col "evidence_original_code" (opt "original_code" evidence)
        ∷ col "evidence_patched_code" (opt "patched_code" evidence)
        ∷ col "disposition_rationale" (opt "disposition_rationale" finding)
        ∷ col "residual_risk" (opt "residual_risk" finding)
        ∷ col "residual_severity" (opt "residual_severity" finding)
        ∷ col "cross_repo" (enc "cross_repo" finding)
        ∷ [])

regression_row : Text → Text → Json → Exec (Unit {0})
regression_row digest bid regression = do
  regression_id ← lift (get "id" regression)
  if not (truthy regression_id)
      then pure tt
      else upsert "verification_regression" digest bid (
          col "regression_id" (bind regression_id)
          ∷ col "title" (opt "title" regression)
          ∷ col "severity" (opt "severity" regression)
          ∷ col "cwes" (enc "cwes" regression)
          ∷ col "cvss" (enc "cvss" regression)
          ∷ col "locations" (enc "locations" regression)
          ∷ col "description" (opt "description" regression)
          ∷ col "remediation" (opt "remediation" regression)
          ∷ col "evidence" (enc "evidence" regression)
          ∷ col "attack_pattern" (opt "attack_pattern" regression)
          ∷ col "category" (opt "category" regression)
          ∷ col "introduced_by" (opt "introduced_by" regression)
          ∷ col "routed_id" (opt "routed_id" regression)
          ∷ col "fingerprint" (opt "fingerprint" regression)
          ∷ col "fingerprint_algo" (opt "fingerprint_algo" regression)
          ∷ [])

-- `_project_verification`
unfoldable pub project_verification : Json → Text → Text → Exec (Unit {0})
unfolding verified_row regression_row
project_verification document digest bid = do
  findings ← lift (each "verified_findings" document)
  for_each findings (verified_row digest bid)
  regressions ← lift (each "regressions" document)
  for_each regressions (regression_row digest bid)

cloud_config_row : Text → Text → Json → Exec (Unit {0})
cloud_config_row digest bid finding = do
  disposition ← lift (section "disposition" finding)
  override ← lift (get "severity_override" disposition)
  upsert "cloud_config_finding" digest bid (
      col "finding_id" (req "id" finding)
      ∷ col "title" (opt "title" finding)
      ∷ col "severity" (opt "severity" finding)
      ∷ col "fingerprint" (opt "fingerprint" finding)
      ∷ col "validation_status" (opt "validation_status" finding)
      ∷ col "check_id" (opt "check_id" finding)
      ∷ col "framework" (opt "framework" finding)
      ∷ col "provider" (opt "provider" finding)
      ∷ col "status" (opt "status" finding)
      ∷ col "scanner_severity" (opt "scanner_severity" finding)
      ∷ col "validity" (opt "validity" disposition)
      ∷ col "resolution" (opt "resolution" disposition)
      ∷ col "assurance" (opt "assurance" disposition)
      ∷ col "last_updated" (opt "last_updated" disposition)
      ∷ col "conflict" (flag "conflict" disposition)
      ∷ col "fp_overridden" (flag "fp_overridden" disposition)
      ∷ col "fp_reassertion_blocked" (flag "fp_reassertion_blocked" disposition)
      ∷ col "refuted_awaiting_signoff" (flag "refuted_awaiting_signoff" disposition)
      ∷ col "severity_override" (json_or_none override)
      ∷ col "rationale" (opt "rationale" finding)
      ∷ col "remediation" (opt "remediation" finding)
      ∷ col "cwe" (opt "cwe" finding)
      ∷ col "control_refs" (enc "control_refs" finding)
      ∷ col "locations" (enc "locations" finding)
      ∷ col "fact_ids" (enc "fact_ids" finding)
      ∷ col "external_correlation" (enc "external_correlation" finding)
      ∷ col "effective_severity" (opt "effective_severity" finding)
      ∷ col "fingerprint_algo" (opt "fingerprint_algo" finding)
      ∷ col "isolation_boundary" (opt "isolation_boundary" finding)
      ∷ col "isolation_dimensions" (enc "isolation_dimensions" finding)
      ∷ [])

-- `_project_cloud_config_findings`
unfoldable pub project_cloud_config_findings : Json → Text → Text → Exec (Unit {0})
unfolding cloud_config_row
project_cloud_config_findings document digest bid = do
  findings ← lift (each "findings" document)
  for_each findings (cloud_config_row digest bid)

report_row : Text → Text → Json → Exec (Unit {0})
report_row digest bid finding = do
  disposition ← lift (section "disposition" finding)
  override ← lift (get "severity_override" disposition)
  upsert "report_finding" digest bid (
      col "finding_id" (req "id" finding)
      ∷ col "title" (opt "title" finding)
      ∷ col "severity" (opt "severity" finding)
      ∷ col "fingerprint" (opt "fingerprint" finding)
      ∷ col "validation_status" (opt "validation_status" finding)
      ∷ col "validity" (opt "validity" disposition)
      ∷ col "resolution" (opt "resolution" disposition)
      ∷ col "assurance" (opt "assurance" disposition)
      ∷ col "last_updated" (opt "last_updated" disposition)
      ∷ col "conflict" (flag "conflict" disposition)
      ∷ col "fp_overridden" (flag "fp_overridden" disposition)
      ∷ col "fp_reassertion_blocked" (flag "fp_reassertion_blocked" disposition)
      ∷ col "refuted_awaiting_signoff" (flag "refuted_awaiting_signoff" disposition)
      ∷ col "severity_override" (json_or_none override)
      ∷ col "description" (opt "description" finding)
      ∷ col "remediation" (opt "remediation" finding)
      ∷ col "category" (opt "category" finding)
      ∷ col "cwes" (enc "cwes" finding)
      ∷ col "locations" (enc "locations" finding)
      ∷ col "asvs_references" (enc "asvs_references" finding)
      ∷ col "peach_references" (enc "peach_references" finding)
      ∷ col "owasp_llm_references" (enc "owasp_llm_references" finding)
      ∷ col "capec" (enc "capec" finding)
      ∷ col "attack_pattern" (opt "attack_pattern" finding)
      ∷ col "cvss" (enc "cvss" finding)
      ∷ col "evidence" (enc "evidence" finding)
      ∷ col "effective_severity" (opt "effective_severity" finding)
      ∷ col "origin" (opt "origin" finding)
      ∷ col "source_findings" (enc "source_findings" finding)
      ∷ col "passes" (enc "passes" finding)
      ∷ col "remediation_effort" (opt "remediation_effort" finding)
      ∷ col "blocked_external" (flag "blocked_external" finding)
      ∷ col "pqc_classification" (opt "pqc_classification" finding)
      ∷ col "fingerprint_algo" (opt "fingerprint_algo" finding)
      ∷ col "isolation_boundary" (opt "isolation_boundary" finding)
      ∷ col "isolation_dimensions" (enc "isolation_dimensions" finding)
      ∷ col "dependency" (enc "dependency" finding)
      ∷ [])

-- `_project_report_findings`
unfoldable pub project_report_findings : Json → Text → Text → Exec (Unit {0})
unfolding report_row
project_report_findings document digest bid = do
  findings ← lift (each "findings" document)
  for_each findings (report_row digest bid)
