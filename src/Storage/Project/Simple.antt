-- ===== src/Storage/Project/Simple.antt =====
-- store.py: the projections of vuln-findings, triage, corpus-registry, operator-priv-profile,
-- remediation and compliance-assessment.
use traust_contracts.Base.{
  Text, String, codes, is, Bool, true, false, not, ◌||◌, List, [], ◌∷◌, ◌++◌, Option, none, some,
  if◌then◌else◌, Result, ok, err,
}
use traust_contracts.Base
use traust_contracts.Py.{Json, get, item, each, iterate, truthy}
use traust_contracts.Storage.Values.{bind, json_or_none}
use traust_contracts.Storage.Exec.{Exec, pure, lift, for_each, ◌>>=◌}
use traust_contracts.Storage.Project.Columns.{opt, req, enc, flag, integral, col, upsert}

finding_row : Json → Text → Text → Json → Exec (Unit {0})
finding_row document digest bid finding = upsert "finding" digest bid (
    col "finding_id" (req "id" finding)
    ∷ col "target" (req "target" document)
    ∷ col "scanned_at" (req "scanned_at" document)
    ∷ col "title" (req "title" finding)
    ∷ col "severity" (req "severity" finding)
    ∷ col "description" (req "description" finding)
    ∷ col "category" (opt "category" finding)
    ∷ col "file" (req "file" finding)
    ∷ col "line" (integral "line" finding)
    ∷ col "cwe" (opt "cwe" finding)
    ∷ col "recommendation" (req "recommendation" finding)
    ∷ col "confidence" (req "confidence" finding)
    ∷ [])

-- The vuln-findings branch of `_project`.
unfoldable pub project_findings : Json → Text → Text → Exec (Unit {0})
unfolding finding_row
project_findings document digest bid = do
  findings ← lift (Base.◌>>=◌ (item "findings" document) iterate)
  for_each findings (finding_row document digest bid)

triage_row : Json → Text → Text → Json → Exec (Unit {0})
triage_row document digest bid finding = do
  votes ← lift (get "vote_breakdown" finding)
  upsert "triage_verdict" digest bid (
      col "finding_id" (req "id" finding)
      ∷ col "source_finding_id" (opt "orig_id" finding)
      ∷ col "triage_completed" (req "triage_completed" document)
      ∷ col "verdict" (req "verdict" finding)
      ∷ col "severity" (opt "severity" finding)
      ∷ col "vote_breakdown" (json_or_none votes)
      ∷ col "rationale" (opt "rationale" finding)
      ∷ [])

-- The triage branch of `_project`.
unfoldable pub project_triage : Json → Text → Text → Exec (Unit {0})
unfolding triage_row
project_triage document digest bid = do
  findings ← lift (Base.◌>>=◌ (item "findings" document) iterate)
  for_each findings (triage_row document digest bid)

subject_row : Text → Text → Json → Exec (Unit {0})
subject_row digest bid subject = upsert "subject_ownership" digest bid (
    col "subject_id" (req "subject_id" subject)
    ∷ col "tree" (req "tree" subject)
    ∷ col "ownership" (req "ownership" subject)
    ∷ col "business_unit" (req "business_unit" subject)
    ∷ col "label" (opt "label" subject)
    ∷ col "product" (opt "product" subject)
    ∷ col "repo_url" (opt "repo_url" subject)
    ∷ col "ref" (opt "ref" subject)
    ∷ col "ref_kind" (opt "ref_kind" subject)
    ∷ col "is_branch_audit" (flag "is_branch_audit" subject)
    ∷ [])

-- The corpus-registry branch of `_project`.
unfoldable pub project_subjects : Json → Text → Text → Exec (Unit {0})
unfolding subject_row
project_subjects document digest bid = do
  subjects ← lift (each "subjects" document)
  for_each subjects (subject_row digest bid)

-- `_project_priv_profile`
unfoldable pub project_priv_profile : Json → Text → Text → Exec (Unit {0})
project_priv_profile document digest bid = upsert "priv_profile" digest bid (
    col "repo" (req "repo" document)
    ∷ col "tier" (opt "tier" document)
    ∷ col "workloads" (enc "workloads" document)
    ∷ col "rbac_rules" (enc "rbac_rules" document)
    ∷ col "rbac_flags" (enc "rbac_flags" document)
    ∷ col "scc_requests" (enc "scc_requests" document)
    ∷ col "sccs_shipped" (enc "sccs_shipped" document)
    ∷ col "namespaces" (enc "namespaces" document)
    ∷ col "install_modes" (enc "install_modes" document)
    ∷ col "operatorgroups" (enc "operatorgroups" document)
    ∷ col "tier2_required_vs_granted" (enc "tier2_required_vs_granted" document)
    ∷ col "example_or_test_manifests_excluded" (enc "example_or_test_manifests_excluded" document)
    ∷ col "summary" (enc "summary" document)
    ∷ [])

source_row : Text → Text → Json → Exec (Unit {0})
source_row digest bid source = do
  finding_ref ← lift (get "finding_ref" source)
  if not (truthy finding_ref)
      then pure tt
      else upsert "remediation_source" digest bid (
          col "finding_ref" (bind finding_ref)
          ∷ col "title" (opt "title" source)
          ∷ col "severity" (opt "severity" source)
          ∷ col "cwes" (enc "cwes" source)
          ∷ col "locations" (enc "locations" source)
          ∷ col "triage_confidence" (opt "triage_confidence" source)
          ∷ col "validation_verdict" (opt "validation_verdict" source)
          ∷ col "audit_report_path" (opt "audit_report_path" source)
          ∷ col "triage_report_path" (opt "triage_report_path" source)
          ∷ col "validation_report_path" (opt "validation_report_path" source)
          ∷ [])

-- `_project_remediation_sources`
unfoldable pub project_remediation_sources : Json → Text → Text → Exec (Unit {0})
unfolding source_row
project_remediation_sources document digest bid = do
  sources ← lift (each "source_findings" document)
  for_each sources (source_row digest bid)

result_row : Text → Text → Json → Exec (Unit {0})
result_row digest bid result = do
  framework ← lift (get "framework" result)
  control_id ← lift (get "control_id" result)
  if not (truthy framework) || not (truthy control_id)
      then pure tt
      else upsert "compliance_result" digest bid (
          col "framework" (bind framework)
          ∷ col "control_id" (bind control_id)
          ∷ col "title" (opt "title" result)
          ∷ col "classification" (opt "classification" result)
          ∷ col "verdict" (opt "verdict" result)
          ∷ col "verdict_source" (opt "verdict_source" result)
          ∷ col "check_id" (opt "check_id" result)
          ∷ col "reason" (opt "reason" result)
          ∷ col "narrative" (opt "narrative" result)
          ∷ col "evidence" (enc "evidence" result)
          ∷ col "override" (enc "override" result)
          ∷ col "n_pass_agreement" (enc "n_pass_agreement" result)
          ∷ [])

-- `_project_compliance_results`
unfoldable pub project_compliance_results : Json → Text → Text → Exec (Unit {0})
unfolding result_row
project_compliance_results document digest bid = do
  results ← lift (each "results" document)
  for_each results (result_row digest bid)
