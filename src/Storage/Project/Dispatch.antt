-- ===== src/Storage/Project/Dispatch.antt =====
-- store.py: `_project`.
use traust_contracts.Base.{Text, is, if◌then◌else◌}
use traust_contracts.Py.{Json}
use traust_contracts.Storage.Exec.{Exec, pure, ◌>>◌}
use traust_contracts.Storage.Project.OneRow.{project_one_row}
use traust_contracts.Storage.Project.Simple.{
  project_findings, project_triage, project_subjects, project_priv_profile,
  project_remediation_sources, project_compliance_results,
}
use traust_contracts.Storage.Project.Layers.{project_layer_events, project_validation_findings}
use traust_contracts.Storage.Project.Verifications.{
  project_verification, project_cloud_config_findings, project_report_findings,
}
use traust_contracts.Storage.Project.Threats.{project_threats}

module _ (show : Json → Text) where
  -- What follows the one row of the remaining artifacts.
  unfoldable pub project_fan_out : Text → Json → Text → Text → Exec (Unit {0})
  project_fan_out artifact document digest bid =
      if is artifact "report"
      then project_report_findings document digest bid
      else if is artifact "validation"
      then project_validation_findings show document digest bid
      else if is artifact "compliance-assessment"
      then project_compliance_results document digest bid
      else if is artifact "verification"
      then project_verification document digest bid
      else if is artifact "remediation"
      then project_remediation_sources document digest bid
      else pure tt

  unfoldable pub project : Text → Json → Text → Text → Exec (Unit {0})
  project artifact document digest bid =
      if is artifact "layer"
      then project_layer_events document digest bid
      else if is artifact "vuln-findings"
      then project_findings document digest bid
      else if is artifact "triage"
      then project_triage document digest bid
      else if is artifact "cloud-config-findings-current"
      then (do
        project_one_row artifact document digest bid
        project_cloud_config_findings document digest bid)
      else if is artifact "threat-model"
      then project_threats show document digest bid
      else if is artifact "operator-priv-profile"
      then project_priv_profile document digest bid
      else if is artifact "corpus-registry"
      then project_subjects document digest bid
      else (do
        project_one_row artifact document digest bid
        project_fan_out artifact document digest bid)
