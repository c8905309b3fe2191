-- ===== src/Storage/Project/Frame.antt =====
-- What `_project` of store.py may touch: it only adds projection rows of its own binding.
use traust_contracts.Base.{◌≡◌, refl, Text, String, List, Option, none, some, Result, ok}
use traust_contracts.Py.{Json}
use traust_contracts.Storage.Db.{Db, Row, SqlValue, insert_row}
use traust_contracts.Storage.Exec.Keeps.{
  Keeps, keeps_rules, Keeps-statement, Keeps-lift, Keeps-bind, Keeps-raise,
}
use traust_contracts.Storage.Project.Columns.{upsert, sequence}
use traust_contracts.Storage.Project.OneRow.{Kind, project_one_row, one_row_upsert}
use traust_contracts.Storage.Project.Simple.{
  project_findings, project_triage, project_subjects, project_priv_profile,
  project_remediation_sources, project_compliance_results,
}
use traust_contracts.Storage.Project.Layers.{project_layer_events, project_validation_findings}
use traust_contracts.Storage.Project.Verifications.{
  project_verification, project_cloud_config_findings, project_report_findings,
}
use traust_contracts.Storage.Project.Threats.{project_threats}
use traust_contracts.Storage.Project.Dispatch.{project, project_fan_out}

-- `P` survives each row of the binding `bid` that a projection's upsert adds.
pub record Admits (P : Db → Type 0) (digest bid : Text) : Type 0 where
  pub add :
      (r : Row) (db db' : Db)
      → r.binding_id ≡ bid
      → r.artifact_digest ≡ digest
      → P db
      → insert_row r db ≡ ok db'
      → P db'

module _ {P : Db → Type 0} (digest bid : Text) (a : Admits P digest bid) where
  Keeps-upsert :
      (table : String) (columns : List (Result (String × SqlValue)))
      → Keeps P (upsert table digest bid columns)
  unfolding upsert
  Keeps-upsert table columns =
      Keeps-bind _ _ (Keeps-lift (sequence columns))
        λ values. Keeps-statement (insert_row _) (λ db db' p e. a.add _ db db' refl refl p e)

  one_row_upsert-Keeps :
      (o : Option (String × List (String × Kind))) (d : Json)
      → Keeps P (one_row_upsert o d digest bid)
  one_row_upsert-Keeps none d = Keeps-raise _
  one_row_upsert-Keeps (some (table, fields)) d = Keeps-upsert table _

  project_one_row-Keeps :
      (artifact : Text) (d : Json) → Keeps P (project_one_row artifact d digest bid)
  unfolding project_one_row
  project_one_row-Keeps artifact d = one_row_upsert-Keeps _ d

  project_findings-Keeps : (d : Json) → Keeps P (project_findings d digest bid)
  unfolding project_findings
  project_findings-Keeps d = search (keeps_rules, Keeps-upsert) depth 9

  project_triage-Keeps : (d : Json) → Keeps P (project_triage d digest bid)
  unfolding project_triage
  project_triage-Keeps d = search (keeps_rules, Keeps-upsert) depth 12

  project_subjects-Keeps : (d : Json) → Keeps P (project_subjects d digest bid)
  unfolding project_subjects
  project_subjects-Keeps d = search (keeps_rules, Keeps-upsert) depth 12

  project_priv_profile-Keeps : (d : Json) → Keeps P (project_priv_profile d digest bid)
  unfolding project_priv_profile
  project_priv_profile-Keeps d = search (keeps_rules, Keeps-upsert) depth 12

  project_remediation_sources-Keeps :
      (d : Json) → Keeps P (project_remediation_sources d digest bid)
  unfolding project_remediation_sources
  project_remediation_sources-Keeps d = search (keeps_rules, Keeps-upsert) depth 12

  project_compliance_results-Keeps : (d : Json) → Keeps P (project_compliance_results d digest bid)
  unfolding project_compliance_results
  project_compliance_results-Keeps d = search (keeps_rules, Keeps-upsert) depth 12

  project_layer_events-Keeps : (d : Json) → Keeps P (project_layer_events d digest bid)
  unfolding project_layer_events
  project_layer_events-Keeps d = search (keeps_rules, Keeps-upsert) depth 12

  project_validation_findings-Keeps :
      (show : Json → Text) (d : Json) → Keeps P (project_validation_findings show d digest bid)
  unfolding project_validation_findings
  project_validation_findings-Keeps show d = search (keeps_rules, Keeps-upsert) depth 12

  project_verification-Keeps : (d : Json) → Keeps P (project_verification d digest bid)
  unfolding project_verification
  project_verification-Keeps d = search (keeps_rules, Keeps-upsert) depth 12

  project_cloud_config_findings-Keeps :
      (d : Json) → Keeps P (project_cloud_config_findings d digest bid)
  unfolding project_cloud_config_findings
  project_cloud_config_findings-Keeps d = search (keeps_rules, Keeps-upsert) depth 12

  project_report_findings-Keeps : (d : Json) → Keeps P (project_report_findings d digest bid)
  unfolding project_report_findings
  project_report_findings-Keeps d = search (keeps_rules, Keeps-upsert) depth 12

  project_threats-Keeps :
      (show : Json → Text) (d : Json) → Keeps P (project_threats show d digest bid)
  unfolding project_threats
  project_threats-Keeps show d = search (keeps_rules, Keeps-upsert) depth 30

  ruleset projections = (
    keeps_rules, project_one_row-Keeps, project_findings-Keeps, project_triage-Keeps,
    project_subjects-Keeps, project_priv_profile-Keeps, project_remediation_sources-Keeps,
    project_compliance_results-Keeps, project_layer_events-Keeps, project_validation_findings-Keeps,
    project_verification-Keeps, project_cloud_config_findings-Keeps, project_report_findings-Keeps,
    project_threats-Keeps,
  )

  -- Whatever the artifact, `_project` keeps what survives the rows of its own binding.
  pub project-Keeps :
      (show : Json → Text) (artifact : Text) (d : Json)
      → Keeps P (project show artifact d digest bid)
  unfolding project project_fan_out
  project-Keeps show artifact d = search projections depth 20
