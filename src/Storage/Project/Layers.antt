-- ===== src/Storage/Project/Layers.antt =====
-- store.py: the projections of layer and validation.
use traust_contracts.Base.{
  Text, String, codes, is, Bool, true, false, not, ◌||◌, List, [], ◌∷◌, ◌++◌, Option, none, some,
  if◌then◌else◌, Result, ok, err,
}
use traust_contracts.Base
use traust_contracts.Py.{Json, get, section, each, truthy}
use traust_contracts.Storage.Values.{bind, projected_text, skip_reason, tail_after_slash}
use traust_contracts.Storage.Exec.{Exec, pure, lift, for_each, ◌>>=◌, ◌>>◌}
use traust_contracts.Storage.Project.Columns.{opt, req, enc, flag, col, upsert}

event_row : Text → Text → Json → Exec (Unit {0})
event_row digest bid event = do
  source ← lift (section "source" event)
  actor ← lift (section "actor" source)
  disposition ← lift (section "disposition" event)
  risk ← lift (section "risk_weight" event)
  upsert "layer_event" digest bid (
      col "event_id" (req "event_id" event)
      ∷ col "finding_ref" (req "finding_ref" event)
      ∷ col "fingerprint" (opt "fingerprint" event)
      ∷ col "fingerprint_algo" (opt "fingerprint_algo" event)
      ∷ col "recorded_at" (req "recorded_at" event)
      ∷ col "occurred_at" (opt "occurred_at" event)
      ∷ col "source_type" (opt "type" source)
      ∷ col "source_ref" (opt "ref" source)
      ∷ col "actor_kind" (opt "kind" actor)
      ∷ col "validity" (opt "validity" disposition)
      ∷ col "resolution" (opt "resolution" disposition)
      ∷ col "evidence_grade" (opt "evidence_grade" event)
      ∷ col "auto_accept_tier" (flag "auto_accept_tier" event)
      ∷ col "rationale" (Base.◌>>=◌ (get "rationale" event) projected_text)
      ∷ col "harness_version" (opt "harness_version" event)
      ∷ col "evidence_refs" (enc "evidence_refs" event)
      ∷ col "source_reported_by" (opt "reported_by" source)
      ∷ col "severity" (opt "severity" disposition)
      ∷ col "embargo" (opt "embargo" disposition)
      ∷ col "risk_lambda" (opt "lambda" risk)
      ∷ col "risk_weights_version" (opt "weights_version" risk)
      ∷ col "risk_tenancy_profile" (opt "tenancy_profile" risk)
      ∷ col "risk_profile_source" (opt "profile_source" risk)
      ∷ col "alias" (enc "alias" event)
      ∷ col "finding" (enc "finding" event)
      ∷ col "restatement" (enc "restatement" event)
      ∷ [])

-- `_project_layer_events`
unfoldable pub project_layer_events : Json → Text → Text → Exec (Unit {0})
unfolding event_row
project_layer_events document digest bid = do
  events ← lift (each "events" document)
  for_each events (event_row digest bid)

chain_row : Text → Text → Json → Exec (Unit {0})
chain_row digest bid chain = do
  chain_id ← lift (get "chain_id" chain)
  if not (truthy chain_id)
      then pure tt
      else upsert "attack_chain" digest bid (
          col "chain_id" (bind chain_id)
          ∷ col "name" (opt "name" chain)
          ∷ col "entry_point" (opt "entry_point" chain)
          ∷ col "terminal_asset" (opt "terminal_asset" chain)
          ∷ col "mitre_attack_refs" (enc "mitre_attack_refs" chain)
          ∷ col "steps" (enc "steps" chain)
          ∷ col "verdict" (opt "verdict" chain)
          ∷ col "narrative" (opt "narrative" chain)
          ∷ [])

validated_row : (Json → Text) → Text → Text → Json → Exec (Unit {0})
validated_row show digest bid finding = do
  source_id ← lift (get "source_id" finding)
  if not (truthy source_id)
      then pure tt
      else upsert "validation_finding" digest bid (
          col "source_id" (bind source_id)
          ∷ col "source_finding_id" (tail_after_slash source_id)
          ∷ col "title" (opt "title" finding)
          ∷ col "claimed_severity" (opt "claimed_severity" finding)
          ∷ col "surface" (opt "surface" finding)
          ∷ col "verdict" (opt "verdict" finding)
          ∷ col "skip_reason" (skip_reason show finding)
          ∷ col "technique" (opt "technique" finding)
          ∷ col "observed_impact" (opt "observed_impact" finding)
          ∷ col "evidence_grade" (opt "evidence_grade" finding)
          ∷ col "grade_rationale" (opt "grade_rationale" finding)
          ∷ col "soundness_flag" (opt "soundness_flag" finding)
          ∷ col "severity_validation" (enc "severity_validation" finding)
          ∷ col "deviation_from_claim" (opt "deviation_from_claim" finding)
          ∷ col "rollback_performed" (flag "rollback_performed" finding)
          ∷ col "chain_context" (enc "chain_context" finding)
          ∷ col "not_attempted_reason" (opt "not_attempted_reason" finding)
          ∷ [])

-- `_project_validation_findings`
unfoldable pub project_validation_findings : (Json → Text) → Json → Text → Text → Exec (Unit {0})
unfolding chain_row validated_row
project_validation_findings show document digest bid = do
  chains ← lift (each "attack_chains" document)
  for_each chains (chain_row digest bid)
  findings ← lift (each "validated_findings" document)
  for_each findings (validated_row show digest bid)
