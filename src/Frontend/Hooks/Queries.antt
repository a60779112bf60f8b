-- ===== src/Frontend/Hooks/Queries.antt =====
-- The query hooks of hooks/, at their arguments.
use trust_vault.Prelude.{Text, ℕ, Option}
use trust_vault.Sdk.Value.{Fields}
use trust_vault.Frontend.Hooks.Shape.{Query}
use trust_vault.Frontend.Hooks.Advisor.{
  use_recommendations, use_compliance_gaps, use_assessment_logs, use_playbook, use_risk_score,
  use_rot_summary, use_rot_datasets, use_rot_duplicates, use_dataset_label, use_label_rules,
  use_label_summary, use_feedback_stats, use_knowledge_cache, use_corrections, use_correction_trend,
  use_custom_entities,
}
use trust_vault.Frontend.Hooks.Audit.{
  use_audit_trail, use_ai_usage, use_compliance_report, use_lineage, use_system_health,
  use_system_metrics, use_alerts,
}
use trust_vault.Frontend.Hooks.Accounts.{use_current_user, use_users, use_api_keys, use_invitations}
use trust_vault.Frontend.Hooks.Classification.{
  use_classify_stats, use_classification_models, use_classification_rules,
  use_dataset_classification, use_dataset_columns, use_document_classifications,
}
use trust_vault.Frontend.Hooks.Datamap.{
  use_data_map, use_data_map_sources, use_data_map_flows, use_data_map_coverage,
  use_data_map_geography, use_dark_data, use_shadow_it, use_ai_models, use_dataset_lineage,
  use_ai_gov_policies, use_ai_eligibility, use_eligible_datasets, use_model_lineage,
  use_reports as datamap_reports_query, use_analytics_summary, use_analytics_trends,
  use_extract_document,
}
use trust_vault.Frontend.Hooks.Datasources.{
  use_data_sources, use_data_source, use_scan_status, use_scan_logs,
  use_data_source_classification_stats,
}
use trust_vault.Frontend.Hooks.Gate.{use_gate_stats, use_gate_queries}
use trust_vault.Frontend.Hooks.Jobs.{
  use_jobs, use_job, use_job_history, use_integrations, use_integration, use_integration_logs,
  use_notifications, use_webhooks,
}
use trust_vault.Frontend.Hooks.Policies.{use_policies, use_policy, use_governance_stats}
use trust_vault.Frontend.Hooks.Privacy.{
  use_dsars, use_dsar, use_dsar_package, use_pia, use_ropa, use_retention_violations, use_dpias,
  use_dpia, use_consent_records, use_consent_stats,
}
use trust_vault.Frontend.Hooks.Quality.{
  use_quality_score, use_quality_trends, use_quality_dimensions, use_data_profile, use_cdes,
}
use trust_vault.Frontend.Hooks.Remediation.{use_remediation_actions, use_remediation_logs}
use trust_vault.Frontend.Hooks.Reports.{use_reports, use_report}

pub data IsQuery : Query → Type 0 where
  recommendations : IsQuery use_recommendations
  compliance_gaps : IsQuery use_compliance_gaps
  assessment_logs : IsQuery use_assessment_logs
  playbook : (issue_type : Text) → IsQuery (use_playbook issue_type)
  risk_score : IsQuery use_risk_score
  rot_summary : IsQuery use_rot_summary
  rot_datasets : IsQuery use_rot_datasets
  rot_duplicates : IsQuery use_rot_duplicates
  dataset_label : (dataset_id : Text) → IsQuery (use_dataset_label dataset_id)
  label_rules : IsQuery use_label_rules
  label_summary : IsQuery use_label_summary
  feedback_stats : IsQuery use_feedback_stats
  knowledge_cache : IsQuery use_knowledge_cache
  corrections : IsQuery use_corrections
  correction_trend : IsQuery use_correction_trend
  custom_entities : IsQuery use_custom_entities
  audit_trail : (params : Option Fields) → IsQuery (use_audit_trail params)
  ai_usage : (dataset_id : Text) → IsQuery (use_ai_usage dataset_id)
  compliance_report : IsQuery use_compliance_report
  lineage : (dataset_id : Text) → IsQuery (use_lineage dataset_id)
  system_health : IsQuery use_system_health
  system_metrics : IsQuery use_system_metrics
  alerts : IsQuery use_alerts
  current_user : IsQuery use_current_user
  users : IsQuery use_users
  api_keys : IsQuery use_api_keys
  invitations : IsQuery use_invitations
  classify_stats : IsQuery use_classify_stats
  classification_models : IsQuery use_classification_models
  classification_rules : IsQuery use_classification_rules
  dataset_classification : (dataset_id : Text) → IsQuery (use_dataset_classification dataset_id)
  dataset_columns : (dataset_id : Text) → IsQuery (use_dataset_columns dataset_id)
  document_classifications :
      (document_id : Text) → IsQuery (use_document_classifications document_id)
  data_map : IsQuery use_data_map
  data_map_sources : IsQuery use_data_map_sources
  data_map_flows : IsQuery use_data_map_flows
  data_map_coverage : IsQuery use_data_map_coverage
  data_map_geography : IsQuery use_data_map_geography
  dark_data : IsQuery use_dark_data
  shadow_it : IsQuery use_shadow_it
  ai_models : IsQuery use_ai_models
  dataset_lineage : (dataset_id : Text) → IsQuery (use_dataset_lineage dataset_id)
  ai_gov_policies : IsQuery use_ai_gov_policies
  ai_eligibility :
      (dataset_id : Text) (use_case : Option Text)
      → IsQuery (use_ai_eligibility dataset_id use_case)
  eligible_datasets : IsQuery use_eligible_datasets
  model_lineage : (model_id : Text) → IsQuery (use_model_lineage model_id)
  datamap_reports : IsQuery datamap_reports_query
  analytics_summary : IsQuery use_analytics_summary
  analytics_trends : IsQuery use_analytics_trends
  extract_document : IsQuery use_extract_document
  data_sources : IsQuery use_data_sources
  data_source : (id : Text) → IsQuery (use_data_source id)
  scan_status : (id : Text) → IsQuery (use_scan_status id)
  scan_logs : (datasource_id : Text) → IsQuery (use_scan_logs datasource_id)
  data_source_classification_stats :
      (datasource_id : Text) → IsQuery (use_data_source_classification_stats datasource_id)
  gate_stats : IsQuery use_gate_stats
  gate_queries : (limit : ℕ) → IsQuery (use_gate_queries limit)
  jobs : IsQuery use_jobs
  job : (id : Text) → IsQuery (use_job id)
  job_history : (id : Text) → IsQuery (use_job_history id)
  integrations : IsQuery use_integrations
  integration : (id : Text) → IsQuery (use_integration id)
  integration_logs : (id : Text) → IsQuery (use_integration_logs id)
  notifications : IsQuery use_notifications
  webhooks : IsQuery use_webhooks
  policies : IsQuery use_policies
  policy : (id : Text) → IsQuery (use_policy id)
  governance_stats : IsQuery use_governance_stats
  dsars : IsQuery use_dsars
  dsar : (id : Text) → IsQuery (use_dsar id)
  dsar_package : (id : Text) → IsQuery (use_dsar_package id)
  pia : (dataset_id : Text) → IsQuery (use_pia dataset_id)
  ropa : IsQuery use_ropa
  retention_violations : IsQuery use_retention_violations
  dpias : IsQuery use_dpias
  dpia : (id : Text) → IsQuery (use_dpia id)
  consent_records :
      (purpose : Option Text) (status : Option Text) → IsQuery (use_consent_records purpose status)
  consent_stats : IsQuery use_consent_stats
  quality_score : (dataset_id : Text) → IsQuery (use_quality_score dataset_id)
  quality_trends : IsQuery use_quality_trends
  quality_dimensions : IsQuery use_quality_dimensions
  data_profile : (datasource_id : Text) → IsQuery (use_data_profile datasource_id)
  cdes : IsQuery use_cdes
  remediation_actions : IsQuery use_remediation_actions
  remediation_logs : (action_id : Text) → IsQuery (use_remediation_logs action_id)
  reports : IsQuery use_reports
  report : (id : Text) → IsQuery (use_report id)
