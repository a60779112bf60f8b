-- ===== src/Frontend/Hooks/Mutations.antt =====
-- The mutation hooks of hooks/, at their arguments, but for
-- login and logout.
use trust_vault.Prelude.{Text, Option}
use trust_vault.Sdk.Value.{Value}
use trust_vault.Frontend.Hooks.Shape.{Mutation}
use trust_vault.Frontend.Hooks.Advisor.{
  use_run_compliance_assessment, use_generate_defense_docket, use_trigger_rot_scan,
  use_remediate_rot, use_assign_label, use_create_label_rule, use_update_label_rule,
  use_delete_label_rule, use_submit_correction, use_submit_confirmation, use_create_custom_entity,
}
use trust_vault.Frontend.Hooks.Audit.{use_create_alert_rule}
use trust_vault.Frontend.Hooks.Accounts.{
  use_create_user, use_delete_user, use_update_profile, use_create_api_key, use_delete_api_key,
  use_create_invitation, use_cancel_invitation, use_resend_invitation,
}
use trust_vault.Frontend.Hooks.Classification.{
  use_classify_text, use_classify_dataset, use_create_classification_rule,
  use_delete_classification_rule, use_reclassify_dataset, use_classify_document,
}
use trust_vault.Frontend.Hooks.Datamap.{use_check_eligibility}
use trust_vault.Frontend.Hooks.Datasources.{
  use_create_data_source, use_update_data_source, use_delete_data_source, use_trigger_scan,
}
use trust_vault.Frontend.Hooks.Gate.{use_gate_query, use_gate_retrieve, use_gate_validate}
use trust_vault.Frontend.Hooks.Jobs.{
  use_create_job, use_update_job, use_delete_job, use_run_job_now, use_create_integration,
  use_update_integration, use_delete_integration, use_test_integration, use_sync_integration,
  use_mark_notification_read, use_mark_all_notifications_read, use_delete_notification,
  use_create_webhook, use_delete_webhook,
}
use trust_vault.Frontend.Hooks.Policies.{
  use_create_policy, use_update_policy, use_delete_policy, use_evaluate_policy,
}
use trust_vault.Frontend.Hooks.Privacy.{
  use_create_dsar, use_update_dsar, use_delete_dsar, use_generate_pia, use_create_ropa,
  use_record_consent, use_withdraw_consent, use_set_retention_policy, use_create_dpia,
  use_update_dpia_step, use_update_dpia_status, use_record_consent_v2, use_withdraw_consent_v2,
}
use trust_vault.Frontend.Hooks.Quality.{
  use_assess_quality, use_set_quality_threshold, use_auto_profile, use_create_cde, use_delete_cde,
}
use trust_vault.Frontend.Hooks.Remediation.{
  use_execute_remediation_action, use_create_remediation_action,
}
use trust_vault.Frontend.Hooks.Reports.{use_generate_report}

pub data IsMutation : Mutation → Type 0 where
  run_compliance_assessment : IsMutation use_run_compliance_assessment
  generate_defense_docket : (body : Value) → IsMutation (use_generate_defense_docket body)
  trigger_rot_scan : IsMutation use_trigger_rot_scan
  remediate_rot : (body : Value) → IsMutation (use_remediate_rot body)
  assign_label : (dataset_id : Text) (label : Text) → IsMutation (use_assign_label dataset_id label)
  create_label_rule : (body : Value) → IsMutation (use_create_label_rule body)
  update_label_rule :
      (id : Text) (classification : Text) (label : Text)
      → IsMutation (use_update_label_rule id classification label)
  delete_label_rule : (id : Text) → IsMutation (use_delete_label_rule id)
  submit_correction : (body : Value) → IsMutation (use_submit_correction body)
  submit_confirmation : (body : Value) → IsMutation (use_submit_confirmation body)
  create_custom_entity : (body : Value) → IsMutation (use_create_custom_entity body)
  create_alert_rule : (body : Value) → IsMutation (use_create_alert_rule body)
  create_user : (body : Value) → IsMutation (use_create_user body)
  delete_user : (id : Text) → IsMutation (use_delete_user id)
  update_profile : (body : Value) → IsMutation (use_update_profile body)
  create_api_key : (body : Value) → IsMutation (use_create_api_key body)
  delete_api_key : (id : Text) → IsMutation (use_delete_api_key id)
  create_invitation : (body : Value) → IsMutation (use_create_invitation body)
  cancel_invitation : (id : Text) → IsMutation (use_cancel_invitation id)
  resend_invitation : (id : Text) → IsMutation (use_resend_invitation id)
  classify_text : (body : Value) → IsMutation (use_classify_text body)
  classify_dataset : (body : Value) → IsMutation (use_classify_dataset body)
  create_classification_rule : (body : Value) → IsMutation (use_create_classification_rule body)
  delete_classification_rule : (id : Text) → IsMutation (use_delete_classification_rule id)
  reclassify_dataset : (dataset_id : Text) → IsMutation (use_reclassify_dataset dataset_id)
  classify_document :
      (document_id : Text) (document_name : Option Text) (document_text : Text)
      → IsMutation (use_classify_document document_id document_name document_text)
  check_eligibility : (body : Value) → IsMutation (use_check_eligibility body)
  create_data_source : (body : Value) → IsMutation (use_create_data_source body)
  update_data_source : (id : Text) (body : Value) → IsMutation (use_update_data_source id body)
  delete_data_source : (id : Text) → IsMutation (use_delete_data_source id)
  trigger_scan : (id : Text) → IsMutation (use_trigger_scan id)
  gate_query : (body : Value) → IsMutation (use_gate_query body)
  gate_retrieve : (body : Value) → IsMutation (use_gate_retrieve body)
  gate_validate : (body : Value) → IsMutation (use_gate_validate body)
  create_job : (body : Value) → IsMutation (use_create_job body)
  update_job : (id : Text) (body : Value) → IsMutation (use_update_job id body)
  delete_job : (id : Text) → IsMutation (use_delete_job id)
  run_job_now : (id : Text) → IsMutation (use_run_job_now id)
  create_integration : (body : Value) → IsMutation (use_create_integration body)
  update_integration : (id : Text) (body : Value) → IsMutation (use_update_integration id body)
  delete_integration : (id : Text) → IsMutation (use_delete_integration id)
  test_integration : (id : Text) → IsMutation (use_test_integration id)
  sync_integration : (id : Text) → IsMutation (use_sync_integration id)
  mark_notification_read : (id : Text) → IsMutation (use_mark_notification_read id)
  mark_all_notifications_read : IsMutation use_mark_all_notifications_read
  delete_notification : (id : Text) → IsMutation (use_delete_notification id)
  create_webhook : (body : Value) → IsMutation (use_create_webhook body)
  delete_webhook : (id : Text) → IsMutation (use_delete_webhook id)
  create_policy : (body : Value) → IsMutation (use_create_policy body)
  update_policy : (id : Text) (body : Value) → IsMutation (use_update_policy id body)
  delete_policy : (id : Text) → IsMutation (use_delete_policy id)
  evaluate_policy : (body : Value) → IsMutation (use_evaluate_policy body)
  create_dsar : (body : Value) → IsMutation (use_create_dsar body)
  update_dsar : (id : Text) (status : Option Text) → IsMutation (use_update_dsar id status)
  delete_dsar : (id : Text) → IsMutation (use_delete_dsar id)
  generate_pia : (dataset_id : Text) → IsMutation (use_generate_pia dataset_id)
  create_ropa : (body : Value) → IsMutation (use_create_ropa body)
  record_consent : (body : Value) → IsMutation (use_record_consent body)
  withdraw_consent : (subject_id : Text) → IsMutation (use_withdraw_consent subject_id)
  set_retention_policy : (body : Value) → IsMutation (use_set_retention_policy body)
  create_dpia : (body : Value) → IsMutation (use_create_dpia body)
  update_dpia_step :
      (id : Text) (step : Text) (body : Value) → IsMutation (use_update_dpia_step id step body)
  update_dpia_status :
      (id : Text) (status : Text) (notes : Option Text)
      → IsMutation (use_update_dpia_status id status notes)
  record_consent_v2 : (body : Value) → IsMutation (use_record_consent_v2 body)
  withdraw_consent_v2 : (subject_id : Text) → IsMutation (use_withdraw_consent_v2 subject_id)
  assess_quality : (dataset_id : Text) → IsMutation (use_assess_quality dataset_id)
  set_quality_threshold : (body : Value) → IsMutation (use_set_quality_threshold body)
  auto_profile : (datasource_id : Text) → IsMutation (use_auto_profile datasource_id)
  create_cde : (body : Value) → IsMutation (use_create_cde body)
  delete_cde : (id : Text) → IsMutation (use_delete_cde id)
  execute_remediation_action : (id : Text) → IsMutation (use_execute_remediation_action id)
  create_remediation_action : (body : Value) → IsMutation (use_create_remediation_action body)
  generate_report : (body : Value) → IsMutation (use_generate_report body)
