-- ===== src/Frontend/Hooks/Advisor.antt =====
-- hooks/use-advisor.ts: advice, ROT data, labels and feedback.
use trust_vault.Prelude.{[], ◌∷◌, Text, text, truthy_text}
use trust_vault.Sdk.Value.{Value, undefined, str, obj, end, field}
use trust_vault.Frontend.Hooks.Shape.{
  Query, query, Mutation, mutation, name, word, fixed, param, done, error_or,
}

abbrev pub use_recommendations : Query
use_recommendations =
    query (name "recommendations" ∷ []) (fixed "advisor" ∷ fixed "recommendations" ∷ [])

abbrev pub use_compliance_gaps : Query
use_compliance_gaps = query (name "compliance-gaps" ∷ []) (fixed "advisor" ∷ fixed "gaps" ∷ [])

abbrev pub use_run_compliance_assessment : Mutation
use_run_compliance_assessment =
    record (mutation "POST" (fixed "advisor" ∷ fixed "assess" ∷ []) undefined) {
      invalidates =
          (text "recommendations" ∷ [])
          ∷ (text "compliance-gaps" ∷ [])
          ∷ (text "risk-score" ∷ [])
          ∷ (text "assessment-logs" ∷ [])
          ∷ [];
      on_success = done "Compliance assessment completed";
      on_error = error_or "Failed to run compliance assessment";
    }

abbrev pub use_assessment_logs : Query
use_assessment_logs =
    query (name "assessment-logs" ∷ []) (fixed "advisor" ∷ fixed "assessment" ∷ fixed "logs" ∷ [])

abbrev pub use_generate_defense_docket : Value → Mutation
use_generate_defense_docket body =
    record (mutation "POST" (fixed "advisor" ∷ fixed "defense-docket" ∷ []) body) {
      on_success = done "Defense docket generated";
      on_error = error_or "Failed to generate defense docket";
    }

abbrev pub use_playbook : Text → Query
use_playbook issue_type =
    record (query (name "playbook" ∷ word issue_type ∷ [])
      (fixed "advisor" ∷ fixed "playbook" ∷ param issue_type ∷ [])) {
        enabled = truthy_text issue_type;
      }

abbrev pub use_risk_score : Query
use_risk_score = query (name "risk-score" ∷ []) (fixed "advisor" ∷ fixed "risk-score" ∷ [])

abbrev pub use_rot_summary : Query
use_rot_summary = query (name "rot-summary" ∷ []) (fixed "rot" ∷ fixed "summary" ∷ [])

abbrev pub use_rot_datasets : Query
use_rot_datasets = query (name "rot-datasets" ∷ []) (fixed "rot" ∷ fixed "datasets" ∷ [])

abbrev pub use_rot_duplicates : Query
use_rot_duplicates = query (name "rot-duplicates" ∷ []) (fixed "rot" ∷ fixed "duplicates" ∷ [])

abbrev pub use_trigger_rot_scan : Mutation
use_trigger_rot_scan = record (mutation "POST" (fixed "rot" ∷ fixed "scan" ∷ []) undefined) {
  invalidates = (text "rot-summary" ∷ []) ∷ (text "rot-datasets" ∷ []) ∷ [];
  on_success = done "ROT scan started";
  on_error = error_or "Failed to start ROT scan";
}

abbrev pub use_remediate_rot : Value → Mutation
use_remediate_rot body = record (mutation "POST" (fixed "rot" ∷ fixed "remediate" ∷ []) body) {
  invalidates = (text "rot-summary" ∷ []) ∷ (text "rot-datasets" ∷ []) ∷ [];
  on_success = done "ROT remediation started";
  on_error = error_or "Failed to remediate ROT data";
}

abbrev pub use_dataset_label : Text → Query
use_dataset_label dataset_id =
    record (query (name "labels" ∷ word dataset_id ∷ [])
      (fixed "labels" ∷ fixed "datasets" ∷ param dataset_id ∷ [])) {
        enabled = truthy_text dataset_id;
      }

abbrev pub use_assign_label : Text → Text → Mutation
use_assign_label dataset_id label =
    record (mutation "POST" (fixed "labels" ∷ fixed "assign" ∷ [])
      (obj (field "dataset_id" (str dataset_id) (field "label" (str label) end)))) {
        invalidates = (text "labels" ∷ dataset_id ∷ []) ∷ [];
        on_success = done "Label assigned";
        on_error = error_or "Failed to assign label";
      }

abbrev pub use_label_rules : Query
use_label_rules = query (name "label-rules" ∷ []) (fixed "labels" ∷ fixed "rules" ∷ [])

abbrev pub use_create_label_rule : Value → Mutation
use_create_label_rule body = record (mutation "POST" (fixed "labels" ∷ fixed "rules" ∷ []) body) {
  invalidates = (text "label-rules" ∷ []) ∷ [];
  on_success = done "Label rule created";
  on_error = error_or "Failed to create label rule";
}

abbrev pub use_update_label_rule : Text → Text → Text → Mutation
use_update_label_rule id classification label =
    record (mutation "PUT" (fixed "labels" ∷ fixed "rules" ∷ param id ∷ [])
      (obj (field "classification" (str classification) (field "label" (str label) end)))) {
        invalidates = (text "label-rules" ∷ []) ∷ [];
        on_success = done "Label rule updated";
        on_error = error_or "Failed to update label rule";
      }

abbrev pub use_delete_label_rule : Text → Mutation
use_delete_label_rule id =
    record (mutation "DELETE" (fixed "labels" ∷ fixed "rules" ∷ param id ∷ []) undefined) {
      invalidates = (text "label-rules" ∷ []) ∷ [];
      on_success = done "Label rule deleted";
      on_error = error_or "Failed to delete label rule";
    }

abbrev pub use_label_summary : Query
use_label_summary = query (name "label-summary" ∷ []) (fixed "labels" ∷ fixed "summary" ∷ [])

abbrev pub use_submit_correction : Value → Mutation
use_submit_correction body =
    record (mutation "POST" (fixed "feedback" ∷ fixed "correction" ∷ []) body) {
      invalidates = (text "feedback-stats" ∷ []) ∷ [];
      on_success = done "Correction submitted";
      on_error = error_or "Failed to submit correction";
    }

abbrev pub use_submit_confirmation : Value → Mutation
use_submit_confirmation body =
    record (mutation "POST" (fixed "feedback" ∷ fixed "confirmation" ∷ []) body) {
      invalidates = (text "feedback-stats" ∷ []) ∷ [];
      on_success = done "Confirmation submitted";
      on_error = error_or "Failed to submit confirmation";
    }

abbrev pub use_feedback_stats : Query
use_feedback_stats = query (name "feedback-stats" ∷ []) (fixed "feedback" ∷ fixed "stats" ∷ [])

abbrev pub use_create_custom_entity : Value → Mutation
use_create_custom_entity body =
    record (mutation "POST" (fixed "feedback" ∷ fixed "custom-entity" ∷ []) body) {
      invalidates = (text "custom-entities" ∷ []) ∷ [];
      on_success = done "Custom entity created";
      on_error = error_or "Failed to create custom entity";
    }

abbrev pub use_knowledge_cache : Query
use_knowledge_cache =
    query (name "knowledge-cache" ∷ []) (fixed "feedback" ∷ fixed "knowledge-cache" ∷ [])

abbrev pub use_corrections : Query
use_corrections = query (name "corrections" ∷ []) (fixed "feedback" ∷ fixed "corrections" ∷ [])

abbrev pub use_correction_trend : Query
use_correction_trend = query (name "correction-trend" ∷ []) (fixed "feedback" ∷ fixed "trend" ∷ [])

abbrev pub use_custom_entities : Query
use_custom_entities =
    query (name "custom-entities" ∷ []) (fixed "feedback" ∷ fixed "custom-entities" ∷ [])
