-- ===== src/Frontend/Hooks/Privacy.antt =====
-- hooks/use-privacy.ts: data subject requests, assessments and consent.
use trust_vault.Prelude.{
  false, Option, [], ◌∷◌, ◌++◌, Text, text, truthy_text, text_eq, if◌then◌else◌,
}
use trust_vault.Sdk.Value.{Value, undefined, str, obj, end, field, opt}
use trust_vault.Sdk.Gate.Audit.{Params, to_query, when_text}
use trust_vault.Frontend.Hooks.Shape.{
  Query, query, Mutation, mutation, name, word, optional, fixed, param, done, error_or, or_empty,
  success,
}

abbrev pub consent_params : Option Text → Option Text → Params
consent_params purpose status = when_text "purpose" purpose (when_text "status" status [])

-- `statusMessages[status] || 'Status updated'`
abbrev pub status_message : Text → Text
status_message status =
    if text_eq status (text "approved")
    then text "DPIA approved by DPO"
    else if text_eq status (text "rejected")
    then text "DPIA rejected"
    else if text_eq status (text "pending_dpo")
    then text "Submitted for DPO review"
    else if text_eq status (text "completed")
    then text "DPIA completed"
    else text "Status updated"

abbrev pub use_dsars : Query
use_dsars = query (name "dsars" ∷ []) (fixed "privacy" ∷ fixed "dsar" ∷ [])

abbrev pub use_dsar : Text → Query
use_dsar id =
    record (query (name "dsars" ∷ word id ∷ []) (fixed "privacy" ∷ fixed "dsar" ∷ param id ∷ [])) {
      enabled = truthy_text id;
    }

abbrev pub use_create_dsar : Value → Mutation
use_create_dsar body = record (mutation "POST" (fixed "privacy" ∷ fixed "dsar" ∷ []) body) {
  invalidates = (text "dsars" ∷ []) ∷ [];
  on_success = done "DSAR created successfully";
  on_error = error_or "Failed to create DSAR";
}

abbrev pub use_dsar_package : Text → Query
use_dsar_package id =
    record (query (name "dsars" ∷ word id ∷ name "package" ∷ [])
      (fixed "privacy" ∷ fixed "dsar" ∷ param id ∷ fixed "package" ∷ [])) { enabled = false }

abbrev pub use_update_dsar : Text → Option Text → Mutation
use_update_dsar id status =
    record (mutation "PUT" (fixed "privacy" ∷ fixed "dsar" ∷ param id ∷ [])
      (obj (field "status" (opt str status) end))) {
        invalidates = (text "dsars" ∷ []) ∷ (text "dsars" ∷ id ∷ []) ∷ [];
        on_success = done "DSAR updated successfully";
        on_error = error_or "Failed to update DSAR";
      }

abbrev pub use_delete_dsar : Text → Mutation
use_delete_dsar id =
    record (mutation "DELETE" (fixed "privacy" ∷ fixed "dsar" ∷ param id ∷ []) undefined) {
      invalidates = (text "dsars" ∷ []) ∷ [];
      on_success = done "DSAR deleted successfully";
      on_error = error_or "Failed to delete DSAR";
    }

abbrev pub use_generate_pia : Text → Mutation
use_generate_pia dataset_id =
    record (mutation "POST" (fixed "privacy" ∷ fixed "pia" ∷ [])
      (obj (field "dataset_id" (str dataset_id) end))) {
        on_success = done "PIA generated successfully";
        on_error = error_or "Failed to generate PIA";
      }

abbrev pub use_pia : Text → Query
use_pia dataset_id =
    record (query (name "pia" ∷ word dataset_id ∷ [])
      (fixed "privacy" ∷ fixed "pia" ∷ param dataset_id ∷ [])) { enabled = truthy_text dataset_id }

abbrev pub use_ropa : Query
use_ropa = query (name "ropa" ∷ []) (fixed "privacy" ∷ fixed "ropa" ∷ [])

abbrev pub use_create_ropa : Value → Mutation
use_create_ropa body = record (mutation "POST" (fixed "privacy" ∷ fixed "ropa" ∷ []) body) {
  invalidates = (text "ropa" ∷ []) ∷ [];
  on_success = done "RoPA entry created";
  on_error = error_or "Failed to create RoPA entry";
}

abbrev pub use_record_consent : Value → Mutation
use_record_consent body = record (mutation "POST" (fixed "privacy" ∷ fixed "consent" ∷ []) body) {
  on_success = done "Consent recorded";
  on_error = error_or "Failed to record consent";
}

abbrev pub use_withdraw_consent : Text → Mutation
use_withdraw_consent subject_id =
    record (mutation "DELETE" (fixed "privacy" ∷ fixed "consent" ∷ param subject_id ∷ [])
      undefined) {
        on_success = done "Consent withdrawn";
        on_error = error_or "Failed to withdraw consent";
      }

abbrev pub use_retention_violations : Query
use_retention_violations =
    query (name "retention-violations" ∷ [])
      (fixed "privacy" ∷ fixed "retention" ∷ fixed "violations" ∷ [])

abbrev pub use_set_retention_policy : Value → Mutation
use_set_retention_policy body =
    record (mutation "POST" (fixed "privacy" ∷ fixed "retention" ∷ fixed "policies" ∷ []) body) {
      on_success = done "Retention policy set";
      on_error = error_or "Failed to set retention policy";
    }

abbrev pub use_dpias : Query
use_dpias = record (query (name "dpias" ∷ []) (fixed "privacy" ∷ fixed "dpia" ∷ [])) {
  read = or_empty;
}

abbrev pub use_dpia : Text → Query
use_dpia id =
    record (query (name "dpias" ∷ word id ∷ []) (fixed "privacy" ∷ fixed "dpia" ∷ param id ∷ [])) {
      enabled = truthy_text id;
    }

abbrev pub use_create_dpia : Value → Mutation
use_create_dpia body = record (mutation "POST" (fixed "privacy" ∷ fixed "dpia" ∷ []) body) {
  invalidates = (text "dpias" ∷ []) ∷ [];
  on_success = done "DPIA created";
  on_error = error_or "Failed to create DPIA";
}

abbrev pub use_update_dpia_step : Text → Text → Value → Mutation
use_update_dpia_step id step body =
    record (mutation "PUT"
      (fixed "privacy" ∷ fixed "dpia" ∷ param id ∷ fixed "step" ∷ param step ∷ []) body) {
        invalidates = (text "dpias" ∷ id ∷ []) ∷ (text "dpias" ∷ []) ∷ [];
        on_success = done "Step updated";
        on_error = error_or "Failed to update step";
      }

abbrev pub use_update_dpia_status : Text → Text → Option Text → Mutation
use_update_dpia_status id status notes =
    record (mutation "PUT" (fixed "privacy" ∷ fixed "dpia" ∷ param id ∷ fixed "status" ∷ [])
      (obj (field "status" (str status) (field "notes" (opt str notes) end)))) {
        invalidates = (text "dpias" ∷ id ∷ []) ∷ (text "dpias" ∷ []) ∷ [];
        on_success = λ v. success (str (status_message status)) ∷ [];
        on_error = error_or "Failed to update status";
      }

abbrev pub use_consent_records : Option Text → Option Text → Query
use_consent_records purpose status =
    record (query (name "consent-records" ∷ optional purpose ∷ optional status ∷ [])
      (fixed "privacy" ∷ fixed "consent" ∷ fixed "records" ∷ [])) {
        read = or_empty;
        search = text "?" ++ to_query (consent_params purpose status);
      }

abbrev pub use_consent_stats : Query
use_consent_stats =
    query (name "consent-stats" ∷ []) (fixed "privacy" ∷ fixed "consent" ∷ fixed "stats" ∷ [])

abbrev pub use_record_consent_v2 : Value → Mutation
use_record_consent_v2 body =
    record (mutation "POST" (fixed "privacy" ∷ fixed "consent" ∷ fixed "record" ∷ []) body) {
      invalidates = (text "consent-records" ∷ []) ∷ (text "consent-stats" ∷ []) ∷ [];
      on_success = done "Consent recorded";
      on_error = error_or "Failed to record consent";
    }

abbrev pub use_withdraw_consent_v2 : Text → Mutation
use_withdraw_consent_v2 subject_id =
    record (mutation "POST"
      (fixed "privacy" ∷ fixed "consent" ∷ fixed "withdraw" ∷ param subject_id ∷ []) (obj end)) {
        invalidates = (text "consent-records" ∷ []) ∷ (text "consent-stats" ∷ []) ∷ [];
        on_success = done "Consent withdrawn";
        on_error = error_or "Failed to withdraw consent";
      }
