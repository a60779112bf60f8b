-- ===== src/Frontend/Hooks/Jobs.antt =====
-- hooks/use-jobs.ts: jobs, integrations, notifications and webhooks.
use trust_vault.Prelude.{[], ◌∷◌, Text, text, truthy_text}
use trust_vault.Sdk.Value.{Value, undefined}
use trust_vault.Frontend.Hooks.Shape.{
  Query, query, Mutation, mutation, name, word, fixed, param, done, error_or,
}

abbrev pub use_jobs : Query
use_jobs = query (name "jobs" ∷ []) (fixed "jobs" ∷ [])

abbrev pub use_job : Text → Query
use_job id = record (query (name "jobs" ∷ word id ∷ []) (fixed "jobs" ∷ param id ∷ [])) {
  enabled = truthy_text id;
}

abbrev pub use_create_job : Value → Mutation
use_create_job body = record (mutation "POST" (fixed "jobs" ∷ []) body) {
  invalidates = (text "jobs" ∷ []) ∷ [];
  on_success = done "Job created successfully";
  on_error = error_or "Failed to create job";
}

abbrev pub use_update_job : Text → Value → Mutation
use_update_job id body = record (mutation "PUT" (fixed "jobs" ∷ param id ∷ []) body) {
  invalidates = (text "jobs" ∷ []) ∷ (text "jobs" ∷ id ∷ []) ∷ [];
  on_success = done "Job updated successfully";
  on_error = error_or "Failed to update job";
}

abbrev pub use_delete_job : Text → Mutation
use_delete_job id = record (mutation "DELETE" (fixed "jobs" ∷ param id ∷ []) undefined) {
  invalidates = (text "jobs" ∷ []) ∷ [];
  on_success = done "Job deleted successfully";
  on_error = error_or "Failed to delete job";
}

abbrev pub use_run_job_now : Text → Mutation
use_run_job_now id =
    record (mutation "POST" (fixed "jobs" ∷ param id ∷ fixed "run-now" ∷ []) undefined) {
      invalidates =
          (text "jobs" ∷ [])
          ∷ (text "jobs" ∷ id ∷ [])
          ∷ (text "jobs" ∷ id ∷ text "history" ∷ [])
          ∷ [];
      on_success = done "Job started";
      on_error = error_or "Failed to run job";
    }

abbrev pub use_job_history : Text → Query
use_job_history id =
    record (query (name "jobs" ∷ word id ∷ name "history" ∷ [])
      (fixed "jobs" ∷ param id ∷ fixed "history" ∷ [])) { enabled = truthy_text id }

abbrev pub use_integrations : Query
use_integrations = query (name "integrations" ∷ []) (fixed "integrations" ∷ [])

abbrev pub use_integration : Text → Query
use_integration id =
    record (query (name "integrations" ∷ word id ∷ []) (fixed "integrations" ∷ param id ∷ [])) {
      enabled = truthy_text id;
    }

abbrev pub use_create_integration : Value → Mutation
use_create_integration body = record (mutation "POST" (fixed "integrations" ∷ []) body) {
  invalidates = (text "integrations" ∷ []) ∷ [];
  on_success = done "Integration created successfully";
  on_error = error_or "Failed to create integration";
}

abbrev pub use_update_integration : Text → Value → Mutation
use_update_integration id body =
    record (mutation "PUT" (fixed "integrations" ∷ param id ∷ []) body) {
      invalidates = (text "integrations" ∷ []) ∷ (text "integrations" ∷ id ∷ []) ∷ [];
      on_success = done "Integration updated successfully";
      on_error = error_or "Failed to update integration";
    }

abbrev pub use_delete_integration : Text → Mutation
use_delete_integration id =
    record (mutation "DELETE" (fixed "integrations" ∷ param id ∷ []) undefined) {
      invalidates = (text "integrations" ∷ []) ∷ [];
      on_success = done "Integration deleted successfully";
      on_error = error_or "Failed to delete integration";
    }

abbrev pub use_test_integration : Text → Mutation
use_test_integration id =
    record (mutation "POST" (fixed "integrations" ∷ param id ∷ fixed "test" ∷ []) undefined) {
      on_error = error_or "Integration test failed";
    }

abbrev pub use_sync_integration : Text → Mutation
use_sync_integration id =
    record (mutation "POST" (fixed "integrations" ∷ param id ∷ fixed "sync" ∷ []) undefined) {
      invalidates = (text "integrations" ∷ id ∷ []) ∷ [];
      on_success = done "Sync started";
      on_error = error_or "Failed to sync integration";
    }

abbrev pub use_integration_logs : Text → Query
use_integration_logs id =
    record (query (name "integrations" ∷ word id ∷ name "logs" ∷ [])
      (fixed "integrations" ∷ param id ∷ fixed "logs" ∷ [])) { enabled = truthy_text id }

abbrev pub use_notifications : Query
use_notifications = query (name "notifications" ∷ []) (fixed "notifications" ∷ [])

abbrev pub use_mark_notification_read : Text → Mutation
use_mark_notification_read id =
    record (mutation "PUT" (fixed "notifications" ∷ param id ∷ fixed "read" ∷ []) undefined) {
      invalidates = (text "notifications" ∷ []) ∷ [];
    }

abbrev pub use_mark_all_notifications_read : Mutation
use_mark_all_notifications_read =
    record (mutation "PUT" (fixed "notifications" ∷ fixed "read-all" ∷ []) undefined) {
      invalidates = (text "notifications" ∷ []) ∷ [];
    }

abbrev pub use_delete_notification : Text → Mutation
use_delete_notification id =
    record (mutation "DELETE" (fixed "notifications" ∷ param id ∷ []) undefined) {
      invalidates = (text "notifications" ∷ []) ∷ [];
    }

abbrev pub use_webhooks : Query
use_webhooks = query (name "webhooks" ∷ []) (fixed "notifications" ∷ fixed "webhooks" ∷ [])

abbrev pub use_create_webhook : Value → Mutation
use_create_webhook body =
    record (mutation "POST" (fixed "notifications" ∷ fixed "webhooks" ∷ []) body) {
      invalidates = (text "webhooks" ∷ []) ∷ [];
      on_success = done "Webhook created successfully";
      on_error = error_or "Failed to create webhook";
    }

abbrev pub use_delete_webhook : Text → Mutation
use_delete_webhook id =
    record (mutation "DELETE" (fixed "notifications" ∷ fixed "webhooks" ∷ param id ∷ [])
      undefined) {
        invalidates = (text "webhooks" ∷ []) ∷ [];
        on_success = done "Webhook deleted successfully";
        on_error = error_or "Failed to delete webhook";
      }
