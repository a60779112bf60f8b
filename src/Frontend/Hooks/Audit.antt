-- ===== src/Frontend/Hooks/Audit.antt =====
-- hooks/use-audit.ts: audit and observability.
use trust_vault.Prelude.{Option, none, some, [], ◌∷◌, Text, text, truthy_text}
use trust_vault.Sdk.Value.{Value, obj, end, field, Fields, opt}
use trust_vault.Frontend.Hooks.Shape.{
  Query, query, Mutation, mutation, name, word, object, missing, KeyPart, fixed, param, done,
  error_or,
}

abbrev pub optional_object : Option Fields → KeyPart
optional_object none = missing
optional_object (some fields) = object fields

abbrev pub use_audit_trail : Option Fields → Query
use_audit_trail params =
    record (query (name "audit-trail" ∷ optional_object params ∷ [])
      (fixed "audit" ∷ fixed "trail" ∷ [])) { config = obj (field "params" (opt obj params) end) }

abbrev pub use_ai_usage : Text → Query
use_ai_usage dataset_id =
    record (query (name "ai-usage" ∷ word dataset_id ∷ [])
      (fixed "audit" ∷ fixed "datasets" ∷ param dataset_id ∷ fixed "ai-usage" ∷ [])) {
        enabled = truthy_text dataset_id;
      }

abbrev pub use_compliance_report : Query
use_compliance_report =
    query (name "compliance-report" ∷ []) (fixed "audit" ∷ fixed "compliance-report" ∷ [])

abbrev pub use_lineage : Text → Query
use_lineage dataset_id =
    record (query (name "lineage" ∷ word dataset_id ∷ [])
      (fixed "audit" ∷ fixed "lineage" ∷ param dataset_id ∷ [])) {
        enabled = truthy_text dataset_id;
      }

abbrev pub use_system_health : Query
use_system_health =
    record (query (name "system-health" ∷ []) (fixed "observability" ∷ fixed "health" ∷ [])) {
      refetch_ms = some 30000;
    }

abbrev pub use_system_metrics : Query
use_system_metrics =
    record (query (name "system-metrics" ∷ []) (fixed "observability" ∷ fixed "metrics" ∷ [])) {
      refetch_ms = some 10000;
    }

abbrev pub use_alerts : Query
use_alerts = query (name "alerts" ∷ []) (fixed "observability" ∷ fixed "alerts" ∷ [])

abbrev pub use_create_alert_rule : Value → Mutation
use_create_alert_rule body =
    record (mutation "POST" (fixed "observability" ∷ fixed "alerts" ∷ fixed "rules" ∷ []) body) {
      invalidates = (text "alerts" ∷ []) ∷ [];
      on_success = done "Alert rule created";
      on_error = error_or "Failed to create alert rule";
    }
