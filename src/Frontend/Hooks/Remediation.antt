-- ===== src/Frontend/Hooks/Remediation.antt =====
-- hooks/use-remediation.ts: remediation.
use trust_vault.Prelude.{[], ◌∷◌, Text, text, truthy_text}
use trust_vault.Sdk.Value.{Value, undefined}
use trust_vault.Frontend.Hooks.Shape.{
  Query, query, Mutation, mutation, name, word, fixed, param, done, error_or, array_or_empty,
}

abbrev pub use_remediation_actions : Query
use_remediation_actions =
    record (query (name "remediation-actions" ∷ []) (fixed "remediation" ∷ fixed "actions" ∷ [])) {
      read = array_or_empty;
    }

abbrev pub use_remediation_logs : Text → Query
use_remediation_logs action_id =
    record (query (name "remediation-logs" ∷ word action_id ∷ [])
      (fixed "remediation" ∷ fixed "actions" ∷ param action_id ∷ fixed "logs" ∷ [])) {
        enabled = truthy_text action_id;
        read = array_or_empty;
      }

abbrev pub use_execute_remediation_action : Text → Mutation
use_execute_remediation_action id =
    record (mutation "POST"
      (fixed "remediation" ∷ fixed "actions" ∷ param id ∷ fixed "execute" ∷ []) undefined) {
        invalidates = (text "remediation-actions" ∷ []) ∷ [];
        on_success = done "Remediation action executed";
        on_error = error_or "Failed to execute remediation action";
      }

abbrev pub use_create_remediation_action : Value → Mutation
use_create_remediation_action body =
    record (mutation "POST" (fixed "remediation" ∷ fixed "actions" ∷ []) body) {
      invalidates = (text "remediation-actions" ∷ []) ∷ [];
      on_success = done "Remediation action created";
      on_error = error_or "Failed to create remediation action";
    }
