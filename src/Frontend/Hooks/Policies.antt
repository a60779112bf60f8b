-- ===== src/Frontend/Hooks/Policies.antt =====
-- hooks/use-policies.ts: policies.
use trust_vault.Prelude.{[], ◌∷◌, Text, text, truthy_text}
use trust_vault.Sdk.Value.{Value, undefined}
use trust_vault.Frontend.Hooks.Shape.{
  Query, query, Mutation, mutation, name, word, fixed, param, done, error_or,
}

abbrev pub use_policies : Query
use_policies = query (name "policies" ∷ []) (fixed "governance" ∷ fixed "policies" ∷ [])

abbrev pub use_policy : Text → Query
use_policy id =
    record (query (name "policies" ∷ word id ∷ [])
      (fixed "governance" ∷ fixed "policies" ∷ param id ∷ [])) { enabled = truthy_text id }

abbrev pub use_create_policy : Value → Mutation
use_create_policy body =
    record (mutation "POST" (fixed "governance" ∷ fixed "policies" ∷ []) body) {
      invalidates = (text "policies" ∷ []) ∷ [];
      on_success = done "Policy created successfully";
      on_error = error_or "Failed to create policy";
    }

abbrev pub use_update_policy : Text → Value → Mutation
use_update_policy id body =
    record (mutation "PUT" (fixed "governance" ∷ fixed "policies" ∷ param id ∷ []) body) {
      invalidates = (text "policies" ∷ []) ∷ (text "policies" ∷ id ∷ []) ∷ [];
      on_success = done "Policy updated successfully";
      on_error = error_or "Failed to update policy";
    }

abbrev pub use_delete_policy : Text → Mutation
use_delete_policy id =
    record (mutation "DELETE" (fixed "governance" ∷ fixed "policies" ∷ param id ∷ []) undefined) {
      invalidates = (text "policies" ∷ []) ∷ [];
      on_success = done "Policy deleted successfully";
      on_error = error_or "Failed to delete policy";
    }

abbrev pub use_evaluate_policy : Value → Mutation
use_evaluate_policy body =
    record (mutation "POST" (fixed "governance" ∷ fixed "evaluate" ∷ []) body) {
      on_error = error_or "Failed to evaluate policy";
    }

abbrev pub use_governance_stats : Query
use_governance_stats =
    query (name "governance-stats" ∷ []) (fixed "governance" ∷ fixed "stats" ∷ [])
