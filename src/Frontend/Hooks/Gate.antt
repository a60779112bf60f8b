-- ===== src/Frontend/Hooks/Gate.antt =====
-- hooks/use-gate.ts: the AI gate.
use trust_vault.Prelude.{ℕ, some, [], ◌∷◌, ◌++◌, text, decimal}
use trust_vault.Sdk.Value.{Value}
use trust_vault.Frontend.Hooks.Shape.{
  Query, query, Mutation, mutation, name, number, fixed, error_or,
}

abbrev pub use_gate_query : Value → Mutation
use_gate_query body = record (mutation "POST" (fixed "gate" ∷ fixed "query" ∷ []) body) {
  on_error = error_or "Gate query failed";
}

abbrev pub use_gate_retrieve : Value → Mutation
use_gate_retrieve body = record (mutation "POST" (fixed "gate" ∷ fixed "retrieve" ∷ []) body) {
  on_error = error_or "Failed to retrieve data";
}

abbrev pub use_gate_validate : Value → Mutation
use_gate_validate body = record (mutation "POST" (fixed "gate" ∷ fixed "validate" ∷ []) body) {
  on_error = error_or "Validation failed";
}

abbrev pub use_gate_stats : Query
use_gate_stats = record (query (name "gate-stats" ∷ []) (fixed "gate" ∷ fixed "stats" ∷ [])) {
  refetch_ms = some 30000;
}

abbrev pub use_gate_queries : ℕ → Query
use_gate_queries limit =
    record (query (name "gate-queries" ∷ number limit ∷ []) (fixed "gate" ∷ fixed "queries" ∷ [])) {
      search = text "?limit=" ++ decimal limit;
    }
