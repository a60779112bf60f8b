-- ===== src/Frontend/Hooks/Datamap.antt =====
-- hooks/use-datamap.ts: the data map, AI governance, reports and analytics.
use trust_vault.Prelude.{Option, none, some, [], ◌∷◌, ◌++◌, Text, text, truthy_text, if◌then◌else◌}
use trust_vault.Sdk.Value.{Value}
use trust_vault.Frontend.Hooks.Shape.{
  Query, query, Mutation, mutation, name, word, optional, fixed, param,
}

-- `useCase ? '?use_case=' + useCase : ''`, which is not encoded.
abbrev pub use_case_search : Option Text → Text
use_case_search none = []
use_case_search (some use_case) = if truthy_text use_case then text "?use_case=" ++ use_case else []

abbrev pub use_data_map : Query
use_data_map = query (name "datamap" ∷ []) (fixed "datamap" ∷ [])

abbrev pub use_data_map_sources : Query
use_data_map_sources = query (name "datamap-sources" ∷ []) (fixed "datamap" ∷ fixed "sources" ∷ [])

abbrev pub use_data_map_flows : Query
use_data_map_flows = query (name "datamap-flows" ∷ []) (fixed "datamap" ∷ fixed "flows" ∷ [])

abbrev pub use_data_map_coverage : Query
use_data_map_coverage =
    query (name "datamap-coverage" ∷ []) (fixed "datamap" ∷ fixed "coverage" ∷ [])

abbrev pub use_data_map_geography : Query
use_data_map_geography =
    query (name "datamap-geography" ∷ []) (fixed "datamap" ∷ fixed "geography" ∷ [])

abbrev pub use_dark_data : Query
use_dark_data = query (name "dark-data" ∷ []) (fixed "datamap" ∷ fixed "dark-data" ∷ [])

abbrev pub use_shadow_it : Query
use_shadow_it = query (name "shadow-it" ∷ []) (fixed "datamap" ∷ fixed "shadow-it" ∷ [])

abbrev pub use_ai_models : Query
use_ai_models = query (name "ai-models" ∷ []) (fixed "ai-governance" ∷ fixed "models" ∷ [])

abbrev pub use_dataset_lineage : Text → Query
use_dataset_lineage dataset_id =
    record (query (name "lineage" ∷ word dataset_id ∷ [])
      (fixed "audit" ∷ fixed "lineage" ∷ param dataset_id ∷ [])) {
        enabled = truthy_text dataset_id;
      }

abbrev pub use_ai_gov_policies : Query
use_ai_gov_policies =
    query (name "ai-gov-policies" ∷ []) (fixed "ai-governance" ∷ fixed "policies" ∷ [])

abbrev pub use_ai_eligibility : Text → Option Text → Query
use_ai_eligibility dataset_id use_case =
    record (query (name "ai-eligibility" ∷ word dataset_id ∷ optional use_case ∷ [])
      (fixed "ai-governance" ∷ fixed "eligible" ∷ param dataset_id ∷ [])) {
        enabled = truthy_text dataset_id;
        search = use_case_search use_case;
      }

abbrev pub use_check_eligibility : Value → Mutation
use_check_eligibility body =
    mutation "POST" (fixed "ai-governance" ∷ fixed "check-eligibility" ∷ []) body

abbrev pub use_eligible_datasets : Query
use_eligible_datasets =
    query (name "eligible-datasets" ∷ []) (fixed "ai-governance" ∷ fixed "datasets" ∷ [])

abbrev pub use_model_lineage : Text → Query
use_model_lineage model_id =
    record (query (name "model-lineage" ∷ word model_id ∷ [])
      (fixed "ai-governance" ∷ fixed "lineage" ∷ param model_id ∷ [])) {
        enabled = truthy_text model_id;
      }

abbrev pub use_reports : Query
use_reports = query (name "reports" ∷ []) (fixed "reports" ∷ [])

abbrev pub use_analytics_summary : Query
use_analytics_summary =
    query (name "analytics-summary" ∷ []) (fixed "analytics" ∷ fixed "summary" ∷ [])

abbrev pub use_analytics_trends : Query
use_analytics_trends =
    query (name "analytics-trends" ∷ []) (fixed "analytics" ∷ fixed "trends" ∷ [])

abbrev pub use_extract_document : Query
use_extract_document = query (name "documents" ∷ []) (fixed "documents" ∷ fixed "review-queue" ∷ [])
