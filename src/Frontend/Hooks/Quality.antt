-- ===== src/Frontend/Hooks/Quality.antt =====
-- hooks/use-quality.ts: quality, profiles and critical data elements.
use trust_vault.Prelude.{[], ◌∷◌, Text, text, truthy_text}
use trust_vault.Sdk.Value.{Value, undefined, str, obj, end, field, member}
use trust_vault.Frontend.Hooks.Shape.{
  Query, query, Mutation, mutation, name, word, fixed, param, done, error_or, or_empty,
}

-- `overall_score` becomes `overall`; the other scores keep their names.
abbrev pub trends_of : Value → Value
trends_of answer = obj (
    field "overall" (member "overall_score" answer) (
      field "completeness" (member "completeness" answer) (
        field "accuracy" (member "accuracy" answer) (
          field "consistency" (member "consistency" answer) (
            field "timeliness" (member "timeliness" answer) (
              field "uniqueness" (member "uniqueness" answer) (
                field "total_datasets" (member "total_datasets" answer)
                  (field "issues_found" (member "issues_found" answer) end))))))))

abbrev pub use_quality_score : Text → Query
use_quality_score dataset_id =
    record (query (name "quality" ∷ word dataset_id ∷ [])
      (fixed "quality" ∷ fixed "datasets" ∷ param dataset_id ∷ [])) {
        enabled = truthy_text dataset_id;
      }

abbrev pub use_quality_trends : Query
use_quality_trends =
    record (query (name "quality-trends" ∷ []) (fixed "quality" ∷ fixed "summary" ∷ [])) {
      read = trends_of;
    }

abbrev pub use_quality_dimensions : Query
use_quality_dimensions =
    query (name "quality-dimensions" ∷ []) (fixed "quality" ∷ fixed "summary" ∷ [])

abbrev pub use_assess_quality : Text → Mutation
use_assess_quality dataset_id =
    record (mutation "POST" (fixed "quality" ∷ fixed "assess" ∷ [])
      (obj (field "dataset_id" (str dataset_id) end))) {
        invalidates = (text "quality" ∷ dataset_id ∷ []) ∷ (text "quality-trends" ∷ []) ∷ [];
        on_success = done "Quality assessment started";
        on_error = error_or "Failed to assess quality";
      }

abbrev pub use_set_quality_threshold : Value → Mutation
use_set_quality_threshold body =
    record (mutation "POST" (fixed "quality" ∷ fixed "thresholds" ∷ []) body) {
      on_success = done "Threshold updated";
      on_error = error_or "Failed to set threshold";
    }

abbrev pub use_data_profile : Text → Query
use_data_profile datasource_id =
    record (query (name "data-profile" ∷ word datasource_id ∷ [])
      (fixed "quality" ∷ fixed "profile" ∷ param datasource_id ∷ [])) {
        enabled = truthy_text datasource_id;
      }

abbrev pub use_auto_profile : Text → Mutation
use_auto_profile datasource_id =
    record (mutation "POST" (fixed "quality" ∷ fixed "profile" ∷ param datasource_id ∷ [])
      (obj end)) {
        invalidates = (text "data-profile" ∷ datasource_id ∷ []) ∷ [];
        on_success = done "Data profiling completed";
        on_error = error_or "Failed to profile datasource";
      }

abbrev pub use_cdes : Query
use_cdes = record (query (name "cdes" ∷ []) (fixed "cde" ∷ [])) { read = or_empty }

abbrev pub use_create_cde : Value → Mutation
use_create_cde body = record (mutation "POST" (fixed "cde" ∷ []) body) {
  invalidates = (text "cdes" ∷ []) ∷ [];
  on_success = done "CDE designated";
  on_error = error_or "Failed to create CDE";
}

abbrev pub use_delete_cde : Text → Mutation
use_delete_cde id = record (mutation "DELETE" (fixed "cde" ∷ param id ∷ []) undefined) {
  invalidates = (text "cdes" ∷ []) ∷ [];
  on_success = done "CDE removed";
  on_error = error_or "Failed to delete CDE";
}
