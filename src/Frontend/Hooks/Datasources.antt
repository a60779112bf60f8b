-- ===== src/Frontend/Hooks/Datasources.antt =====
-- hooks/use-datasources.ts: data sources and scans.
use trust_vault.Prelude.{
  Option, none, some, List, [], ◌∷◌, Text, text, truthy_text, ◌==◌, if◌then◌else◌,
}
use trust_vault.Sdk.Value.{Value, undefined}
use trust_vault.Frontend.Session.{ErrorResponse}
use trust_vault.Frontend.Hooks.Shape.{
  Query, query, Mutation, mutation, name, word, fixed, param, done, error_or, Toast, info,
}

-- A status of 409 says that a scan is running already.
abbrev pub scan_error : Option ErrorResponse → List Toast
scan_error none = error_or "Failed to trigger scan" none
scan_error (some response) =
    if response.status == 409
    then info "A scan is already in progress" ∷ []
    else error_or "Failed to trigger scan" (some response)

abbrev pub use_data_sources : Query
use_data_sources = query (name "datasources" ∷ []) (fixed "datasources" ∷ [])

abbrev pub use_data_source : Text → Query
use_data_source id =
    record (query (name "datasources" ∷ word id ∷ []) (fixed "datasources" ∷ param id ∷ [])) {
      enabled = truthy_text id;
    }

abbrev pub use_create_data_source : Value → Mutation
use_create_data_source body = record (mutation "POST" (fixed "datasources" ∷ []) body) {
  invalidates = (text "datasources" ∷ []) ∷ [];
  on_success = done "Data source created successfully";
  on_error = error_or "Failed to create data source";
}

abbrev pub use_update_data_source : Text → Value → Mutation
use_update_data_source id body =
    record (mutation "PUT" (fixed "datasources" ∷ param id ∷ []) body) {
      invalidates = (text "datasources" ∷ []) ∷ (text "datasources" ∷ id ∷ []) ∷ [];
      on_success = done "Data source updated successfully";
      on_error = error_or "Failed to update data source";
    }

abbrev pub use_delete_data_source : Text → Mutation
use_delete_data_source id =
    record (mutation "DELETE" (fixed "datasources" ∷ param id ∷ []) undefined) {
      invalidates = (text "datasources" ∷ []) ∷ [];
      on_success = done "Data source deleted successfully";
      on_error = error_or "Failed to delete data source";
    }

abbrev pub use_trigger_scan : Text → Mutation
use_trigger_scan id =
    record (mutation "POST" (fixed "datasources" ∷ param id ∷ fixed "scan" ∷ []) undefined) {
      invalidates = (text "datasources" ∷ id ∷ []) ∷ [];
      on_error = scan_error;
    }

abbrev pub use_scan_status : Text → Query
use_scan_status id =
    record (query (name "datasources" ∷ word id ∷ name "status" ∷ [])
      (fixed "datasources" ∷ param id ∷ fixed "status" ∷ [])) {
        enabled = truthy_text id;
        refetch_ms = some 5000;
      }

abbrev pub use_scan_logs : Text → Query
use_scan_logs datasource_id =
    record (query (name "datasources" ∷ word datasource_id ∷ name "logs" ∷ [])
      (fixed "datasources" ∷ param datasource_id ∷ fixed "logs" ∷ [])) {
        enabled = truthy_text datasource_id;
      }

abbrev pub use_data_source_classification_stats : Text → Query
use_data_source_classification_stats datasource_id =
    record (query (name "datasources" ∷ word datasource_id ∷ name "classification-stats" ∷ [])
      (fixed "datasources" ∷ param datasource_id ∷ fixed "classification-stats" ∷ [])) {
        enabled = truthy_text datasource_id;
      }
