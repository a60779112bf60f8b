-- ===== src/Frontend/Hooks/Classification.antt =====
-- hooks/use-classification.ts: classification.
use trust_vault.Prelude.{Option, [], ◌∷◌, Text, text, truthy_text}
use trust_vault.Sdk.Value.{Value, undefined, str, obj, end, field, opt}
use trust_vault.Frontend.Hooks.Shape.{
  Query, query, Mutation, mutation, name, word, fixed, param, done, error_or, or_empty,
}

abbrev pub use_classify_stats : Query
use_classify_stats = query (name "classify-stats" ∷ []) (fixed "classify" ∷ fixed "stats" ∷ [])

abbrev pub use_classify_text : Value → Mutation
use_classify_text body = record (mutation "POST" (fixed "classify" ∷ fixed "text" ∷ []) body) {
  on_error = error_or "Failed to classify text";
}

abbrev pub use_classify_dataset : Value → Mutation
use_classify_dataset body =
    record (mutation "POST" (fixed "classify" ∷ fixed "dataset" ∷ []) body) {
      invalidates = (text "classifications" ∷ []) ∷ [];
      on_success = done "Classification job started";
      on_error = error_or "Failed to start classification";
    }

abbrev pub use_classification_models : Query
use_classification_models =
    query (name "classification-models" ∷ []) (fixed "classify" ∷ fixed "models" ∷ [])

abbrev pub use_classification_rules : Query
use_classification_rules =
    query (name "classification-rules" ∷ []) (fixed "classify" ∷ fixed "rules" ∷ [])

abbrev pub use_create_classification_rule : Value → Mutation
use_create_classification_rule body =
    record (mutation "POST" (fixed "classify" ∷ fixed "rules" ∷ []) body) {
      invalidates = (text "classification-rules" ∷ []) ∷ [];
      on_success = done "Classification rule created";
      on_error = error_or "Failed to create rule";
    }

abbrev pub use_delete_classification_rule : Text → Mutation
use_delete_classification_rule id =
    record (mutation "DELETE" (fixed "classify" ∷ fixed "rules" ∷ param id ∷ []) undefined) {
      invalidates = (text "classification-rules" ∷ []) ∷ [];
      on_success = done "Classification rule deleted";
      on_error = error_or "Failed to delete rule";
    }

abbrev pub use_dataset_classification : Text → Query
use_dataset_classification dataset_id =
    record (query (name "classification" ∷ word dataset_id ∷ [])
      (fixed "classify" ∷ fixed "datasets" ∷ param dataset_id ∷ [])) {
        enabled = truthy_text dataset_id;
      }

abbrev pub use_dataset_columns : Text → Query
use_dataset_columns dataset_id =
    record (query (name "classification" ∷ word dataset_id ∷ name "columns" ∷ [])
      (fixed "classify" ∷ fixed "datasets" ∷ param dataset_id ∷ fixed "columns" ∷ [])) {
        enabled = truthy_text dataset_id;
      }

abbrev pub use_reclassify_dataset : Text → Mutation
use_reclassify_dataset dataset_id =
    record (mutation "POST"
      (fixed "classify" ∷ fixed "datasets" ∷ param dataset_id ∷ fixed "reclassify" ∷ [])
      undefined) {
        invalidates = (text "classification" ∷ dataset_id ∷ []) ∷ [];
        on_success = done "Re-classification started";
        on_error = error_or "Failed to start re-classification";
      }

abbrev pub use_document_classifications : Text → Query
use_document_classifications document_id =
    record (query (name "doc-classifications" ∷ word document_id ∷ [])
      (fixed "documents" ∷ param document_id ∷ fixed "classifications" ∷ [])) {
        enabled = truthy_text document_id;
        read = or_empty;
      }

abbrev pub use_classify_document : Text → Option Text → Text → Mutation
use_classify_document document_id document_name document_text =
    record (mutation "POST" (fixed "documents" ∷ fixed "classify" ∷ []) (
      obj (
        field "document_id" (str document_id) (
          field "document_name" (opt str document_name) (field "text" (str document_text) end))))) {
            invalidates =
                (text "doc-classifications" ∷ document_id ∷ []) ∷ (text "review-queue" ∷ []) ∷ [];
            on_success = done "Document classified";
            on_error = error_or "Failed to classify document";
          }
