-- ===== src/Sdk/Gate/Requests.antt =====
-- gate.ts: the validation of requests, and the normal forms of their vector databases and LLMs.
pub mod Valid
use trust_vault.Prelude.{
  ℕ, ℤ, pos, negsuc, String, Bool, true, false, not, ◌||◌, Option, none, some, List, [], ◌∷◌, Text,
  text, truthy_text, length, ltb, ◌==◌, if◌then◌else◌, ◌*◌, ◌^◌,
}
use trust_vault.Sdk.Value.{
  Value, undefined, bool, num, str, arr, obj, Items, nil, cons, Fields, end, field, opt,
}
use trust_vault.Sdk.Types.{
  VectorDbProvider, VectorDbConfig, VectorDbSource, LlmProvider, LlmConfig, LlmSource,
  SensitivityLevel, UserContext, Decimal, GateInterceptRequest, GateQueryRequest, GateEmbedRequest,
  JsNumber, amount, minus, infinite, not_a_number,
}
use trust_vault.Sdk.Errors.{SecureLensError, sdk, no_options, validation_error}
use trust_vault.Sdk.Effect.{Result, ok, throw}

-- `new SecureLensValidationError(message, { fieldErrors: { [key]: [reason] } })`
abbrev pub invalid : Text → String → Text → SecureLensError
invalid message key reason =
    validation_error (some message) no_options (obj (field key (arr (cons (str reason) nil)) end))

abbrev pub no_query : SecureLensError
no_query = invalid (text "Query is required") "query" (text "Query must be a non-empty string")

unfoldable pub validate_intercept_request : GateInterceptRequest → Result (Unit {0})
validate_intercept_request request =
    if not (truthy_text request.query) then throw (sdk no_query) else ok tt

-- `topK !== undefined && (topK < 1 || topK > 100)`
abbrev pub bad_top_k : Option JsNumber → Bool
bad_top_k none = false
bad_top_k (some (amount d)) = ltb d.units (10 ^ d.places) || ltb (100 * 10 ^ d.places) d.units
bad_top_k (some (minus d)) = true
bad_top_k (some (infinite positive)) = true
bad_top_k (some not_a_number) = false

unfoldable pub validate_query_request : GateQueryRequest → Result (Unit {0})
validate_query_request request =
    if not (truthy_text request.query)
    then throw (sdk no_query)
    else if bad_top_k request.top_k
    then throw
        (sdk (invalid (text "Invalid topK value") "topK" (text "topK must be between 1 and 100")))
    else ok tt

-- `metadata && metadata.length !== documents.length`
abbrev pub bad_metadata : Option (List Fields) → List Text → Bool
bad_metadata none documents = false
bad_metadata (some metadata) documents = not (length metadata == length documents)

abbrev missing_db : Option VectorDbSource → Bool
missing_db none = true
missing_db (some source) = false

unfoldable pub validate_embed_request : GateEmbedRequest → Result (Unit {0})
validate_embed_request request =
    if length request.documents == 0
    then throw (
        sdk (
          invalid (text "Documents are required") "documents"
            (text "Documents must be a non-empty array")))
    else if missing_db request.vector_db
    then throw (
        sdk (
          invalid (text "Vector database is required") "vectorDb"
            (text "vectorDb must be specified")))
    else if bad_metadata request.metadata request.documents
    then throw (
        sdk (
          invalid (text "Metadata length mismatch") "metadata"
            (text "Metadata array must have the same length as documents array")))
    else ok tt

abbrev plain_vector_db : VectorDbProvider → VectorDbConfig
plain_vector_db provider = record {
  provider = provider;
  url = none;
  api_key = none;
  collection = none;
  options = none;
}

-- `normalizeVectorDb`
unfoldable pub normalize_vector_db : Option VectorDbSource → Option VectorDbConfig
normalize_vector_db none = none
normalize_vector_db (some (VectorDbSource.named provider)) = some (plain_vector_db provider)
normalize_vector_db (some (VectorDbSource.configured config)) = some config

-- `normalizeLLM`
unfoldable pub normalize_llm : Option LlmSource → Option LlmConfig
normalize_llm none = none
normalize_llm (some (LlmSource.named provider)) = some (record {
  provider = provider;
  model = none;
  api_key = none;
  endpoint = none;
  temperature = none;
  max_tokens = none;
  options = none;
})
normalize_llm (some (LlmSource.configured config)) = some config
