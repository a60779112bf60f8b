-- ===== src/Sdk/Gate/Payloads.antt =====
-- gate.ts: the payloads that requests are normalised to, as the values that `JSON.stringify` is
-- given. A property whose value is undefined is kept here, and left out by `JSON.stringify`.
use trust_vault.Prelude.{String, List, [], ◌∷◌, Text, text, ◌==◌, if◌then◌else◌}
use trust_vault.Sdk.Value.{
  Value, undefined, bool, num, frac, str, arr, obj, Items, nil, cons, Fields, end, field, opt, null,
}
use trust_vault.Sdk.Types.{
  VectorDbProvider, VectorDbConfig, LlmProvider, LlmConfig, SensitivityLevel, public, internal,
  confidential, restricted, top_secret, UserContext, Decimal, GateInterceptRequest,
  GateQueryRequest, GateEmbedRequest, JsNumber, amount, minus, infinite, not_a_number,
}
use trust_vault.Sdk.Gate.Requests.{normalize_vector_db, normalize_llm}

abbrev pub texts : List Text → Items
texts [] = nil
texts (t ∷ ts) = cons (str t) (texts ts)

abbrev pub text_array : List Text → Value
text_array ts = arr (texts ts)

abbrev objects : List Fields → Items
objects [] = nil
objects (fs ∷ rest) = cons (obj fs) (objects rest)

vector_db_name : VectorDbProvider → String
vector_db_name VectorDbProvider.qdrant = "qdrant"
vector_db_name VectorDbProvider.pinecone = "pinecone"
vector_db_name VectorDbProvider.weaviate = "weaviate"
vector_db_name VectorDbProvider.milvus = "milvus"
vector_db_name VectorDbProvider.chroma = "chroma"
vector_db_name VectorDbProvider.custom = "custom"

llm_name : LlmProvider → String
llm_name LlmProvider.openai = "openai"
llm_name LlmProvider.anthropic = "anthropic"
llm_name LlmProvider.azure = "azure"
llm_name LlmProvider.bedrock = "bedrock"
llm_name LlmProvider.cohere = "cohere"
llm_name LlmProvider.custom = "custom"

unfoldable pub sensitivity_name : SensitivityLevel → String
sensitivity_name public = "public"
sensitivity_name internal = "internal"
sensitivity_name confidential = "confidential"
sensitivity_name restricted = "restricted"
sensitivity_name top_secret = "top_secret"

decimal_value : Decimal → Value
decimal_value d = frac d.units d.places

-- `JSON.stringify` writes NaN as null. A negative or infinite topK does not pass the validation.
number_value : JsNumber → Value
number_value (amount d) = if d.places == 0 then num d.units else frac d.units d.places
number_value (minus d) = undefined
number_value (infinite positive) = null
number_value not_a_number = null

vector_db_value : VectorDbConfig → Value
vector_db_value c = obj (
    field "provider" (str (text (vector_db_name c.provider))) (
      field "url" (opt str c.url) (
        field "apiKey" (opt str c.api_key)
          (field "collection" (opt str c.collection) (field "options" (opt obj c.options) end)))))

llm_value : LlmConfig → Value
llm_value c = obj (
    field "provider" (str (text (llm_name c.provider))) (
      field "model" (opt str c.model) (
        field "apiKey" (opt str c.api_key) (
          field "endpoint" (opt str c.endpoint) (
            field "temperature" (opt decimal_value c.temperature) (
              field "maxTokens" (opt num c.max_tokens)
                (field "options" (opt obj c.options) end)))))))

user_context_value : UserContext → Value
user_context_value u = obj (
    field "userId" (opt str u.user_id) (
      field "roles" (opt text_array u.roles) (
        field "groups" (opt text_array u.groups) (
          field "department" (opt str u.department) (
            field "clearanceLevel" (opt (λ l. str (text (sensitivity_name l))) u.clearance_level)
              (field "attributes" (opt obj u.attributes) end))))))

-- `normalizeInterceptRequest`
unfoldable pub normalize_intercept_request : GateInterceptRequest → Value
unfolding vector_db_value user_context_value normalize_vector_db vector_db_name sensitivity_name
normalize_intercept_request r = obj (
    field "query" (str r.query) (
      field "contextSource" (opt vector_db_value (normalize_vector_db r.context_source)) (
        field "policies" (opt text_array r.policies) (
          field "userContext" (opt user_context_value r.user_context) (
            field "sessionId" (opt str r.session_id)
              (field "metadata" (opt obj r.metadata) end))))))

-- `normalizeQueryRequest`
unfoldable pub normalize_query_request : GateQueryRequest → Value
unfolding vector_db_value user_context_value normalize_vector_db vector_db_name sensitivity_name
    llm_value llm_name normalize_llm decimal_value number_value
normalize_query_request r = obj (
    field "query" (str r.query) (
      field "contextSource" (opt vector_db_value (normalize_vector_db r.context_source)) (
        field "llmProvider" (opt llm_value (normalize_llm r.llm_provider)) (
          field "model" (opt str r.model) (
            field "topK" (opt number_value r.top_k) (
              field "policies" (opt text_array r.policies) (
                field "userContext" (opt user_context_value r.user_context) (
                  field "sessionId" (opt str r.session_id) (
                    field "systemPrompt" (opt str r.system_prompt) (
                      field "stream" (opt bool r.stream)
                        (field "metadata" (opt obj r.metadata) end)))))))))))

-- `normalizeEmbedRequest`
unfoldable pub normalize_embed_request : GateEmbedRequest → Value
unfolding vector_db_value normalize_vector_db vector_db_name
normalize_embed_request r = obj (
    field "documents" (arr (texts r.documents)) (
      field "metadata" (opt (λ ms. arr (objects ms)) r.metadata) (
        field "vectorDb" (opt vector_db_value (normalize_vector_db r.vector_db)) (
          field "classifyBeforeEmbed" (opt bool r.classify_before_embed) (
            field "policies" (opt text_array r.policies) (
              field "chunkSize" (opt num r.chunk_size)
                (field "chunkOverlap" (opt num r.chunk_overlap) end)))))))
