-- ===== src/Sdk/Types.antt =====
-- types.ts: the requests and responses of the gate. A property that the interface marks with `?` is
-- an Option. A number that the SDK computes with is a ℕ or a ℤ, and a topK any number; a score
-- is a decimal fraction.
use trust_vault.Prelude.{ℕ, ℤ, Bool, List, Option, Text}
use trust_vault.Sdk.Value.{Fields}

-- A non-negative number as JSON writes it: `units` / 10 ^ `places`.
pub record Decimal : Type 0 where
  pub units : ℕ
  pub places : ℕ

-- A number of JavaScript as the caller may give it: not below zero, minus such a number, an infinity
-- (the positive one for `true`), or NaN.
pub data JsNumber : Type 0 where
  amount minus : Decimal → JsNumber
  infinite : Bool → JsNumber
  not_a_number : JsNumber

pub record SecureLensConfig : Type 0 where
  pub api_key : Text
  pub base_url : Option Text
  pub tenant_id : Option Text
  pub timeout : Option ℕ
  pub retries : Option ℤ
  pub debug : Option Bool

-- `headers` maps names to texts; `signal` says whether the caller gave an AbortSignal.
pub record RequestOptions : Type 0 where
  pub timeout : Option ℕ
  pub headers : Option Fields
  pub signal : Bool

pub data VectorDbProvider : Type 0 where
  qdrant pinecone weaviate milvus chroma custom : VectorDbProvider

pub record VectorDbConfig : Type 0 where
  pub provider : VectorDbProvider
  pub url : Option Text
  pub api_key : Option Text
  pub collection : Option Text
  pub options : Option Fields

pub data LlmProvider : Type 0 where
  openai anthropic azure bedrock cohere custom : LlmProvider

pub record LlmConfig : Type 0 where
  pub provider : LlmProvider
  pub model : Option Text
  pub api_key : Option Text
  pub endpoint : Option Text
  pub temperature : Option Decimal
  pub max_tokens : Option ℕ
  pub options : Option Fields

pub data SensitivityLevel : Type 0 where
  public internal confidential restricted top_secret : SensitivityLevel

pub data ClassificationType : Type 0 where
  pii phi pci financial legal intellectual_property trade_secret custom : ClassificationType

pub record Classification : Type 0 where
  pub type : ClassificationType
  pub label : Text
  pub confidence : Decimal
  pub start : ℕ
  pub end : ℕ
  pub text : Option Text
  pub sensitivity : SensitivityLevel

pub record ClassificationResult : Type 0 where
  pub text : Text
  pub classifications : List Classification
  pub overall_sensitivity : SensitivityLevel
  pub processing_time_ms : ℕ

pub record UserContext : Type 0 where
  pub user_id : Option Text
  pub roles : Option (List Text)
  pub groups : Option (List Text)
  pub department : Option Text
  pub clearance_level : Option SensitivityLevel
  pub attributes : Option Fields

pub data PolicyAction : Type 0 where
  allow block redact mask audit : PolicyAction

pub record AppliedPolicy : Type 0 where
  pub policy_id : Text
  pub name : Text
  pub action : PolicyAction
  pub details : Option Text

-- `VectorDbProvider | VectorDbConfig`, and the same of LLM providers.
pub data VectorDbSource : Type 0 where
  named : VectorDbProvider → VectorDbSource
  configured : VectorDbConfig → VectorDbSource

pub data LlmSource : Type 0 where
  named : LlmProvider → LlmSource
  configured : LlmConfig → LlmSource

pub record GateInterceptRequest : Type 0 where
  pub query : Text
  pub context_source : Option VectorDbSource
  pub policies : Option (List Text)
  pub user_context : Option UserContext
  pub session_id : Option Text
  pub metadata : Option Fields

pub record GateInterceptResponse : Type 0 where
  pub allowed : Bool
  pub safe_query : Text
  pub original_query : Text
  pub classifications : List Classification
  pub applied_policies : List AppliedPolicy
  pub audit_id : Text
  pub block_reason : Option Text
  pub suggested_query : Option Text

pub record GateQueryRequest : Type 0 where
  pub query : Text
  pub context_source : Option VectorDbSource
  pub llm_provider : Option LlmSource
  pub model : Option Text
  pub top_k : Option JsNumber
  pub policies : Option (List Text)
  pub user_context : Option UserContext
  pub session_id : Option Text
  pub system_prompt : Option Text
  pub stream : Option Bool
  pub metadata : Option Fields

pub record TokenUsage : Type 0 where
  pub prompt_tokens : ℕ
  pub completion_tokens : ℕ
  pub total_tokens : ℕ
  pub estimated_cost : Option Decimal

pub record ContextDocument : Type 0 where
  pub id : Text
  pub content : Text
  pub score : Decimal
  pub metadata : Option Fields
  pub classifications : Option (List Classification)

pub record GateQueryResponse : Type 0 where
  pub response : Text
  pub safe_query : Text
  pub classifications : List Classification
  pub audit_id : Text
  pub tokens_used : TokenUsage
  pub context : Option (List ContextDocument)
  pub applied_policies : List AppliedPolicy
  pub processing_time_ms : ℕ

pub record GateEmbedRequest : Type 0 where
  pub documents : List Text
  pub metadata : Option (List Fields)
  pub vector_db : Option VectorDbSource
  pub classify_before_embed : Option Bool
  pub policies : Option (List Text)
  pub chunk_size : Option ℕ
  pub chunk_overlap : Option ℕ

pub data AuditEventType : Type 0 where
  query intercept embed classify : AuditEventType

-- A date is its ISO text, what `toISOString` gives.
pub record AuditQueryOptions : Type 0 where
  pub start_date : Option Text
  pub end_date : Option Text
  pub user_id : Option Text
  pub event_type : Option AuditEventType
  pub policy_id : Option Text
  pub limit : Option ℕ
  pub offset : Option ℕ

pub data ChunkType : Type 0 where
  content classification policy done error : ChunkType

pub record StreamChunk : Type 0 where
  pub type : ChunkType
  pub content : Option Text
  pub classification : Option Classification
  pub policy : Option AppliedPolicy
  pub final_response : Option GateQueryResponse
  pub error : Option Text

-- `req.secureLens` of express.ts.
pub record SecureLensContext : Type 0 where
  pub intercept_result : Option GateInterceptResponse
  pub safe_query : Option Text
  pub audit_id : Option Text
  pub user_context : Option UserContext
