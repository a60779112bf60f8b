-- ===== src/Sdk/Tests.antt =====
-- Tests of the SDK's model, and the concrete clients, servers and answers that they use.
mod Core
mod Gates
mod Runs
mod Interleavings
mod Retrieval
mod Routes
use trust_vault.Prelude.{
  ℕ, ℤ, pos, negsuc, Bool, true, false, Option, none, some, List, [], ◌∷◌, ◌++◌, Text, text,
}
use trust_vault.Sdk.Value.{Value, str, end, field}
use trust_vault.Sdk.Types.{
  AppliedPolicy, Classification, ClassificationResult, ContextDocument, GateInterceptResponse,
  GateQueryRequest, GateQueryResponse, TokenUsage, SensitivityLevel, amount,
}
use trust_vault.Sdk.Effect.{
  Env, Response, FetchResult, responded, rejected, parsed, read_text, BodyStream,
}
use trust_vault.Sdk.Client.{SecureLensClient}
use trust_vault.Sdk.Gate.Calls.{Wire}
use trust_vault.Sdk.Errors.{js}

-- A server that always gives the same answer, and a codec for which every text is one object.
abbrev pub env_of : FetchResult → Env
env_of result = record {
  fetch = λ w request. result;
  now = λ w. 1700;
  random = λ w. text "0.k3x9";
  parse_json = λ t. parsed (Value.obj (field "message" (str t) end));
  stringify = λ v. text "{}";
}

abbrev pub answer_of : ℕ → Text → FetchResult
answer_of status body =
    responded
      (record { status = status; content_type = none; body = read_text body; stream = none })

abbrev pub unavailable : FetchResult
unavailable = answer_of 503 (text "down")

abbrev pub accepted : FetchResult
accepted = answer_of 200 (text "fine")

abbrev pub refused : FetchResult
refused = rejected (js (record { name = "TypeError"; message = text "fetch failed" }))

abbrev pub api_key : Text
api_key = text "sl_0123456789abcdefghij0123456789"

abbrev pub client_of : ℤ → SecureLensClient
client_of retries = record {
  base_url = text "https://api.securelens.ai";
  timeout = 30000;
  retries = retries;
  debug = false;
  api_key = api_key;
  tenant_id = none;
  auth = record { api_key = api_key; tenant_id = none; headers = end };
}

abbrev pub tokens : TokenUsage
tokens = record {
  prompt_tokens = 1;
  completion_tokens = 2;
  total_tokens = 3;
  estimated_cost = none;
}

abbrev pub reply : GateQueryResponse
reply = record {
  response = text "hello";
  safe_query = text "hi";
  classifications = [];
  audit_id = text "a1";
  tokens_used = tokens;
  context = none;
  applied_policies = [];
  processing_time_ms = 7;
}

-- The gate refuses every query, and ranks every text as restricted.
abbrev pub refusal : GateInterceptResponse
refusal = record {
  allowed = false;
  safe_query = text "hi";
  original_query = text "hi";
  classifications = [];
  applied_policies = [];
  audit_id = text "a1";
  block_reason = some (text "secret");
  suggested_query = none;
}

abbrev pub restricted_text : ClassificationResult
restricted_text = record {
  text = text "x";
  classifications = [];
  overall_sensitivity = SensitivityLevel.restricted;
  processing_time_ms = 1;
}

abbrev pub wire : Wire
wire = record {
  intercept = λ v. refusal;
  query = λ v. reply;
  classification = λ v. restricted_text;
  classifications = λ v. restricted_text ∷ [];
}

abbrev pub query_request : Option Bool → GateQueryRequest
query_request stream = record {
  query = text "hi";
  context_source = none;
  llm_provider = none;
  model = none;
  top_k = some (amount (record { units = 5; places = 0 }));
  policies = none;
  user_context = none;
  session_id = none;
  system_prompt = none;
  stream = stream;
  metadata = none;
}
