-- ===== src/Sdk/Tests/Runs.antt =====
-- Tests of the LangChain handlers and of the secured retriever.
use trust_vault.Prelude.{
  pos, ◌≡◌, refl, true, false, Option, none, some, List, [], ◌∷◌, Text, text, text_eq, truthy_text,
  ◌⊎◌, get_or,
}
use trust_vault.Sdk.Value.{str, Fields, end, field, truthy}
use trust_vault.Sdk.Types.{SensitivityLevel, GateInterceptResponse}
use trust_vault.Sdk.Errors.{JsError, js, SecureLensError, sdk}
use trust_vault.Sdk.Effect.{World, Result, ok, throw, Io}
use trust_vault.Sdk.Gate.Calls.{intercept, classify_batch}
use trust_vault.Sdk.Gate.Requests.{validate_intercept_request}
use trust_vault.Sdk.Client.{post, request, execute_request}
use trust_vault.Sdk.Langchain.Contexts.{RunContext, get_context, Contexts}
use trust_vault.Sdk.Langchain.Callbacks.{SecureLensCallbackOptions, Callback, extract_query}
use trust_vault.Sdk.Langchain.Chains.{intercept_query, handle_chain_start}
use trust_vault.Sdk.Langchain.Chains.Blocking.{handle_chain_start_blocks}
use trust_vault.Sdk.Langchain.Retriever.{
  Document, SecureLensRetrieverOptions, enrich, get_relevant_documents,
}
use trust_vault.Sdk.Langchain.Retriever.Filtering.{get_relevant_documents_exact, kept}
use trust_vault.Sdk.Tests.{env_of, accepted, client_of, wire, refusal, restricted_text}

abbrev options_of : Option (Callback GateInterceptResponse) → SecureLensCallbackOptions
options_of on_blocked = record {
  policies = none;
  user_context = none;
  block_on_policy_violation = none;
  classify_retrieved_docs = none;
  classify_responses = none;
  on_classification = none;
  on_policy_applied = none;
  on_blocked = on_blocked;
}

abbrev inputs : Fields
inputs = field "query" (str (text "hi")) end

abbrev after_intercept : World
after_intercept =
    (intercept_query (env_of accepted) wire (client_of (pos 0)) (options_of none) (str (text "hi"))
      []).1

intercepts :
    intercept_query
      (env_of accepted)
      wire
      (client_of (pos 0))
      (options_of none)
      (extract_query inputs)
      []
    ≡ (ok refusal, after_intercept)
unfolding intercept_query intercept validate_intercept_request post request execute_request text
    extract_query
intercepts = refl

has_query : (truthy (extract_query inputs)) ≡ true
unfolding extract_query text
has_query = refl

handle_chain_start_blocks_example :
    let started =
      (handle_chain_start
        (env_of accepted)
        wire
        (client_of (pos 0))
        (options_of none)
        inputs
        (text "run")
        []
        []).0 in
    ((e : SecureLensError) × (refusal.allowed ≡ false)
      × (started ≡ throw (sdk e))
      × (e.name ≡ "SecureLensPolicyError")
      × (e.status_code ≡ some 403)
      × (e.message ≡ get_or refusal.block_reason (text "Query blocked by policy")))
    ⊎ ((after : Contexts) × (refusal.allowed ≡ true) × (started ≡ ok after))
handle_chain_start_blocks_example =
    handle_chain_start_blocks (env_of accepted) wire (client_of (pos 0)) (options_of none) inputs
      (text "run") [] refusal [] after_intercept has_query intercepts refl tt tt tt

abbrev own_error : JsError
own_error = record { name = "Error"; message = text "blocked" }

abbrev throwing : Callback GateInterceptResponse
throwing w result = some (js own_error)

intercepts_too :
    intercept_query
      (env_of accepted)
      wire
      (client_of (pos 0))
      (options_of (some throwing))
      (extract_query inputs)
      []
    ≡ (ok refusal, after_intercept)
unfolding intercept_query intercept validate_intercept_request post request execute_request text
    extract_query
intercepts_too = refl

parent_is_named : truthy_text (text "chain") ≡ true
unfolding text
parent_is_named = refl

ids_differ : text_eq (text "run") (text "chain") ≡ false
unfolding text
ids_differ = refl

no_context : get_context {A = RunContext} (text "chain") [] ≡ none
unfolding get_context
no_context = refl

abbrev document : Document
document = record { page_content = text "x"; metadata = end; secure_lens = none }

abbrev base : List Document → Text → Io (List Document)
base found query w = (ok found, w)

abbrev retriever_options : SecureLensRetrieverOptions
retriever_options = record {
  classify_documents = true;
  filter_sensitive = true;
  max_sensitivity = some SensitivityLevel.restricted;
}

abbrev labelled : List Document
labelled = enrich (restricted_text ∷ []) 0 (document ∷ [])

abbrev after_batch : World
after_batch = (classify_batch (env_of accepted) wire (client_of (pos 0)) (text "x" ∷ []) []).1

classifies :
    classify_batch (env_of accepted) wire (client_of (pos 0)) (text "x" ∷ []) []
    ≡ (ok (restricted_text ∷ []), after_batch)
unfolding classify_batch post request execute_request text
classifies = refl

abbrev retrieved : Result (List Document) × World
retrieved =
    get_relevant_documents (env_of accepted) wire (client_of (pos 0)) (base (document ∷ []))
      retriever_options (text "hi") []

retrieves : retrieved.0 ≡ ok labelled
unfolding get_relevant_documents text classify_batch enrich post request execute_request
retrieves = refl

get_relevant_documents_exact_example :
    retrieved
    ≡ (ok (kept SensitivityLevel.restricted (restricted_text ∷ []) (document ∷ [])), after_batch)
get_relevant_documents_exact_example =
    get_relevant_documents_exact (env_of accepted) wire (client_of (pos 0)) (base (document ∷ []))
      retriever_options SensitivityLevel.restricted (text "hi") (document ∷ [])
      (restricted_text ∷ []) [] [] after_batch refl refl refl classifies
