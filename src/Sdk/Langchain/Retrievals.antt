-- ===== src/Sdk/Langchain/Retrievals.antt =====
-- langchain.ts: the retriever and LLM handlers of `SecureLensCallbackHandler`, over the map of run contexts. Each runs
-- to its end before the next; Interleaved has them in parts.
pub mod Orphans
pub mod Collecting
use trust_vault.Prelude.{
  ℕ, Bool, true, false, not, ◌&&◌, ◌||◌, ◌==◌, Option, none, some, get_or, String, List, [], ◌∷◌,
  ◌++◌, map, Text, text, truthy_text, length, ltb, if◌then◌else◌,
}
use mathlib.Core.List.{flatten}
use trust_vault.Sdk.Value.{Value, undefined, str, Fields, coalesce, lookup, truthy, opt}
use trust_vault.Sdk.Types.{
  Classification, ClassificationResult, AppliedPolicy, UserContext, GateInterceptResponse,
}
use trust_vault.Sdk.Errors.{Thrown, sdk, js, Details, policy, no_options, policy_error}
use trust_vault.Sdk.Effect.{
  World, warned, got_classifications, applied_policy, blocked, Env, Result, ok, throw, Io, ◌>>=◌,
  ◌>>◌, pure, raise, catch, emit, continue,
}
use trust_vault.Sdk.Client.{SecureLensClient}
use trust_vault.Sdk.Gate.Requests.{no_query}
use trust_vault.Sdk.Gate.Calls.{Wire, intercept, classify, classify_batch}
use trust_vault.Sdk.Langchain.Contexts.{
  RunContext, new_context, ByRun, Contexts, get_context, set_context, delete_context,
}
use trust_vault.Sdk.Langchain.Retriever.{Document}
use trust_vault.Sdk.Langchain.Callbacks.{
  SecureLensCallbackOptions, enabled, is_policy_error, notify, apply_policies, report_block,
  block_error, extract_query, extract_response, with_result, add_classifications,
  all_classifications, warn, warn_unless_policy,
}

-- `parentRunId ? this.runContexts.get(parentRunId) : undefined`
abbrev pub parent_context : {A : Type 0} → Option Text → ByRun A → Option A
parent_context none contexts = none
parent_context (some p) contexts = if truthy_text p then get_context p contexts else none

module _ (env : Env) (wire : Wire) (client : SecureLensClient)
    (options : SecureLensCallbackOptions) where
  start_of : Text → Text → Contexts → Option RunContext → Io Contexts
  unfolding set_context
  start_of query run_id contexts (some context) w = (ok contexts, w)
  start_of query run_id contexts none w =
      (ok (set_context run_id (new_context (str query) (env.now w)) contexts), w)

  unfoldable pub handle_retriever_start : Text → Text → Option Text → Contexts → Io Contexts
  unfolding start_of get_context
  handle_retriever_start query run_id parent_run_id contexts =
      start_of query run_id contexts (parent_context parent_run_id contexts)

  -- The part that `handleRetrieverEnd` and `handleLLMEnd` share: the texts are classified, and what
  -- is found is added to the context under `key`.
  unfoldable pub classified :
      Contexts
      → Text
      → RunContext
      → String
      → String
      → Result (List ClassificationResult)
      → Io Contexts
  unfolding set_context notify
  classified contexts key context source message (throw e) = do warn message e; pure contexts
  classified contexts key context source message (ok results) = do
    let found = all_classifications results
    catch (notify options.on_classification found source) (warn message)
    pure (set_context key (add_classifications found context) contexts)

  unfoldable pub classify_texts :
      List Text → String → String → Text → Contexts → Option RunContext → Io Contexts
  unfolding classified
  classify_texts texts source message key contexts none w = (ok contexts, w)
  classify_texts texts source message key contexts (some context) w =
      let (r, v) = classify_batch env wire client texts w in
      classified contexts key context source message r v

  unfoldable pub handle_retriever_end : List Document → Text → Option Text → Contexts → Io Contexts
  unfolding classify_texts get_context
  handle_retriever_end documents run_id parent_run_id contexts =
      let key = get_or parent_run_id run_id in
      if not (enabled options.classify_retrieved_docs) || length documents == 0
      then pure contexts
      else classify_texts (map (λ doc. doc.page_content) documents) "retrieved_docs"
          "[SecureLens] Failed to classify retrieved documents:" key contexts
          (get_context key contexts)

  unfoldable pub handle_retriever_error : Text → Contexts → Io Contexts
  unfolding delete_context
  handle_retriever_error run_id contexts = pure (delete_context run_id contexts)

  -- `handleLLMStart` and `handleLLMError` do nothing.
  abbrev pub handle_llm_start : Contexts → Io Contexts
  handle_llm_start contexts = pure contexts

  unfoldable pub handle_llm_end : List (List Text) → Text → Option Text → Contexts → Io Contexts
  unfolding classify_texts get_context
  handle_llm_end generations run_id parent_run_id contexts =
      let key = get_or parent_run_id run_id in
      let texts = flatten generations in
      if not (enabled options.classify_responses) || length texts == 0
      then pure contexts
      else classify_texts texts "llm_response" "[SecureLens] Failed to classify LLM response:" key
          contexts (get_context key contexts)

-- `getClassifications` and `getAppliedPolicies`
unfoldable pub get_classifications : Text → Contexts → List Classification
unfolding get_context
get_classifications run_id contexts = elim (get_context run_id contexts) [
  | none ↦ []
  | some context ↦ context.classifications
]

unfoldable pub get_applied_policies : Text → Contexts → List AppliedPolicy
unfolding get_context
get_applied_policies run_id contexts = elim (get_context run_id contexts) [
  | none ↦ []
  | some context ↦ context.applied_policies
]
