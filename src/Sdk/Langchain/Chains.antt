-- ===== src/Sdk/Langchain/Chains.antt =====
-- langchain.ts: the chain handlers of `SecureLensCallbackHandler`, over the map of run contexts. Each runs
-- to its end before the next; Interleaved has them in parts.
pub mod Blocking
pub mod Cleanup
use trust_vault.Prelude.{
  ℕ, Bool, true, false, not, ◌&&◌, Option, none, some, get_or, String, List, [], ◌∷◌, ◌++◌, map,
  Text, text, truthy_text, length, ltb, if◌then◌else◌,
}
use trust_vault.Sdk.Value.{Value, undefined, str, Fields, coalesce, lookup, truthy, opt}
use trust_vault.Sdk.Types.{
  Classification, ClassificationResult, AppliedPolicy, UserContext, GateInterceptResponse,
}
use trust_vault.Sdk.Errors.{Thrown, sdk, js, Details, policy, no_options, policy_error}
use trust_vault.Sdk.Effect.{
  World, warned, got_classifications, applied_policy, blocked, Env, Result, ok, throw, Io, ◌>>=◌,
  ◌>>◌, pure, raise, catch, emit, continue,
}
use trust_vault.Sdk.Client.{SecureLensClient}
use trust_vault.Sdk.Gate.Requests.{no_query}
use trust_vault.Sdk.Gate.Calls.{Wire, intercept, classify, classify_batch}
use trust_vault.Sdk.Langchain.Contexts.{
  RunContext, new_context, Contexts, get_context, set_context, delete_context,
}
use trust_vault.Sdk.Langchain.Callbacks.{
  SecureLensCallbackOptions, enabled, is_policy_error, notify, apply_policies, report_block,
  block_error, extract_query, extract_response, with_result, add_classifications,
  all_classifications, warn, warn_unless_policy,
}

module _ (env : Env) (wire : Wire) (client : SecureLensClient)
    (options : SecureLensCallbackOptions) where
  -- The request for a query that the chain's inputs give; a value that is no text is refused.
  unfoldable pub intercept_query : Value → Io GateInterceptResponse
  intercept_query (str query) = intercept env wire client (record {
    query = query;
    context_source = none;
    policies = options.policies;
    user_context = options.user_context;
    session_id = none;
    metadata = none;
  })
  intercept_query v = raise (sdk no_query)

  -- What follows the answer of the gate in the `try` block.
  unfoldable pub announce : GateInterceptResponse → Io (Unit {0})
  unfolding notify apply_policies report_block
  announce result = do
    notify options.on_classification result.classifications "query"
    apply_policies options.on_policy_applied result.applied_policies
    (if not result.allowed && enabled options.block_on_policy_violation
        then (do report_block options.on_blocked result; raise (block_error result))
        else pure tt)

  answered : Text → RunContext → Contexts → Result GateInterceptResponse → Io Contexts
  unfolding announce
  answered run_id context contexts (ok result) = do
    catch (announce result) warn_unless_policy
    pure (set_context run_id (with_result result context) contexts)
  answered run_id context contexts (throw e) = do
    warn_unless_policy e
    pure (set_context run_id context contexts)

  unfoldable pub handle_chain_start : Fields → Text → Contexts → Io Contexts
  unfolding extract_query intercept_query answered
  handle_chain_start inputs run_id contexts w =
      let query = extract_query inputs in
      let context = new_context query (env.now w) in
      let (r, v) = intercept_query query w in
      if truthy query then answered run_id context contexts r v else (ok contexts, w)

  -- `classify` refuses a value that is no text.
  classify_value : Value → Io ClassificationResult
  classify_value (str content) = classify env wire client content
  classify_value v = classify env wire client []

  -- The `try` block of `handleChainEnd`; what it adds to the context is deleted with it.
  classify_response : Value → Io (Unit {0})
  unfolding classify_value notify
  classify_response response =
      if truthy response
      then (do
        result ← classify_value response
        notify options.on_classification result.classifications "response")
      else pure tt

  end_of : Fields → Text → Contexts → Option RunContext → Io Contexts
  unfolding extract_response classify_response
  end_of outputs run_id contexts none = pure contexts
  end_of outputs run_id contexts (some context) = do
    catch
        (if enabled options.classify_responses
          then classify_response (extract_response outputs)
          else pure tt)
        (warn "[SecureLens] Failed to classify response:")
    pure (delete_context run_id contexts)

  unfoldable pub handle_chain_end : Fields → Text → Contexts → Io Contexts
  unfolding end_of get_context delete_context
  handle_chain_end outputs run_id contexts =
      end_of outputs run_id contexts (get_context run_id contexts)

  unfoldable pub handle_chain_error : Text → Contexts → Io Contexts
  unfolding delete_context
  handle_chain_error run_id contexts = pure (delete_context run_id contexts)
