-- ===== src/Sdk/Langchain/Callbacks.antt =====
-- langchain.ts: the options, callbacks and extractions of `SecureLensCallbackHandler`. A callback is a function of the history and of its
-- arguments that gives the error that it throws, if it throws one.
use trust_vault.Prelude.{
  Bool, true, false, Option, none, some, get_or, String, List, [], ◌∷◌, ◌++◌, Text, text,
  if◌then◌else◌,
}
use trust_vault.Sdk.Value.{Value, undefined, str, Fields, coalesce, lookup, opt}
use trust_vault.Sdk.Types.{
  Classification, ClassificationResult, AppliedPolicy, UserContext, GateInterceptResponse,
}
use trust_vault.Sdk.Errors.{Thrown, sdk, policy, no_options, policy_error}
use trust_vault.Sdk.Effect.{
  World, warned, got_classifications, applied_policy, blocked, ok, Io, raise, emit, continue,
  outcome,
}
use trust_vault.Sdk.Langchain.Contexts.{RunContext}

abbrev pub Callback : Type 0 → Type 0
Callback A = World → A → Option Thrown

-- An option key that is absent is `none`, and one that is present and undefined is `some none`.
pub record SecureLensCallbackOptions : Type 0 where
  pub policies : Option (List Text)
  pub user_context : Option UserContext
  pub block_on_policy_violation : Option (Option Bool)
  pub classify_retrieved_docs : Option (Option Bool)
  pub classify_responses : Option (Option Bool)
  pub on_classification : Option (Callback (List Classification × String))
  pub on_policy_applied : Option (Callback AppliedPolicy)
  pub on_blocked : Option (Callback GateInterceptResponse)

-- `{ key: true, ...options }`, read as a condition.
abbrev pub enabled : Option (Option Bool) → Bool
enabled none = true
enabled (some none) = false
enabled (some (some b)) = b

-- `error instanceof SecureLensPolicyError`
abbrev pub is_policy_error : Thrown → Bool
is_policy_error (sdk e) = elim e.details [ policy _ _ _ _ ↦ true | _ ↦ false ]
is_policy_error _ = false

-- `options.onClassification?.(classifications, source)` where there are any.
unfoldable pub notify :
    Option (Callback (List Classification × String)) → List Classification → String → Io (Unit {0})
notify none found source w = (ok tt, w)
notify (some f) [] source w = (ok tt, w)
notify (some f) (c ∷ cs) source w =
    outcome (f w (c ∷ cs, source)) (got_classifications (c ∷ cs) source ∷ w)

-- `for (const policy of result.appliedPolicies) options.onPolicyApplied?.(policy)`
unfoldable pub apply_policies : Option (Callback AppliedPolicy) → List AppliedPolicy → Io (Unit {0})
apply_policies none ps w = (ok tt, w)
apply_policies (some f) [] w = (ok tt, w)
apply_policies (some f) (p ∷ ps) w =
    continue (outcome (f w p) w).0 (λ _. apply_policies (some f) ps) (applied_policy p ∷ w)

unfoldable pub report_block :
    Option (Callback GateInterceptResponse) → GateInterceptResponse → Io (Unit {0})
report_block none result w = (ok tt, w)
report_block (some f) result w = outcome (f w result) (blocked result ∷ w)

-- What a refused query throws.
abbrev pub block_error : GateInterceptResponse → Thrown
block_error result = sdk (
    policy_error (some (get_or result.block_reason (text "Query blocked by policy"))) no_options
      undefined undefined undefined (opt str result.suggested_query))

-- `extractQuery` and `extractResponse`
unfoldable pub extract_query : Fields → Value
extract_query inputs = coalesce (lookup "query" inputs) (
    coalesce (lookup "question" inputs) (coalesce (lookup "input" inputs) (lookup "prompt" inputs)))

unfoldable pub extract_response : Fields → Value
extract_response outputs = coalesce (lookup "result" outputs) (
    coalesce (lookup "answer" outputs) (
      coalesce (lookup "output" outputs)
        (coalesce (lookup "response" outputs) (lookup "text" outputs))))

abbrev pub with_result : GateInterceptResponse → RunContext → RunContext
with_result result context = record context {
  intercept_result = some result;
  classifications = context.classifications ++ result.classifications;
  applied_policies = context.applied_policies ++ result.applied_policies;
}

abbrev pub add_classifications : List Classification → RunContext → RunContext
add_classifications found context = record context {
  classifications = context.classifications ++ found;
}

abbrev pub all_classifications : List ClassificationResult → List Classification
all_classifications [] = []
all_classifications (r ∷ rs) = r.classifications ++ all_classifications rs

-- `catch (error) { console.warn(message, error) }`
abbrev pub warn : String → Thrown → Io (Unit {0})
warn message e = emit (warned (text message) e)

-- The same, but a policy error is thrown on.
abbrev pub warn_unless_policy : Thrown → Io (Unit {0})
warn_unless_policy e =
    if is_policy_error e then raise e else warn "[SecureLens] Failed to intercept query:" e
