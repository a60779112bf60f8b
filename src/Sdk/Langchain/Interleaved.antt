-- ===== src/Sdk/Langchain/Interleaved.antt =====
-- langchain.ts: `SecureLensCallbackHandler` where handlers wait for the gate while others run. A run
-- id leads to the address of a context, and a handler that waits keeps the address of its own.
pub mod Steps
pub mod Ownership
pub mod Isolation
pub mod Late
use trust_vault.Prelude.{
  ℕ, suc, ◌==◌, ◌≡◌, Bool, true, false, not, ◌&&◌, ◌||◌, Option, none, some, get_or, List, [], ◌∷◌,
  ◌++◌, map, Text, length, if◌then◌else◌,
}
use mathlib.Core.List.{flatten}
use trust_vault.Sdk.Value.{Value, undefined, str, Fields, truthy}
use trust_vault.Sdk.Types.{Classification, ClassificationResult, GateInterceptResponse}
use trust_vault.Sdk.Errors.{Thrown}
use trust_vault.Sdk.Effect.{World, Env, Result, ok, throw}
use trust_vault.Sdk.Client.{SecureLensClient}
use trust_vault.Sdk.Gate.Calls.{Wire}
use trust_vault.Sdk.Langchain.Contexts.{
  RunContext, new_context, ByRun, Contexts, get_context, set_context, delete_context,
}
use trust_vault.Sdk.Langchain.Callbacks.{
  SecureLensCallbackOptions, enabled, is_policy_error, extract_query, extract_response, with_result,
  add_classifications, all_classifications,
}
use trust_vault.Sdk.Langchain.Chains.{announce}
use trust_vault.Sdk.Langchain.Retriever.{Document}
use trust_vault.Sdk.Langchain.Retrievals.{parent_context}

-- A handler that waits: for `intercept`, for `classify` at the end of a chain, for `classifyBatch`.
pub data Pending : Type 0 where
  intercepting classifying_response : Text → ℕ → Pending
  classifying_batch : ℕ → Pending

-- Addresses from `next` on are free.
pub record Handler : Type 0 where
  pub contexts : ByRun ℕ
  pub heap : ℕ → RunContext
  pub next : ℕ
  pub pending : List Pending

abbrev pub new_handler : Handler
new_handler = record { contexts = []; heap = λ a. new_context undefined 0; next = 0; pending = [] }

-- The map of run contexts as it is read.
abbrev pub view_of : (ℕ → RunContext) → ByRun ℕ → Contexts
view_of heap [] = []
view_of heap ((k, a) ∷ m) = (k, heap a) ∷ view_of heap m

abbrev pub view : Handler → Contexts
view h = view_of h.heap h.contexts

unfoldable pub put : ℕ → RunContext → (ℕ → RunContext) → ℕ → RunContext
put a c heap b = if b == a then c else heap b

abbrev allocate : RunContext → Handler → Handler
allocate c h = record h { heap = put h.next c h.heap; next = suc h.next }

abbrev modify : ℕ → (RunContext → RunContext) → Handler → Handler
modify a f h = record h { heap = put a (f (h.heap a)) h.heap }

abbrev wait : Pending → Handler → Handler
wait p h = record h { pending = p ∷ h.pending }

abbrev set_run : Text → ℕ → Handler → Handler
set_run run_id a h = record h { contexts = set_context run_id a h.contexts }

abbrev forget_run : Text → Handler → Handler
forget_run run_id h = record h { contexts = delete_context run_id h.contexts }

module _ (env : Env) (wire : Wire) (client : SecureLensClient)
    (options : SecureLensCallbackOptions) where
  unfoldable pub begin_chain_start : Fields → Text → ℕ → Handler → Handler
  unfolding extract_query put
  begin_chain_start inputs run_id now h =
      let query = extract_query inputs in
      if truthy query
      then wait (intercepting run_id h.next) (allocate (new_context query now) h)
      else h

  -- A policy error leaves the `catch` block, so that the context is not stored.
  abbrev stored_unless : Result (Unit {0}) → Text → ℕ → Handler → Handler
  stored_unless (ok _) run_id a h = set_run run_id a h
  stored_unless (throw e) run_id a h = if is_policy_error e then h else set_run run_id a h

  unfoldable pub resume_chain_start :
      Text → ℕ → Result GateInterceptResponse → World → Handler → Handler
  unfolding announce set_context put
  resume_chain_start run_id a (ok result) w h =
      stored_unless (announce env wire client options result w).0 run_id a
        (modify a (with_result result) h)
  resume_chain_start run_id a (throw e) w h = stored_unless (throw e) run_id a h

  abbrev end_with : Option ℕ → Value → Text → Handler → Handler
  end_with none response run_id h = h
  end_with (some a) response run_id h =
      if enabled options.classify_responses && truthy response
      then wait (classifying_response run_id a) h
      else forget_run run_id h

  unfoldable pub begin_chain_end : Fields → Text → Handler → Handler
  unfolding extract_response get_context delete_context
  begin_chain_end outputs run_id h =
      end_with (get_context run_id h.contexts) (extract_response outputs) run_id h

  unfoldable pub resume_chain_end : Text → ℕ → Result ClassificationResult → Handler → Handler
  unfolding delete_context put
  resume_chain_end run_id a (ok result) h =
      forget_run run_id (modify a (add_classifications result.classifications) h)
  resume_chain_end run_id a (throw e) h = forget_run run_id h

  -- `handleChainError` and `handleRetrieverError`
  unfoldable pub on_error : Text → Handler → Handler
  unfolding delete_context
  on_error run_id h = forget_run run_id h

  abbrev retrieve_in : Option ℕ → RunContext → Text → Handler → Handler
  retrieve_in (some a) c run_id h = h
  retrieve_in none c run_id h = set_run run_id h.next (allocate c h)

  unfoldable pub begin_retriever_start : Text → Text → Option Text → ℕ → Handler → Handler
  unfolding set_context get_context put
  begin_retriever_start query run_id parent_run_id now h =
      retrieve_in (parent_context parent_run_id h.contexts) (new_context (str query) now) run_id h

  abbrev classify_for : Option ℕ → Handler → Handler
  classify_for none h = h
  classify_for (some a) h = wait (classifying_batch a) h

  unfoldable pub begin_retriever_end : List Document → Text → Option Text → Handler → Handler
  unfolding get_context
  begin_retriever_end documents run_id parent_run_id h =
      if not (enabled options.classify_retrieved_docs) || length documents == 0
      then h
      else classify_for (get_context (get_or parent_run_id run_id) h.contexts) h

  unfoldable pub begin_llm_end : List (List Text) → Text → Option Text → Handler → Handler
  unfolding get_context
  begin_llm_end generations run_id parent_run_id h =
      let texts = flatten generations in
      if not (enabled options.classify_responses) || length texts == 0
      then h
      else classify_for (get_context (get_or parent_run_id run_id) h.contexts) h

  -- What `handleRetrieverEnd` and `handleLLMEnd` do with the answer.
  unfoldable pub resume_batch : ℕ → Result (List ClassificationResult) → Handler → Handler
  unfolding put
  resume_batch a (ok results) h = modify a (add_classifications (all_classifications results)) h
  resume_batch a (throw e) h = h
