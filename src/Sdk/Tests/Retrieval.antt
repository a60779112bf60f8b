-- ===== src/Sdk/Tests/Retrieval.antt =====
-- A test of the end of a retrieval: one document is found under a chain's run.
use mathlib.Core.List.{flatten}
use trust_vault.Prelude.{pos, ◌≡◌, ◌≢◌, refl, none, some, List, [], ◌∷◌, ◌++◌, text, map}
use trust_vault.Sdk.Value.{str, end}
use trust_vault.Sdk.Effect.{World, ok}
use trust_vault.Sdk.Client.{post, request, execute_request}
use trust_vault.Sdk.Gate.Calls.{classify_batch}
use trust_vault.Sdk.Langchain.Contexts.{RunContext, new_context, Contexts, get_context}
use trust_vault.Sdk.Langchain.Callbacks.{SecureLensCallbackOptions}
use trust_vault.Sdk.Langchain.Retriever.{Document}
use trust_vault.Sdk.Langchain.Retrievals.{handle_retriever_end, get_classifications}
use trust_vault.Sdk.Langchain.Retrievals.Collecting.{handle_retriever_end_collects}
use trust_vault.Sdk.Tests.{env_of, accepted, client_of, wire, restricted_text}

abbrev plain : SecureLensCallbackOptions
plain = record {
  policies = none;
  user_context = none;
  block_on_policy_violation = none;
  classify_retrieved_docs = none;
  classify_responses = none;
  on_classification = none;
  on_policy_applied = none;
  on_blocked = none;
}

abbrev chain_context : RunContext
chain_context = new_context (str (text "hi")) 3

abbrev running : Contexts
running = (text "chain", chain_context) ∷ []

abbrev documents : List Document
documents = record { page_content = text "x"; metadata = end; secure_lens = none } ∷ []

abbrev after_batch : World
after_batch = (classify_batch (env_of accepted) wire (client_of (pos 0)) (text "x" ∷ []) []).1

has_documents : documents ≢ []
has_documents h = cc

has_context : get_context (text "chain") running ≡ some chain_context
unfolding get_context text
has_context = refl

are_classified :
    classify_batch (env_of accepted) wire (client_of (pos 0)) (text "x" ∷ []) []
    ≡ (ok (restricted_text ∷ []), after_batch)
unfolding classify_batch post request execute_request text
are_classified = refl

handle_retriever_end_collects_example :
    (after : Contexts) × ((handle_retriever_end
        (env_of accepted)
        wire
        (client_of (pos 0))
        plain
        documents
        (text "run")
        (some (text "chain"))
        running
        []).0
      ≡ ok after)
    × (get_classifications (text "chain") after
        ≡ get_classifications (text "chain") running
          ++ flatten (map (λ r. r.classifications) (restricted_text ∷ [])))
handle_retriever_end_collects_example =
    handle_retriever_end_collects (env_of accepted) wire (client_of (pos 0)) plain documents
      (text "run") (some (text "chain")) running chain_context (restricted_text ∷ []) [] after_batch
      refl has_documents has_context are_classified
