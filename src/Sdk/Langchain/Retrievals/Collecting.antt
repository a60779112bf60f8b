-- ===== src/Sdk/Langchain/Retrievals/Collecting.antt =====
-- What the end of a retrieval adds to its context.
use trust_vault.Prelude.{
  ◌≡◌, ◌≢◌, refl, String, true, false, ◌==◌, Option, some, get_or, List, [], ◌∷◌, ◌++◌, map, length,
  Text, text_eq_iff, arith, ap, sym, ◌∙◌,
}
use mathlib.Core.List.{flatten}
use trust_vault.Sdk.Types.{ClassificationResult}
use trust_vault.Sdk.Effect.{Env, World, Result, ok, throw, ◌>>=◌, pure, recover}
use trust_vault.Sdk.Client.{SecureLensClient}
use trust_vault.Sdk.Gate.Calls.{Wire, classify_batch}
use trust_vault.Sdk.Langchain.Contexts.{
  RunContext, Contexts, get_context, set_context, get_context-set_context,
}
use trust_vault.Sdk.Langchain.Callbacks.{
  SecureLensCallbackOptions, enabled, add_classifications, all_classifications, warn,
}
use trust_vault.Sdk.Langchain.Retriever.{Document}
use trust_vault.Sdk.Langchain.Retrievals.{
  classified, classify_texts, handle_retriever_end, get_classifications,
}

-- The classifications of all results, in their order.
all_classifications-flatten :
    (results : List ClassificationResult)
    → all_classifications results ≡ flatten (map (λ r. r.classifications) results)
unfolding flatten
all_classifications-flatten [] = refl
all_classifications-flatten (r ∷ rs) =
    ap (λ found. r.classifications ++ found) (all_classifications-flatten rs)

-- A block whose errors are only warned of goes on with what follows it.
pub warned_then :
    {A : Type 0} (r : Result (Unit {0})) (message : String) (a : A) (v : World)
    → (((λ u. recover r (warn message) u) >>= λ _. pure a) v).0 ≡ ok a
warned_then (ok u) message a v = refl
warned_then (throw e) message a v = refl

of_context :
    (key : Text) (m : Contexts) (c : RunContext)
    → get_context key m ≡ some c
    → get_classifications key m ≡ c.classifications
unfolding get_classifications
of_context key m c h = ground arith

found_after :
    (key : Text) (c : RunContext) (m : Contexts)
    → get_classifications key (set_context key c m) ≡ c.classifications
found_after key c m =
    of_context key (set_context key c m) c
      (get_context-set_context key key c m ∙ ground (arith, text_eq_iff key key))

is_not_empty : (d : Document) (ds : List Document) → (length (d ∷ ds) == 0) ≡ false
is_not_empty d ds = ground arith

module _ (env : Env) (wire : Wire) (client : SecureLensClient)
    (options : SecureLensCallbackOptions) where
  -- Where the classification of documents is on, there are documents, the run of the retrieval's
  -- parent (or its own, if it has none) has a context, and the gate answers, the classifications of
  -- that run are afterwards those of before, followed by those of all documents in their order, even
  -- if the callback throws.
  pub handle_retriever_end_collects :
      (documents : List Document) (run_id : Text) (parent : Option Text) (contexts : Contexts)
      (context : RunContext) (results : List ClassificationResult) (w w1 : World)
      → enabled options.classify_retrieved_docs ≡ true
      → documents ≢ []
      → get_context (get_or parent run_id) contexts ≡ some context
      → classify_batch env wire client (map (λ doc. doc.page_content) documents) w
        ≡ (ok results, w1)
      → (after : Contexts) × ((handle_retriever_end env wire client options documents run_id parent
            contexts w).0
          ≡ ok after)
        × (get_classifications (get_or parent run_id) after
            ≡ get_classifications (get_or parent run_id) contexts
              ++ flatten (map (λ r. r.classifications) results))
  unfolding handle_retriever_end classify_texts classified
  handle_retriever_end_collects [] run_id parent contexts context results w w1 on some_docs known
        answered =
      absurd (some_docs refl)
  handle_retriever_end_collects (d ∷ ds) run_id parent contexts context results w w1 on some_docs
        known answered =
      let key = get_or parent run_id in
      let context' = add_classifications (all_classifications results) context in
      (
        set_context key context' contexts,
        rw (on, known, is_not_empty d ds, answered) (warned_then _ _ _ _),
        found_after key context' contexts
            ∙ ap (λ c. c ++ all_classifications results)
                (sym (of_context key contexts context known))
            ∙ ap (λ found. get_classifications key contexts ++ found)
                (all_classifications-flatten results),
      )
