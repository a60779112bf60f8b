-- ===== src/Sdk/Langchain/Interleaved/Steps.antt =====
-- Whatever order the handlers' parts run in, a run shows what was found for it, and nothing else.
use trust_vault.Prelude.{ℕ, ◌==◌, ◌≡◌, Option, List, [], ◌∷◌, ◌++◌, Text, if◌then◌else◌}
use trust_vault.Sdk.Value.{Fields}
use trust_vault.Sdk.Types.{Classification, ClassificationResult, GateInterceptResponse}
use trust_vault.Sdk.Effect.{World, Env, Result, ok, throw}
use trust_vault.Sdk.Client.{SecureLensClient}
use trust_vault.Sdk.Gate.Calls.{Wire}
use trust_vault.Sdk.Langchain.Callbacks.{SecureLensCallbackOptions, all_classifications}
use trust_vault.Sdk.Langchain.Retriever.{Document}
use trust_vault.Sdk.Langchain.Interleaved.{
  Pending, intercepting, classifying_response, classifying_batch, Handler, begin_chain_start,
  resume_chain_start, begin_chain_end, resume_chain_end, on_error, begin_retriever_start,
  begin_retriever_end, begin_llm_end, resume_batch,
}

-- What the gate's answers found, and the address of the context that each was for.
abbrev pub Findings : Type 0
Findings = List (ℕ × List Classification)

abbrev pub found_by : {A : Type 0} → (A → List Classification) → ℕ → Result A → Findings
found_by f a (ok r) = (a, f r) ∷ []
found_by f a (throw e) = []

-- What was found for an address, in the order of the answers.
unfoldable pub collected : ℕ → Findings → List Classification
collected a [] = []
collected a ((b, cs) ∷ found) = let rest = collected a found in if b == a then cs ++ rest else rest

abbrev pub without : Handler → List Pending → Handler
without h pending = record h { pending = pending }

module _ (env : Env) (wire : Wire) (client : SecureLensClient)
    (options : SecureLensCallbackOptions) where
  -- A part of a handler that runs without a pause: up to its `await`, or from there. The answers of
  -- the gate come in any order, and the callbacks see any history.
  pub data Step : Handler → Findings → Handler → Type 0 where
    chain_start :
        {h : Handler} (inputs : Fields) (run_id : Text) (now : ℕ)
        → Step h [] (begin_chain_start env wire client options inputs run_id now h)
    chain_started :
        {h : Handler} (before after : List Pending) (run_id : Text) (a : ℕ)
        (r : Result GateInterceptResponse) (w : World)
        → h.pending ≡ before ++ (intercepting run_id a ∷ after)
        → Step h
            (found_by (λ result. result.classifications) a r)
            (resume_chain_start env wire client options run_id a r w (without h (before ++ after)))
    chain_end :
        {h : Handler} (outputs : Fields) (run_id : Text)
        → Step h [] (begin_chain_end env wire client options outputs run_id h)
    chain_ended :
        {h : Handler} (before after : List Pending) (run_id : Text) (a : ℕ)
        (r : Result ClassificationResult)
        → h.pending ≡ before ++ (classifying_response run_id a ∷ after)
        → Step h
            (found_by (λ result. result.classifications) a r)
            (resume_chain_end env wire client options run_id a r (without h (before ++ after)))
    error : {h : Handler} (run_id : Text) → Step h [] (on_error env wire client options run_id h)
    retriever_start :
        {h : Handler} (query run_id : Text) (parent_run_id : Option Text) (now : ℕ)
        → Step h [] (begin_retriever_start env wire client options query run_id parent_run_id now h)
    retriever_end :
        {h : Handler} (documents : List Document) (run_id : Text) (parent_run_id : Option Text)
        → Step h [] (begin_retriever_end env wire client options documents run_id parent_run_id h)
    llm_end :
        {h : Handler} (generations : List (List Text)) (run_id : Text) (parent_run_id : Option Text)
        → Step h [] (begin_llm_end env wire client options generations run_id parent_run_id h)
    batch_classified :
        {h : Handler} (before after : List Pending) (a : ℕ) (r : Result (List ClassificationResult))
        → h.pending ≡ before ++ (classifying_batch a ∷ after)
        → Step h
            (found_by all_classifications a r)
            (resume_batch env wire client options a r (without h (before ++ after)))

  pub data Steps : Handler → Findings → Handler → Type 0 where
    stay : {h : Handler} → Steps h [] h
    step :
        {h i j : Handler} {found more : Findings}
        → Steps h found i
        → Step i more j
        → Steps h (found ++ more) j
