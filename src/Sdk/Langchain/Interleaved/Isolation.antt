-- ===== src/Sdk/Langchain/Interleaved/Isolation.antt =====
-- Whatever order the handlers' parts run in, a run shows what was found for it, and nothing else.
use trust_vault.Prelude.{
  ℕ, ◌==◌, ◌≡◌, refl, sym, ap, ◌∙◌, Option, none, some, List, [], ◌∷◌, ◌++◌, Text, get_or, not,
  ◌&&◌, ◌||◌, length, arith,
}
use mathlib.Core.List.{flatten}
use trust_vault.Sdk.Value.{Value, Fields, str, truthy}
use trust_vault.Sdk.Types.{Classification, ClassificationResult, GateInterceptResponse}
use trust_vault.Sdk.Effect.{World, Env, Result, ok, throw}
use trust_vault.Sdk.Client.{SecureLensClient}
use trust_vault.Sdk.Gate.Calls.{Wire}
use trust_vault.Sdk.Langchain.Contexts.{RunContext, new_context, ByRun, get_context}
use trust_vault.Sdk.Langchain.Callbacks.{
  SecureLensCallbackOptions, all_classifications, is_policy_error, with_result, extract_query,
  extract_response, add_classifications, enabled,
}
use trust_vault.Sdk.Langchain.Retrievals.{get_classifications, parent_context}
use trust_vault.Sdk.Langchain.Interleaved.{
  Pending, intercepting, classifying_response, classifying_batch, Handler, new_handler, view_of,
  view, stored_unless, end_with, retrieve_in, classify_for, begin_chain_start, resume_chain_start,
  begin_chain_end, resume_chain_end, on_error, begin_retriever_start, begin_retriever_end,
  begin_llm_end, resume_batch,
}
use trust_vault.Sdk.Langchain.Interleaved.Ownership.{
  IsOwned, Kept, own, allocate-Kept, wait-Kept, set_run-Kept, forget_run-Kept, resume-Kept,
  modify-Kept, quiet-Kept, either-Kept, IsSound, either-IsSound, IsOwned-next,
}
use trust_vault.Sdk.Langchain.Interleaved.Steps.{
  Findings, collected, without, found_by, Step, Steps,
}

module _ (env : Env) (wire : Wire) (client : SecureLensClient)
    (options : SecureLensCallbackOptions) where
  stored_unless-Kept :
      {owner : ℕ → Text} {h : Handler} {found : Findings} (r : Result (Unit {0})) (run_id : Text)
      (a : ℕ)
      → IsOwned owner h.next run_id a
      → Kept owner h found
      → Kept owner (stored_unless env wire client options r run_id a h) found
  stored_unless-Kept (ok _) run_id a owned kept = set_run-Kept kept run_id a owned
  stored_unless-Kept (throw e) run_id a owned kept =
      either-Kept (is_policy_error e) kept (set_run-Kept kept run_id a owned)

  begin_chain_start-IsSound :
      {h : Handler} {found : Findings} (inputs : Fields) (run_id : Text) (now : ℕ)
      → IsSound h found
      → IsSound (begin_chain_start env wire client options inputs run_id now h) found
  unfolding begin_chain_start
  begin_chain_start-IsSound {h} inputs run_id now (owner, kept) =
      either-IsSound (truthy (extract_query inputs))
        (
          own h.next run_id owner,
          wait-Kept (allocate-Kept kept run_id (new_context (extract_query inputs) now) refl)
              (intercepting run_id h.next) (IsOwned-next owner h.next run_id),
        )
        (owner, kept)

  resume_chain_start-IsSound :
      {h : Handler} {found : Findings} (before after : List Pending) (run_id : Text) (a : ℕ)
      (r : Result GateInterceptResponse) (w : World)
      → h.pending ≡ before ++ (intercepting run_id a ∷ after)
      → IsSound h found
      → IsSound
          (resume_chain_start env wire client options run_id a r w (without h (before ++ after)))
          (found ++ found_by (λ result. result.classifications) a r)
  unfolding resume_chain_start
  resume_chain_start-IsSound before after run_id a (ok result) w e (owner, kept) =
      let (owned, rest) = resume-Kept kept before (intercepting run_id a) after e in
      (
        owner,
        stored_unless-Kept _ run_id a owned
            (modify-Kept rest a (with_result result) result.classifications owned.0 (λ c. refl)),
      )
  resume_chain_start-IsSound before after run_id a (throw t) w e (owner, kept) =
      let (owned, rest) = resume-Kept kept before (intercepting run_id a) after e in
      (owner, quiet-Kept (stored_unless-Kept (throw t) run_id a owned rest))

  end_with-IsSound :
      {h : Handler} {found : Findings} (found_run : Option ℕ) (response : Value) (run_id : Text)
      → get_context run_id h.contexts ≡ found_run
      → IsSound h found
      → IsSound (end_with env wire client options found_run response run_id h) found
  end_with-IsSound none response run_id e sound = sound
  end_with-IsSound (some a) response run_id e (owner, kept) =
      either-IsSound (enabled options.classify_responses && truthy response)
        (owner, wait-Kept kept (classifying_response run_id a) (kept.runs run_id a e))
        (owner, forget_run-Kept kept run_id)

  resume_chain_end-IsSound :
      {h : Handler} {found : Findings} (before after : List Pending) (run_id : Text) (a : ℕ)
      (r : Result ClassificationResult)
      → h.pending ≡ before ++ (classifying_response run_id a ∷ after)
      → IsSound h found
      → IsSound
          (resume_chain_end env wire client options run_id a r (without h (before ++ after)))
          (found ++ found_by (λ result. result.classifications) a r)
  unfolding resume_chain_end
  resume_chain_end-IsSound before after run_id a (ok result) e (owner, kept) =
      let (owned, rest) = resume-Kept kept before (classifying_response run_id a) after e in
      (
        owner,
        forget_run-Kept
            (modify-Kept rest a (add_classifications result.classifications) result.classifications
              owned.0 (λ c. refl))
            run_id,
      )
  resume_chain_end-IsSound before after run_id a (throw t) e (owner, kept) =
      let (owned, rest) = resume-Kept kept before (classifying_response run_id a) after e in
      (owner, quiet-Kept (forget_run-Kept rest run_id))

  retrieve_in-IsSound :
      {h : Handler} {found : Findings} (parent : Option ℕ) (query run_id : Text) (now : ℕ)
      → IsSound h found
      → IsSound
          (retrieve_in env wire client options parent (new_context (str query) now) run_id h)
          found
  retrieve_in-IsSound (some a) query run_id now sound = sound
  retrieve_in-IsSound {h} none query run_id now (owner, kept) = (
    own h.next run_id owner,
    set_run-Kept (allocate-Kept kept run_id (new_context (str query) now) refl) run_id h.next
        (IsOwned-next owner h.next run_id),
  )

  classify_for-IsSound :
      {h : Handler} {found : Findings} (found_run : Option ℕ) (run_id : Text)
      → get_context run_id h.contexts ≡ found_run
      → IsSound h found
      → IsSound (classify_for env wire client options found_run h) found
  classify_for-IsSound none run_id e sound = sound
  classify_for-IsSound (some a) run_id e (owner, kept) =
      (owner, wait-Kept kept (classifying_batch a) (kept.runs run_id a e).0)

  resume_batch-IsSound :
      {h : Handler} {found : Findings} (before after : List Pending) (a : ℕ)
      (r : Result (List ClassificationResult))
      → h.pending ≡ before ++ (classifying_batch a ∷ after)
      → IsSound h found
      → IsSound
          (resume_batch env wire client options a r (without h (before ++ after)))
          (found ++ found_by all_classifications a r)
  unfolding resume_batch
  resume_batch-IsSound before after a (ok results) e (owner, kept) =
      let (bound, rest) = resume-Kept kept before (classifying_batch a) after e in
      (
        owner,
        modify-Kept rest a (add_classifications (all_classifications results))
            (all_classifications results) bound (λ c. refl),
      )
  resume_batch-IsSound before after a (throw t) e (owner, kept) =
      let (bound, rest) = resume-Kept kept before (classifying_batch a) after e in
      (owner, quiet-Kept rest)

  quiet-IsSound : {h : Handler} {found : Findings} → IsSound h found → IsSound h (found ++ [])
  quiet-IsSound (owner, kept) = (owner, quiet-Kept kept)

  Step-IsSound :
      {h j : Handler} {found more : Findings}
      → IsSound h found
      → Step env wire client options h more j
      → IsSound j (found ++ more)
  unfolding begin_chain_end begin_retriever_start begin_retriever_end begin_llm_end on_error
  Step-IsSound sound (Step.chain_start inputs run_id now) =
      quiet-IsSound (begin_chain_start-IsSound inputs run_id now sound)
  Step-IsSound sound (Step.chain_started before after run_id a r w e) =
      resume_chain_start-IsSound before after run_id a r w e sound
  Step-IsSound {h} sound (Step.chain_end outputs run_id) = quiet-IsSound (
      end_with-IsSound (get_context run_id h.contexts) (extract_response outputs) run_id refl sound)
  Step-IsSound sound (Step.chain_ended before after run_id a r e) =
      resume_chain_end-IsSound before after run_id a r e sound
  Step-IsSound (owner, kept) (Step.error run_id) = (owner, quiet-Kept (forget_run-Kept kept run_id))
  Step-IsSound {h} sound (Step.retriever_start query run_id parent_run_id now) =
      quiet-IsSound
        (retrieve_in-IsSound (parent_context parent_run_id h.contexts) query run_id now sound)
  Step-IsSound {h} sound (Step.retriever_end documents run_id parent_run_id) =
      let key = get_or parent_run_id run_id in
      quiet-IsSound (
        either-IsSound (not (enabled options.classify_retrieved_docs) || length documents == 0)
          sound (classify_for-IsSound (get_context key h.contexts) key refl sound))
  Step-IsSound {h} sound (Step.llm_end generations run_id parent_run_id) =
      let key = get_or parent_run_id run_id in
      quiet-IsSound (
        either-IsSound
          (not (enabled options.classify_responses) || length (flatten generations) == 0) sound
          (classify_for-IsSound (get_context key h.contexts) key refl sound))
  Step-IsSound sound (Step.batch_classified before after a r e) =
      resume_batch-IsSound before after a r e sound

  pub Steps-IsSound :
      {h : Handler} {found : Findings}
      → Steps env wire client options new_handler found h
      → IsSound h found
  unfolding get_context collected
  Steps-IsSound Steps.stay = (
    (λ a. []),
    record { runs = λ k a e. cc; waits = tt; shows = λ a below. refl; unused = λ a above. refl },
  )
  Steps-IsSound (Steps.step before last) = Step-IsSound (Steps-IsSound before) last

abbrev pub shown : (ℕ → RunContext) → Option ℕ → List Classification
shown heap none = []
shown heap (some a) = (heap a).classifications

pub get_classifications-view_of :
    (k : Text) (heap : ℕ → RunContext) (m : ByRun ℕ)
    → get_classifications k (view_of heap m) ≡ shown heap (get_context k m)
unfolding get_classifications get_context
get_classifications-view_of k heap [] = refl
get_classifications-view_of k heap ((j, a) ∷ m) =
    ground (arith, get_classifications-view_of k heap m)

module _ (env : Env) (wire : Wire) (client : SecureLensClient)
    (options : SecureLensCallbackOptions) where
  -- From a new handler, in whatever order the parts of its handlers run and the gate answers: where a
  -- run has a context, it shows all that the gate found for this context, in the order of the
  -- answers, and no other run has the same context.
  pub Steps-get_classifications :
      {h : Handler} {found : Findings}
      → Steps env wire client options new_handler found h
      → (k : Text) (a : ℕ) → get_context k h.contexts ≡ some a
      → (get_classifications k (view h) ≡ collected a found)
        × ((j : Text) → get_context j h.contexts ≡ some a → j ≡ k)
  Steps-get_classifications {h} steps k a e =
      let (owner, kept) = Steps-IsSound env wire client options steps in
      let (bound, owned) = kept.runs k a e in
      (
        get_classifications-view_of k h.heap h.contexts ∙ ap (shown h.heap) e ∙ kept.shows a bound,
        λ j f. sym (kept.runs j a f).1 ∙ owned,
      )
