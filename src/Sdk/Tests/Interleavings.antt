-- ===== src/Sdk/Tests/Interleavings.antt =====
-- Tests of the callback handler where an answer comes late.
use trust_vault.Prelude.{pos, ◌≡◌, refl, none, some, [], ◌∷◌, Text, text, text_eq, if◌then◌else◌}
use trust_vault.Sdk.Value.{end}
use trust_vault.Sdk.Types.{
  Classification, ClassificationResult, ClassificationType, SensitivityLevel,
}
use trust_vault.Sdk.Effect.{ok}
use trust_vault.Sdk.Langchain.Contexts.{get_context}
use trust_vault.Sdk.Langchain.Callbacks.{SecureLensCallbackOptions}
use trust_vault.Sdk.Langchain.Retriever.{Document}
use trust_vault.Sdk.Langchain.Retrievals.{get_classifications}
use trust_vault.Sdk.Langchain.Interleaved.{
  Handler, new_handler, view, begin_retriever_start, begin_retriever_end, resume_batch,
  resume_chain_end,
}
use trust_vault.Sdk.Langchain.Interleaved.Steps.{Findings, collected, without, Step, Steps}
use trust_vault.Sdk.Langchain.Interleaved.Isolation.{Steps-get_classifications}
use trust_vault.Sdk.Langchain.Interleaved.Late.{resume_batch_late}
use trust_vault.Sdk.Tests.{env_of, accepted, client_of, wire, restricted_text}

abbrev options : SecureLensCallbackOptions
options = record {
  policies = none;
  user_context = none;
  block_on_policy_violation = none;
  classify_retrieved_docs = none;
  classify_responses = none;
  on_classification = none;
  on_policy_applied = none;
  on_blocked = none;
}

abbrev document : Document
document = record { page_content = text "secret"; metadata = end; secure_lens = none }

-- A social security number in the document.
abbrev number : Classification
number = record {
  type = ClassificationType.pii;
  label = text "ssn";
  confidence = record { units = 9; places = 1 };
  start = 0;
  end = 6;
  text = some (text "secret");
  sensitivity = SensitivityLevel.restricted;
}

abbrev found_answer : ClassificationResult
found_answer = record restricted_text { classifications = number ∷ [] }

abbrev run : Text
run = 114 ∷ []

abbrev retrieving : Handler
retrieving =
    begin_retriever_start (env_of accepted) wire (client_of (pos 0)) options run run none 1700
      new_handler

abbrev classifying : Handler
classifying =
    begin_retriever_end (env_of accepted) wire (client_of (pos 0)) options (document ∷ []) run none
      retrieving

abbrev done : Handler
done =
    resume_batch (env_of accepted) wire (client_of (pos 0)) options 0 (ok (found_answer ∷ []))
      (without classifying [])

abbrev found : Findings
found = (0, found_answer.classifications) ∷ []

to_classifying : Steps (env_of accepted) wire (client_of (pos 0)) options new_handler [] classifying
to_classifying =
    Steps.step (Steps.step Steps.stay (Step.retriever_start run run none 1700))
      (Step.retriever_end (document ∷ []) run none)

to_done : Steps (env_of accepted) wire (client_of (pos 0)) options new_handler found done
unfolding begin_retriever_start begin_retriever_end
to_done = Steps.step to_classifying (Step.batch_classified [] [] 0 (ok (found_answer ∷ [])) refl)

has_context : get_context run done.contexts ≡ some 0
unfolding begin_retriever_start begin_retriever_end resume_batch get_context
has_context = refl

waits_with_context : get_context run classifying.contexts ≡ some 0
unfolding begin_retriever_start begin_retriever_end get_context
waits_with_context = refl

Steps-get_classifications_example :
    (get_classifications run (view done) ≡ collected 0 found)
    × ((j : Text) → get_context j done.contexts ≡ some 0 → j ≡ run)
Steps-get_classifications_example =
    Steps-get_classifications (env_of accepted) wire (client_of (pos 0)) options {h = done}
      {found = found} to_done run 0 has_context

-- The chain ends while the documents are being classified.
resume_batch_late_example :
    get_classifications run (
      view (
        resume_batch (env_of accepted) wire (client_of (pos 0)) options 0 (ok (found_answer ∷ [])) (
          resume_chain_end
            (env_of accepted)
            wire
            (client_of (pos 0))
            options
            run
            0
            (ok found_answer)
            classifying)))
    ≡ (if text_eq run run then [] else get_classifications run (view classifying))
resume_batch_late_example =
    resume_batch_late (env_of accepted) wire (client_of (pos 0)) options {h = classifying}
      {found = []} to_classifying run 0 waits_with_context (ok found_answer)
      (ok (found_answer ∷ [])) run
