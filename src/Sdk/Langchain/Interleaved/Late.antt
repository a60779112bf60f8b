-- ===== src/Sdk/Langchain/Interleaved/Late.antt =====
-- langchain.ts, interleaved: an answer that comes after the end of the chain.
use trust_vault.Prelude.{
  ℕ, ==_iff, ◌≡◌, ◌≢◌, refl, ap, ◌∙◌, Option, none, some, List, [], Text, text_eq, text_eq_iff,
  arith, if◌then◌else◌, false, Bool-cases, inl, inr,
}
use trust_vault.Sdk.Types.{ClassificationResult}
use trust_vault.Sdk.Effect.{Env, Result, ok, throw}
use trust_vault.Sdk.Client.{SecureLensClient}
use trust_vault.Sdk.Gate.Calls.{Wire}
use trust_vault.Sdk.Langchain.Contexts.{
  RunContext, ByRun, get_context, delete_context, get_context-delete_context,
}
use trust_vault.Sdk.Langchain.Callbacks.{SecureLensCallbackOptions}
use trust_vault.Sdk.Langchain.Retrievals.{get_classifications}
use trust_vault.Sdk.Langchain.Interleaved.{
  Handler, new_handler, view, put, resume_chain_end, resume_batch,
}
use trust_vault.Sdk.Langchain.Interleaved.Steps.{Findings, Steps}
use trust_vault.Sdk.Langchain.Interleaved.Isolation.{
  shown, get_classifications-view_of, Steps-get_classifications,
}

-- The heaps agree everywhere but at one address.
abbrev IsElsewhere : ℕ → (ℕ → RunContext) → (ℕ → RunContext) → Type 0
IsElsewhere a g h = (b : ℕ) → b ≢ a → g b ≡ h b

put-IsElsewhere :
    (a : ℕ) (c : RunContext) (g h : ℕ → RunContext)
    → IsElsewhere a g h
    → IsElsewhere a (put a c g) h
unfolding put
put-IsElsewhere a c g h same b other = ground (arith, ==_iff b a, same b other)

module _ (env : Env) (wire : Wire) (client : SecureLensClient)
    (options : SecureLensCallbackOptions) where
  late_state :
      (k : Text) (a : ℕ) (answer : Result ClassificationResult)
      (late : Result (List ClassificationResult)) (h : Handler)
      → let j =
          resume_batch env wire client options a late
            (resume_chain_end env wire client options k a answer h) in
        (j.contexts ≡ delete_context k h.contexts) × IsElsewhere a j.heap h.heap
  unfolding resume_chain_end resume_batch
  late_state k a (ok r) (ok l) h =
      (refl, put-IsElsewhere a _ _ h.heap (put-IsElsewhere a _ h.heap h.heap (λ b o. refl)))
  late_state k a (ok r) (throw l) h = (refl, put-IsElsewhere a _ h.heap h.heap (λ b o. refl))
  late_state k a (throw r) (ok l) h = (refl, put-IsElsewhere a _ h.heap h.heap (λ b o. refl))
  late_state k a (throw r) (throw l) h = (refl, λ b o. refl)

-- Without the run that alone led to the address, what is shown does not depend on the address.
module _ (g heap : ℕ → RunContext) (m : ByRun ℕ) (k j : Text) (a : ℕ) (same : IsElsewhere a g heap)
    (only : (i : Text) → get_context i m ≡ some a → i ≡ k) where
  shown_by_other :
      (o : Option ℕ) → text_eq k j ≡ false → get_context j m ≡ o → shown g o ≡ shown heap o
  shown_by_other none e f = refl
  shown_by_other (some b) e f =
      ap (λ c. c.classifications)
        (same b (λ q. ground (arith, text_eq_iff k j, e, only j (f ∙ ap some q))))

  shown_elsewhere :
      shown g (get_context j (delete_context k m))
      ≡ (if text_eq k j then [] else shown heap (get_context j m))
  shown_elsewhere = elim (Bool-cases (text_eq k j)) [
    | inl e ↦ rw (get_context-delete_context k j m, e) refl
    | inr e ↦ rw (get_context-delete_context k j m, e) (shown_by_other (get_context j m) e refl)
  ]

module _ (env : Env) (wire : Wire) (client : SecureLensClient)
    (options : SecureLensCallbackOptions) where
  -- From a new handler, in whatever order its handlers run: where a chain ends while the documents or
  -- responses that belong to its context are still being classified, what is found for them then is
  -- shown by no run. The ended run shows nothing, and every other run what it showed before.
  pub resume_batch_late :
      {h : Handler} {found : Findings}
      → Steps env wire client options new_handler found h
      → (k : Text) (a : ℕ) → get_context k h.contexts ≡ some a
      → (answer : Result ClassificationResult) (late : Result (List ClassificationResult))
        (j : Text)
      → get_classifications j (
          view (
            resume_batch env wire client options a late
              (resume_chain_end env wire client options k a answer h)))
        ≡ (if text_eq k j then [] else get_classifications j (view h))
  resume_batch_late {h} steps k a e answer late j =
      let (_, only) = Steps-get_classifications env wire client options steps k a e in
      let (forgotten, same) = late_state env wire client options k a answer late h in
      let after =
        resume_batch env wire client options a late
          (resume_chain_end env wire client options k a answer h) in
      rw
        (
          get_classifications-view_of j after.heap after.contexts,
          forgotten,
          get_classifications-view_of j h.heap h.contexts,
        )
        (shown_elsewhere after.heap h.heap h.contexts k j a same only)
