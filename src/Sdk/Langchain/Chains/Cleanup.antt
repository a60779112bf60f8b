-- ===== src/Sdk/Langchain/Chains/Cleanup.antt =====
-- What the end of a chain leaves in the map of contexts.
use trust_vault.Prelude.{
  ◌≡◌, refl, inl, inr, String, none, Text, text_eq, arith, Option-cases, if◌then◌else◌, text_eq_iff,
}
use trust_vault.Sdk.Value.{Fields}
use trust_vault.Sdk.Effect.{Env, World, Result, ok, throw, recover, pure, ◌>>=◌}
use trust_vault.Sdk.Client.{SecureLensClient}
use trust_vault.Sdk.Gate.Calls.{Wire}
use trust_vault.Sdk.Langchain.Contexts.{
  Contexts, get_context, delete_context, get_context-delete_context,
}
use trust_vault.Sdk.Langchain.Callbacks.{SecureLensCallbackOptions, warn}
use trust_vault.Sdk.Langchain.Chains.{handle_chain_end}

-- A block whose errors are only warned of goes on with what follows it.
warned_then :
    {A : Type 0} (r : Result (Unit {0})) (message : String) (a : A) (v : World)
    → (((λ u. recover r (warn message) u) >>= λ _. pure a) v).0 ≡ ok a
warned_then (ok u) message a v = refl
warned_then (throw e) message a v = refl

module _ (env : Env) (wire : Wire) (client : SecureLensClient)
    (options : SecureLensCallbackOptions) where
  -- The end of a chain never throws, and forgets the context of its run and of no other.
  handle_chain_end_forgets :
      (outputs : Fields) (run_id : Text) (contexts : Contexts) (w : World)
      → (after : Contexts) × ((handle_chain_end env wire client options outputs run_id contexts w).0
          ≡ ok after)
        × ((j : Text)
            → get_context j after ≡ (if text_eq run_id j then none else get_context j contexts))
  unfolding handle_chain_end
  handle_chain_end_forgets outputs run_id contexts w =
      elim (Option-cases (get_context run_id contexts)) [
        | inl e ↦ (contexts, rw e refl, λ j. ground (arith, e, text_eq_iff run_id j))
        | inr (c, e) ↦ (
          delete_context run_id contexts,
          rw e (warned_then _ _ _ _),
          λ j. get_context-delete_context run_id j contexts,
        )
      ]
