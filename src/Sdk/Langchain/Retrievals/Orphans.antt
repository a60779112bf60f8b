-- ===== src/Sdk/Langchain/Retrievals/Orphans.antt =====
-- What the retriever handlers do to the map of contexts.
use trust_vault.Prelude.{
  ◌≡◌, ◌≢◌, refl, true, false, none, some, List, Text, text_eq, truthy_text, arith, text_eq_iff,
}
use trust_vault.Sdk.Value.{str}
use trust_vault.Sdk.Effect.{Env, World, ok}
use trust_vault.Sdk.Client.{SecureLensClient}
use trust_vault.Sdk.Gate.Calls.{Wire}
use trust_vault.Sdk.Langchain.Contexts.{
  RunContext, new_context, Contexts, get_context, set_context, get_context-set_context,
}
use trust_vault.Sdk.Langchain.Callbacks.{SecureLensCallbackOptions}
use trust_vault.Sdk.Langchain.Retriever.{Document}
use trust_vault.Sdk.Langchain.Retrievals.{handle_retriever_start, handle_retriever_end}

module _ (env : Env) (wire : Wire) (client : SecureLensClient)
    (options : SecureLensCallbackOptions) where
  stored : (k : Text) (c : RunContext) (m : Contexts) → get_context k (set_context k c m) ≢ none
  stored k c m h = ground (arith, get_context-set_context k k c m, text_eq_iff k k)

  unseen :
      (documents : List Document) (run_id parent : Text) (m : Contexts) (v : World)
      → get_context parent m ≡ none
      → handle_retriever_end env wire client options documents run_id (some parent) m v ≡ (ok m, v)
  unfolding handle_retriever_end
  unseen documents run_id parent m v h = ground arith

  -- A retrieval whose parent run has no context gets one under its own id; its documents are looked
  -- up under the parent's, so they are never classified.
  handle_retriever_end_orphan :
      (query run_id parent : Text) (contexts : Contexts) (w : World)
      → truthy_text parent ≡ true
      → text_eq run_id parent ≡ false
      → get_context parent contexts ≡ none
      → (started : Contexts) × (handle_retriever_start env wire client options query run_id
            (some parent)
            contexts
            w
          ≡ (ok started, w))
        × (get_context run_id started ≢ none)
        × ((documents : List Document) (v : World)
            → handle_retriever_end env wire client options documents run_id (some parent) started v
              ≡ (ok started, v))
  unfolding handle_retriever_start
  handle_retriever_end_orphan query run_id parent contexts w t other none_yet = (
    set_context run_id (new_context (str query) (env.now w)) contexts,
    rw (t, none_yet) refl,
    stored run_id (new_context (str query) (env.now w)) contexts,
    λ documents v.
        unseen documents run_id parent
          (set_context run_id (new_context (str query) (env.now w)) contexts) v
          (rw (get_context-set_context, other, none_yet) refl),
  )
