-- ===== src/Sdk/Langchain/Chains/Blocking.antt =====
-- When a refused query stops the chain.
use trust_vault.Prelude.{
  ◌≡◌, refl, String, true, false, Option, none, some, List, [], ◌∷◌, Text, ◌⊎◌, inl, inr,
  Bool-cases, get_or, text,
}
use trust_vault.Sdk.Value.{Fields, truthy, undefined, opt, str}
use trust_vault.Sdk.Types.{Classification, AppliedPolicy, GateInterceptResponse}
use trust_vault.Sdk.Errors.{JsError, js, policy_error, SecureLensError, sdk, no_options}
use trust_vault.Sdk.Effect.{Env, World, ok, throw}
use trust_vault.Sdk.Client.{SecureLensClient}
use trust_vault.Sdk.Gate.Calls.{Wire}
use trust_vault.Sdk.Langchain.Contexts.{new_context, Contexts, set_context}
use trust_vault.Sdk.Langchain.Callbacks.{
  Callback, SecureLensCallbackOptions, enabled, notify, apply_policies, report_block, block_error,
  with_result, extract_query,
}
use trust_vault.Sdk.Langchain.Chains.{intercept_query, announce, handle_chain_start}

-- A callback that never throws, or that is not given.
abbrev pub NeverThrows : {A : Type 0} → Option (Callback A) → Type 0
NeverThrows none = Unit
NeverThrows {A} (some f) = (w : World) (a : A) → f w a ≡ none

notify_quiet :
    (f : Option (Callback (List Classification × String))) (found : List Classification)
    (source : String) (w : World)
    → NeverThrows f
    → (notify f found source w).0 ≡ ok tt
unfolding notify
notify_quiet none found source w q = refl
notify_quiet (some f) [] source w q = refl
notify_quiet (some f) (c ∷ cs) source w q = rw (q w (c ∷ cs, source))

apply_policies_quiet :
    (f : Option (Callback AppliedPolicy)) (ps : List AppliedPolicy) (w : World)
    → NeverThrows f
    → (apply_policies f ps w).0 ≡ ok tt
unfolding apply_policies
apply_policies_quiet none ps w q = refl
apply_policies_quiet (some f) [] w q = refl
apply_policies_quiet (some f) (p ∷ ps) w q = rw (q w p) (apply_policies_quiet (some f) ps _ q)

report_block_quiet :
    (f : Option (Callback GateInterceptResponse)) (result : GateInterceptResponse) (w : World)
    → NeverThrows f
    → (report_block f result w).0 ≡ ok tt
unfolding report_block
report_block_quiet none result w q = refl
report_block_quiet (some f) result w q = rw (q w result)

module _ (env : Env) (wire : Wire) (client : SecureLensClient)
    (options : SecureLensCallbackOptions) where
  announce_blocks :
      (result : GateInterceptResponse) (w : World)
      → result.allowed ≡ false
      → enabled options.block_on_policy_violation ≡ true
      → NeverThrows options.on_classification
      → NeverThrows options.on_policy_applied
      → NeverThrows options.on_blocked
      → (announce env wire client options result w).0 ≡ throw (block_error result)
  unfolding announce
  announce_blocks result w no_entry on qc qp qb =
      let (r1, w1) = notify options.on_classification result.classifications "query" w in
      let (r2, w2) = apply_policies options.on_policy_applied result.applied_policies w1 in
      let e1 = notify_quiet options.on_classification result.classifications "query" w qc in
      let e2 = apply_policies_quiet options.on_policy_applied result.applied_policies w1 qp in
      let e3 = report_block_quiet options.on_blocked result w2 qb in simp (e1, e2, no_entry, on, e3)

  announce_allows :
      (result : GateInterceptResponse) (w : World)
      → result.allowed ≡ true
      → NeverThrows options.on_classification
      → NeverThrows options.on_policy_applied
      → (announce env wire client options result w).0 ≡ ok tt
  unfolding announce
  announce_allows result w entry qc qp =
      let (r1, w1) = notify options.on_classification result.classifications "query" w in
      let e1 = notify_quiet options.on_classification result.classifications "query" w qc in
      let e2 = apply_policies_quiet options.on_policy_applied result.applied_policies w1 qp in
      simp (e1, e2, entry)

  -- With blocking on, and callbacks that do not throw, a query that the gate refuses throws an error of
  -- the policy class, with status 403, whose message is the gate's reason, or 'Query blocked by policy'
  -- if it gives none; and the chain of a query that the gate allows goes on.
  pub handle_chain_start_blocks :
      (inputs : Fields) (run_id : Text) (contexts : Contexts) (result : GateInterceptResponse)
      (w w1 : World)
      → truthy (extract_query inputs) ≡ true
      → intercept_query env wire client options (extract_query inputs) w ≡ (ok result, w1)
      → enabled options.block_on_policy_violation ≡ true
      → NeverThrows options.on_classification
      → NeverThrows options.on_policy_applied
      → NeverThrows options.on_blocked
      → let started = (handle_chain_start env wire client options inputs run_id contexts w).0 in
        ((e : SecureLensError) × (result.allowed ≡ false)
          × (started ≡ throw (sdk e))
          × (e.name ≡ "SecureLensPolicyError")
          × (e.status_code ≡ some 403)
          × (e.message ≡ get_or result.block_reason (text "Query blocked by policy")))
        ⊎ ((after : Contexts) × (result.allowed ≡ true) × (started ≡ ok after))
  unfolding handle_chain_start policy_error
  handle_chain_start_blocks inputs run_id contexts result w w1 t a on qc qp qb =
      elim (Bool-cases result.allowed) [
        | inl entry ↦ inr (
          set_context run_id (with_result result (new_context (extract_query inputs) (env.now w)))
              contexts,
          entry,
          rw (a, t, announce_allows result w1 entry qc qp) refl,
        )
        | inr no_entry ↦ inl (
          policy_error (some (get_or result.block_reason (text "Query blocked by policy")))
              no_options undefined undefined undefined (opt str result.suggested_query),
          no_entry,
          rw (a, t, announce_blocks result w1 no_entry on qc qp qb) refl,
          refl,
          refl,
          refl,
        )
      ]

  module _ (e : JsError) (f : Callback GateInterceptResponse) (given : options.on_blocked ≡ some f)
      (throws : (w : World) (result : GateInterceptResponse) → f w result ≡ some (js e)) where
    announce_derailed :
        (result : GateInterceptResponse) (w : World)
        → result.allowed ≡ false
        → enabled options.block_on_policy_violation ≡ true
        → NeverThrows options.on_classification
        → NeverThrows options.on_policy_applied
        → (announce env wire client options result w).0 ≡ throw (js e)
    unfolding announce report_block
    announce_derailed result w no_entry on qc qp =
        let (r1, w1) = notify options.on_classification result.classifications "query" w in
        let e1 = notify_quiet options.on_classification result.classifications "query" w qc in
        let e2 = apply_policies_quiet options.on_policy_applied result.applied_policies w1 qp in
        simp (e1, e2, no_entry, on, given, throws)

  -- With blocking on, the chain of a refused query goes on all the same if the `onBlocked` callback
  -- always throws an error of its own and the other callbacks do not throw: the handler takes that for
  -- a failure of the gate, and returns.
  handle_chain_start_derailed :
      (e : JsError) (f : Callback GateInterceptResponse) (inputs : Fields) (run_id : Text)
      (contexts : Contexts) (result : GateInterceptResponse) (w w1 : World)
      → options.on_blocked ≡ some f
      → ((v : World) (r : GateInterceptResponse) → f v r ≡ some (js e))
      → truthy (extract_query inputs) ≡ true
      → intercept_query env wire client options (extract_query inputs) w ≡ (ok result, w1)
      → result.allowed ≡ false
      → enabled options.block_on_policy_violation ≡ true
      → NeverThrows options.on_classification
      → NeverThrows options.on_policy_applied
      → (after : Contexts) × ((handle_chain_start env wire client options inputs run_id contexts
            w).0
          ≡ ok after)
  unfolding handle_chain_start
  handle_chain_start_derailed e f inputs run_id contexts result w w1 given throws t a no_entry on qc
        qp =
      (
        set_context run_id (with_result result (new_context (extract_query inputs) (env.now w)))
            contexts,
        rw (a, t, announce_derailed e f given throws result w1 no_entry on qc qp) refl,
      )
