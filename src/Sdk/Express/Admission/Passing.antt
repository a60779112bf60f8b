-- ===== src/Sdk/Express/Admission/Passing.antt =====
-- Which requests the middleware passes on.
use trust_vault.Prelude.{
  ap, ◌∙◌, get_or, ℕ, ◌+◌, ◌≡◌, refl, inl, inr, Bool, true, false, Option, none, some, List, Text,
  arith, ◌∷◌, Bool-cases, if◌then◌else◌,
}
use trust_vault.Sdk.Value.{Value, truthy}
use trust_vault.Sdk.Types.{GateInterceptResponse}
use trust_vault.Sdk.Effect.{
  Env, World, Result, ok, throw, continue, recover, attached, json_wrapped,
}
use trust_vault.Sdk.Effect.Trace.{nexts}
use trust_vault.Sdk.Client.{SecureLensClient}
use trust_vault.Sdk.Gate.Calls.{Wire}
use trust_vault.Sdk.Express.{
  Request, Host, SecureLensMiddlewareOptions, default_get_query, empty_context, with_answer,
  intercept_text, user_of, query_of, blocked_by, failed_by, judge, screen, proceed, skipped, handle,
  secure_lens_middleware,
}
use trust_vault.Sdk.Express.Admission.{
  intercept_text-IsQuiet, call_next_calls, blocked_by_once, failed_by_once,
}

-- The options of a middleware that intercepts, without callbacks.
abbrev pub plain_options :
    SecureLensClient → Option (List Text) → Option Bool → SecureLensMiddlewareOptions
plain_options client policies audit_responses = record {
  client = client;
  intercept_requests = some true;
  audit_responses = audit_responses;
  policies = policies;
  get_user_context = none;
  get_query = none;
  on_error = none;
  on_blocked = none;
  skip = none;
}

-- 1 for an answer of the gate that allows the query, and else 0.
abbrev pub admitted : Result GateInterceptResponse → ℕ
admitted (ok result) = if result.allowed then 1 else 0
admitted (throw e) = 0

module _ (env : Env) (wire : Wire) (host : Host) (nexts_all : (v : World) → host.next v ≡ none)
    (sends_all : (v : World) (s : Option ℕ) (b : Value) → host.send v s b ≡ none) where
  module _ (client : SecureLensClient) (policies : Option (List Text)) (audit : Option Bool)
      (request : Request) where
    -- What follows the screening: the rest of the block, and the handler of what it throws.
    abbrev finished : Result Bool → World → World
    finished r v =
        let x = continue r (proceed env wire host (plain_options client policies audit)) v in
        (recover x.0 (failed_by env wire host none request) x.1).1

    finished-true : (v : World) → nexts (finished (ok true) v) ≡ nexts v + 1
    unfolding proceed
    finished-true v = elim (Bool-cases (get_or audit false)) [
      | inl e ↦ rw (e, call_next_calls env wire host nexts_all sends_all (json_wrapped ∷ v)) refl
      | inr e ↦ rw (e, call_next_calls env wire host nexts_all sends_all v) refl
    ]

    finished-false :
        (r : Result (Unit {0})) (v : World)
        → r ≡ ok tt
        → nexts (let x = continue r (λ u w. (ok false, w)) v in finished x.0 x.1) ≡ nexts v
    unfolding proceed
    finished-false (ok u) v h = refl
    finished-false (throw e) v h = absurd (cc)

    judged :
        (r : Result GateInterceptResponse) (v : World)
        → nexts (
            let x =
              continue r
                (judge env wire host (plain_options client policies audit) none request)
                v in
            finished x.0 x.1)
          ≡ nexts v + admitted r
    unfolding judge blocked_by
    judged (throw e) v =
        let (a, b, c) = failed_by_once env wire host nexts_all sends_all none request e v refl in
        omega (arith, b)
    judged (ok result) v = elim (Bool-cases result.allowed) [
      | inl e ↦ simp e (finished-true (attached (with_answer none result) ∷ v))
      | inr e ↦
          let u = attached (with_answer none result) ∷ v in
          let x = blocked_by env wire host none result request u in
          let (a, b, c) =
            blocked_by_once env wire host nexts_all sends_all none result request u refl in
          simp e (finished-false x.0 x.1 a ∙ b ∙ omega arith)
    ]

    -- A middleware without callbacks that intercepts passes a request that has a query on exactly if
    -- the gate answers and allows it: a refusal, a failure of the gate and a query that is no text are
    -- all stopped. Express's own functions do not throw.
    pub secure_lens_middleware_admits :
        (w : World)
        → truthy (default_get_query request) ≡ true
        → let options = plain_options client policies audit in
          let (r, w1) =
            intercept_text env wire host options none
              (default_get_query request)
              (attached empty_context ∷ w) in
          nexts (secure_lens_middleware env wire host options request w).1 ≡ nexts w + admitted r
    unfolding secure_lens_middleware skipped handle user_of screen query_of
    secure_lens_middleware_admits w t =
        let options = plain_options client policies audit in
        let x =
          intercept_text env wire host options none (default_get_query request)
            (attached empty_context ∷ w) in
        let quiet =
          intercept_text-IsQuiet env wire host options none (default_get_query request)
            (attached empty_context ∷ w) in
        rw t (judged x.0 x.1 ∙ ap (λ n. n + admitted x.0) quiet.0)
