-- ===== src/Sdk/Client/Execute/Failures.antt =====
-- How one execution ends, and what it leaves in the history.
use trust_vault.Prelude.{
  ℕ, ◌+◌, ◌≤◌, ◌<◌, ◌≡◌, ◌↔◌, ◌⊎◌, inl, inr, refl, String, true, Option, Text, arith, Bool-cases,
  ◌∷◌,
}
use mathlib.Core.Path.{subst}
use trust_vault.Sdk.Value.{Value}
use trust_vault.Sdk.Types.{RequestOptions}
use trust_vault.Sdk.Errors.{
  JsError, Thrown, js, is_retryable_error, is_secure_lens_error, connection_error, timeout_error,
  nullish, property_error, sdk,
}
use trust_vault.Sdk.Effect.{
  FetchRequest, Response, FetchResult, responded, rejected, Env, ok, throw, World, fetch, recover,
  Result, timer_cleared,
}
use trust_vault.Sdk.Effect.Trace.{OneFetch, timers_set, timers_cleared}
use trust_vault.Sdk.Client.Config.{SecureLensClient}
use trust_vault.Sdk.Client.Execute.{parse_response, exchange, wrap_error, execute_request}

FetchResult-cases :
    (f : FetchResult) → ((r : Response) × (f ≡ responded r)) ⊎ ((e : Thrown) × (f ≡ rejected e))
FetchResult-cases (responded r) = inl (r, refl)
FetchResult-cases (rejected e) = inr (e, refl)

-- What the `catch` block throws.
IsWrapped : Thrown → Type 0
IsWrapped e = (is_secure_lens_error e ≡ true) ⊎ ((v : Text) × (e ≡ js (property_error v "name")))

wrap_error-IsWrapped :
    (env : Env) (id : Text) (timeout : ℕ) (e : Thrown) → IsWrapped (wrap_error env id timeout e)
unfolding IsWrapped wrap_error is_secure_lens_error
wrap_error-IsWrapped env id timeout (sdk e) = inl refl
wrap_error-IsWrapped env id timeout (nullish v) = inr (v, refl)
wrap_error-IsWrapped env id timeout (js e) = inl (ground arith)

caught-IsWrapped :
    (env : Env) (id : Text) (timeout : ℕ) (r : Result Value) (w : World) (e : Thrown)
    → (recover r (λ x v. (throw (wrap_error env id timeout x), timer_cleared ∷ v)) w).0 ≡ throw e
    → IsWrapped e
caught-IsWrapped env id timeout (ok a) w e h = absurd (cc)
caught-IsWrapped env id timeout (throw x) w e h =
    subst IsWrapped (cc h) (wrap_error-IsWrapped env id timeout x)

module _ (env : Env) (client : SecureLensClient) where
  exchange-OneFetch :
      (request : FetchRequest) (id : Text) (w : World)
      → OneFetch w (exchange env client request id w).1
  unfolding exchange fetch
  exchange-OneFetch request id w = ground arith

  exchange_timers :
      (request : FetchRequest) (id : Text) (w : World)
      → (timers_set (exchange env client request id w).1 ≡ timers_set w)
        × (timers_cleared w ≤ timers_cleared (exchange env client request id w).1)
  unfolding exchange fetch
  exchange_timers request id w = ground arith

  -- An exchange gives a value exactly if `fetch` resolved to a response whose status is a 2xx and
  -- whose body was read as that value.
  exchange-eq-ok_iff :
      (request : FetchRequest) (id : Text) (w : World) (v : Value)
      → ((exchange env client request id w).0 ≡ ok v) ↔ (
          (r : Response) × (env.fetch w request ≡ responded r)
          × (200 ≤ r.status)
          × (r.status < 300)
          × (parse_response env r ≡ ok v))
  unfolding exchange fetch
  exchange-eq-ok_iff request id w v = elim (FetchResult-cases (env.fetch w request)) [
    | inl (r, q) ↦ (λ h. (r, q, ground arith, ground arith, ground arith), λ h. ground arith)
    | inr (e, q) ↦ (λ h. ground arith, λ h. ground arith)
  ]

  module _ (method : String) (url : Text) (body : Value) (timeout : ℕ)
      (options : Option RequestOptions) where
    pub execute_request-OneFetch :
        (w : World) → OneFetch w (execute_request env client method url body timeout options w).1
    unfolding execute_request
    execute_request-OneFetch w = ground arith

    -- One execution sets one timer and clears it at least once, whether it returns or throws.
    execute_request_timers :
        (w : World)
        → let w' = (execute_request env client method url body timeout options w).1 in
          (timers_set w' ≡ timers_set w + 1) × (timers_cleared w + 1 ≤ timers_cleared w')
    unfolding execute_request fetch
    execute_request_timers w = ground arith

    -- Whatever `fetch`, the reading of the body or the JSON codec throws, one execution throws only SDK
    -- errors or the TypeError of reading the name of `null` or `undefined`.
    pub execute_request-is_secure_lens_error :
        (w : World) (e : Thrown)
        → (execute_request env client method url body timeout options w).0 ≡ throw e
        → (is_secure_lens_error e ≡ true) ⊎ ((v : Text) × (e ≡ js (property_error v "name")))
    unfolding execute_request IsWrapped
    execute_request-is_secure_lens_error w e h = elim (Bool-cases client.debug) [
      | inl d ↦ caught-IsWrapped env _ timeout _ _ e (rw d at h)
      | inr d ↦ caught-IsWrapped env _ timeout _ _ e (rw d at h)
    ]

-- Every failure that is not an SDK error already becomes one that is retried: a timeout if it is an
-- AbortError, whoever aborted, and else a connection error, malformed JSON included.
is_retryable_error-wrap_error :
    (env : Env) (id : Text) (timeout : ℕ) (e : JsError)
    → is_retryable_error (wrap_error env id timeout (js e)) ≡ true
unfolding wrap_error is_retryable_error connection_error timeout_error
is_retryable_error-wrap_error env id timeout e = ground arith
