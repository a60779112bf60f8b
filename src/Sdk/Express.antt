-- ===== src/Sdk/Express.antt =====
-- express.ts: the middleware and the route handler. A callback of the options is an action, so that
-- it may respond, throw, or do nothing. `await` yields to no other request in the model.
pub mod Counting
pub mod Route
pub mod Admission
use trust_vault.Prelude.{
  ℕ, ℤ, Bool, true, false, Option, none, some, get_or, List, [], ◌∷◌, Text, text, String,
  if◌then◌else◌,
}
use trust_vault.Sdk.Value.{Value, undefined, str, obj, end, field, coalesce, member, truthy, opt}
use trust_vault.Sdk.Types.{
  UserContext, VectorDbSource, LlmSource, ClassificationResult, GateInterceptResponse,
  GateQueryResponse, SecureLensContext, JsNumber,
}
use trust_vault.Sdk.Errors.{Thrown, sdk, js, SecureLensError, policy}
use trust_vault.Sdk.Effect.{
  World, Env, Io, ◌>>=◌, ◌>>◌, pure, raise, catch, emit, when, outcome, attached, json_wrapped,
  called_next, sent,
}
use trust_vault.Sdk.Client.{SecureLensClient}
use trust_vault.Sdk.Gate.Requests.{no_query}
use trust_vault.Sdk.Gate.Calls.{Wire, intercept, query, classify}

-- What the program reads of Express's request.
pub record Request : Type 0 where
  pub body : Value
  pub query : Value

-- Express's `next()` and `res.status(…).json(…)`: the error that a call throws, if it throws one.
pub record Host : Type 0 where
  pub next : World → Option Thrown
  pub send : World → Option ℕ → Value → Option Thrown

pub record SecureLensMiddlewareOptions : Type 0 where
  pub client : SecureLensClient
  pub intercept_requests : Option Bool
  pub audit_responses : Option Bool
  pub policies : Option (List Text)
  pub get_user_context : Option (Request → Io UserContext)
  pub get_query : Option (Request → Io Value)
  pub on_error : Option (Thrown → Request → Io (Unit {0}))
  pub on_blocked : Option (GateInterceptResponse → Request → Io (Unit {0}))
  pub skip : Option (Request → Io Bool)

pub record GateHandlerOptions : Type 0 where
  pub client : SecureLensClient
  pub llm_provider : Option LlmSource
  pub model : Option Text
  pub context_source : Option VectorDbSource
  pub top_k : Option JsNumber
  pub policies : Option (List Text)
  pub get_user_context : Option (Request → Io UserContext)
  pub get_query : Option (Request → Io Value)
  pub format_response : Option (GateQueryResponse → Io Value)

abbrev pub call_next : Host → Io (Unit {0})
call_next host w = outcome (host.next w) (called_next ∷ w)

-- Without a status the response keeps Express's own.
abbrev pub respond : Host → Option ℕ → Value → Io (Unit {0})
respond host status body w = outcome (host.send w status body) (sent status body ∷ w)

abbrev pub internal_error : Value
internal_error = obj (
    field "error" (str (text "INTERNAL_ERROR"))
      (field "message" (str (text "An internal error occurred")) end))

unfoldable pub default_get_query : Request → Value
default_get_query request = coalesce (member "query" request.body) (
    coalesce (member "message" request.body)
      (coalesce (member "prompt" request.body) (member "q" request.query)))

unfoldable pub default_on_error : Host → Thrown → Io (Unit {0})
default_on_error host (sdk e) = respond host (some (get_or e.status_code 500)) (
    obj (
      field "error" (str (text e.code))
        (field "message" (str e.message) (field "requestId" (opt str e.request_id) end))))
default_on_error host _ = respond host (some 500) internal_error

unfoldable pub default_on_blocked : Host → GateInterceptResponse → Io (Unit {0})
default_on_blocked host result = respond host (some 403) (
    obj (
      field "error" (str (text "POLICY_BLOCKED")) (
        field "message" (str (get_or result.block_reason (text "Request blocked by policy"))) (
          field "auditId" (str result.audit_id)
            (field "suggestedQuery" (opt str result.suggested_query) end)))))

-- `req.secureLens` before anything is known.
abbrev pub empty_context : SecureLensContext
empty_context = record {
  intercept_result = none;
  safe_query = none;
  audit_id = none;
  user_context = none;
}

abbrev with_user : Option UserContext → SecureLensContext
with_user user = record empty_context { user_context = user }

abbrev with_answer : Option UserContext → GateInterceptResponse → SecureLensContext
with_answer user result = record {
  intercept_result = some result;
  safe_query = some result.safe_query;
  audit_id = some result.audit_id;
  user_context = user;
}

module _ (env : Env) (wire : Wire) (host : Host) where
  -- The middleware's question to the gate; a value that is no text is refused.
  unfoldable pub intercept_text :
      SecureLensMiddlewareOptions → Option UserContext → Value → Io GateInterceptResponse
  intercept_text options user (str query) = intercept env wire options.client (record {
    query = query;
    context_source = none;
    policies = options.policies;
    user_context = user;
    session_id = none;
    metadata = none;
  })
  intercept_text options user v = raise (sdk no_query)

  user_of : Option (Request → Io UserContext) → Request → Io (Option UserContext)
  user_of none request = pure none
  user_of (some f) request = do
    user ← f request
    emit (attached (with_user (some user)))
    pure (some user)

  query_of : Option (Request → Io Value) → Request → Io Value
  unfolding default_get_query
  query_of none request = pure (default_get_query request)
  query_of (some f) request = f request

  blocked_by :
      Option (GateInterceptResponse → Request → Io (Unit {0}))
      → GateInterceptResponse
      → Request
      → Io (Unit {0})
  unfolding default_on_blocked
  blocked_by none result request = default_on_blocked host result
  blocked_by (some f) result request = f result request

  failed_by : Option (Thrown → Request → Io (Unit {0})) → Request → Thrown → Io (Unit {0})
  unfolding default_on_error
  failed_by none request error = default_on_error host error
  failed_by (some f) request error = f error request

  -- Whether the `try` block goes on after the interception.
  judge :
      SecureLensMiddlewareOptions → Option UserContext → Request → GateInterceptResponse → Io Bool
  unfolding blocked_by
  judge options user request result = do
    emit (attached (with_answer user result))
    (if result.allowed
        then pure true
        else (do blocked_by options.on_blocked result request; pure false))

  screen : SecureLensMiddlewareOptions → Option UserContext → Request → Io Bool
  unfolding query_of intercept_text judge
  screen options user request =
      if get_or options.intercept_requests false
      then (do
        query ← query_of options.get_query request
        (if truthy query
            then (do result ← intercept_text options user query; judge options user request result)
            else pure true))
      else pure true

  proceed : SecureLensMiddlewareOptions → Bool → Io (Unit {0})
  proceed options false = pure tt
  proceed options true = do
    when (get_or options.audit_responses false) (emit json_wrapped)
    call_next host

  skipped : Option (Request → Io Bool) → Request → Io Bool
  skipped none request = pure false
  skipped (some f) request = f request

  handle : SecureLensMiddlewareOptions → Request → Io (Unit {0})
  unfolding user_of screen proceed failed_by
  handle options request = do
    emit (attached empty_context)
    catch
        (do
          user ← user_of options.get_user_context request
          go_on ← screen options user request
          proceed options go_on)
        (failed_by options.on_error request)

  unfoldable pub secure_lens_middleware : SecureLensMiddlewareOptions → Request → Io (Unit {0})
  unfolding skipped handle
  secure_lens_middleware options request = do
    skip ← skipped options.skip request
    (if skip then call_next host else handle options request)

  unfoldable pub extract_response_text : Value → Value
  extract_response_text (str s) = str s
  extract_response_text body = coalesce (member "response" body) (
      coalesce (member "message" body)
        (coalesce (member "content" body) (coalesce (member "text" body) (member "answer" body))))

  abbrev classify_text : SecureLensClient → Value → Io ClassificationResult
  classify_text client (str content) = classify env wire client content
  classify_text client v = classify env wire client []

  unfoldable pub audit_response : SecureLensClient → Value → Io (Unit {0})
  unfolding extract_response_text
  audit_response client body =
      catch
        (if truthy (extract_response_text body)
          then (do result ← classify_text client (extract_response_text body); pure tt)
          else pure tt)
        λ error. pure tt

  -- `res.json` once the middleware has replaced it.
  unfoldable pub audited_json : SecureLensClient → Value → Io (Unit {0})
  unfolding audit_response
  audited_json client body = do audit_response client body; respond host none body
