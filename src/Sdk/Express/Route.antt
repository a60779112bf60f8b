-- ===== src/Sdk/Express/Route.antt =====
-- express.ts: `createGateHandler`. `shown` gives the JSON of a gate's response, which the cast of
-- the response forgets.
pub mod Replies
use trust_vault.Prelude.{
  ℕ, Bool, true, false, not, Option, none, some, get_or, Text, text, if◌then◌else◌,
}
use trust_vault.Sdk.Value.{Value, str, obj, end, field, member, truthy}
use trust_vault.Sdk.Types.{UserContext, GateQueryResponse}
use trust_vault.Sdk.Errors.{Thrown, sdk, js, SecureLensError, Details, policy}
use trust_vault.Sdk.Effect.{Env, Io, ◌>>=◌, ◌>>◌, pure, raise, catch}
use trust_vault.Sdk.Gate.Requests.{no_query}
use trust_vault.Sdk.Gate.Calls.{Wire, query}
use trust_vault.Sdk.Express.{Request, Host, GateHandlerOptions, respond, internal_error}

abbrev pub policy_blocked : Text → Value → Value → Value
policy_blocked message policy_id suggested_query = obj (
    field "error" (str (text "POLICY_BLOCKED")) (
      field "message" (str message)
        (field "policyId" policy_id (field "suggestedQuery" suggested_query end))))

abbrev pub failed : Text → Text → Value
failed code message = obj (field "error" (str code) (field "message" (str message) end))

-- The status and the body for an error of the SDK, by its class.
abbrev pub reply_of : SecureLensError → Details → Option ℕ × Value
reply_of e (policy policy_id policy_name reason suggested_query) =
    (some 403, policy_blocked e.message policy_id suggested_query)
reply_of e _ = (some (get_or e.status_code 500), failed (text e.code) e.message)

-- The `catch` block.
unfoldable pub on_route_error : Host → Thrown → Io (Unit {0})
on_route_error host (sdk e) = let (status, body) = reply_of e e.details in respond host status body
on_route_error host _ = respond host (some 500) internal_error

module _ (env : Env) (wire : Wire) (host : Host) (shown : GateQueryResponse → Value) where
  -- The call of the gate; a query that is no text is refused.
  ask : GateHandlerOptions → Option UserContext → Value → Io GateQueryResponse
  ask options user (str query_text) = query env wire options.client (record {
    query = query_text;
    context_source = options.context_source;
    llm_provider = options.llm_provider;
    model = options.model;
    top_k = options.top_k;
    policies = options.policies;
    user_context = user;
    session_id = none;
    system_prompt = none;
    stream = none;
    metadata = none;
  })
  ask options user v = raise (sdk no_query)

  route_query : Option (Request → Io Value) → Request → Io Value
  route_query none request = pure (member "query" request.body)
  route_query (some f) request = f request

  route_user : Option (Request → Io UserContext) → Request → Io (Option UserContext)
  route_user none request = pure none
  route_user (some f) request = do user ← f request; pure (some user)

  formatted : Option (GateQueryResponse → Io Value) → GateQueryResponse → Io Value
  formatted none result = pure (shown result)
  formatted (some f) result = f result

  serve : GateHandlerOptions → Request → Value → Io (Unit {0})
  unfolding ask route_user formatted
  serve options request query_value =
      if not (truthy query_value)
      then respond host (some 400) (obj (field "error" (str (text "Query is required")) end))
      else (do
        user ← route_user options.get_user_context request
        result ← ask options user query_value
        response ← formatted options.format_response result
        respond host none response)

  unfoldable pub create_gate_handler : GateHandlerOptions → Request → Io (Unit {0})
  unfolding serve route_query on_route_error
  create_gate_handler options request =
      catch (do v ← route_query options.get_query request; serve options request v)
        (on_route_error host)
