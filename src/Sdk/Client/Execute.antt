-- ===== src/Sdk/Client/Execute.antt =====
-- client.ts: one exchange with the server, its timer, and what its failures become.
pub mod Failures
use trust_vault.Prelude.{
  ℕ, zero, suc, ◌+◌, ◌-◌, ◌*◌, ◌^◌, ℤ, pos, negsuc, String, Bool, true, false, not, ◌||◌, Option,
  none, some, get_or, ◌++◌, Text, text, decimal, includes, ltb, ◌==◌, str_eq, if◌then◌else◌,
}
use trust_vault.Sdk.Value.{Value, undefined, str, num, Fields, end, field, put, spread, truthy, obj}
use trust_vault.Sdk.Value
use trust_vault.Sdk.Types.{SecureLensConfig, RequestOptions}
use trust_vault.Sdk.Errors.{
  JsError, Thrown, sdk, js, no_options, secure_lens_error, connection_error, timeout_error,
  parse_api_error, is_retryable_error, nullish, property_error,
}
use trust_vault.Sdk.Effect.{
  Signal, FetchRequest, logged, slept, timer_set, timer_cleared, BodyRead, read_text, read_failed,
  Response, is_ok, FetchResult, responded, rejected, Parsed, parsed, syntax_error, Env, Result, ok,
  throw, Io, ◌>>=◌, ◌>>◌, pure, lift, raise, catch, emit, when, fetch, generate_request_id,
  continue, World,
}
use trust_vault.Sdk.Auth.{AuthContext, create_auth_context, mask_api_key}
use trust_vault.Sdk.Client.Config.{SecureLensClient, log}

-- `options?.headers`, spread over the client's own.
abbrev pub custom_headers : Option RequestOptions → Fields
custom_headers none = end
custom_headers (some options) = get_or options.headers end

-- `options?.signal ?? controller.signal`
abbrev pub signal_of : Option RequestOptions → Signal
signal_of none = Signal.timer
signal_of (some options) = if options.signal then Signal.caller else Signal.timer

-- `options?.timeout ?? this.config.timeout`
abbrev pub timeout_of : SecureLensClient → Option RequestOptions → ℕ
timeout_of client none = client.timeout
timeout_of client (some options) = get_or options.timeout client.timeout

-- `contentType?.includes('application/json')`
abbrev pub is_json : Option Text → Bool
is_json none = false
is_json (some t) = includes (text "application/json") t

abbrev pub json_of : Parsed → Result Value
json_of (parsed v) = ok v
json_of (syntax_error e) = throw (js e)

abbrev pub json_or_message : Text → Parsed → Result Value
json_or_message t (parsed v) = ok v
json_or_message t (syntax_error e) = ok (obj (field "message" (str t) end))

module _ (env : Env) where
  read_body : Bool → BodyRead → Result Value
  read_body json (read_failed e) = throw e
  read_body true (read_text t) = json_of (env.parse_json t)
  read_body false (read_text t) = json_or_message t (env.parse_json t)

  unfoldable pub parse_response : Response → Result Value
  unfolding read_body
  parse_response response = read_body (is_json response.content_type) response.body

  -- `fetch` resolves to a response or rejects with an error.
  abbrev answer : FetchResult → Result Response
  answer (responded r) = ok r
  answer (rejected e) = throw e

  -- The end of the `try` block: a response that is not ok is thrown as an SDK error.
  abbrev checked : Bool → Text → Response → Value → Io Value
  checked debug request_id response body =
      if is_ok response
      then (do
        when debug (
            log (text "Response " ++ decimal response.status)
              (obj (field "requestId" (str request_id) end)))
        pure body)
      else raise (sdk (parse_api_error response.status body (some request_id)))

  -- The `catch` block, which reads the name of what is no SDK error.
  unfoldable pub wrap_error : Text → ℕ → Thrown → Thrown
  wrap_error request_id timeout (sdk e) = sdk e
  wrap_error request_id timeout (nullish v) = js (property_error v "name")
  wrap_error request_id timeout (js e) =
      if str_eq e.name "AbortError"
      then sdk (
          timeout_error (some (text "Request timed out after " ++ (decimal timeout ++ text "ms")))
            (record { request_id = some request_id; cause = none }) (some timeout))
      else sdk (
          connection_error (some (text "Failed to connect: " ++ e.message))
            (record { request_id = some request_id; cause = some e }) (some true))

  -- The `try` block of `executeRequest`.
  pub exchange : SecureLensClient → FetchRequest → Text → Io Value
  unfolding fetch parse_response
  exchange client request request_id = do
    result ← fetch env request
    response ← lift (answer result)
    emit timer_cleared
    body ← lift (parse_response response)
    checked client.debug request_id response body

  unfoldable pub execute_request :
      SecureLensClient → String → Text → Value → ℕ → Option RequestOptions → Io Value
  unfolding exchange wrap_error generate_request_id
  execute_request client method url body timeout options = do
    emit (timer_set timeout)
    request_id ← generate_request_id env
    let headers =
        put "X-Request-ID" (str request_id) (spread client.auth.headers (custom_headers options))
    when client.debug
        (log (text method ++ (text " " ++ url)) (obj (field "requestId" (str request_id) end)))
    let request : FetchRequest = record {
      url = url;
      method = method;
      headers = headers;
      body = (if truthy body then some (env.stringify body) else none);
      signal = some (signal_of options);
    }
    catch (exchange client request request_id)
        λ error. (do emit timer_cleared; raise (wrap_error request_id timeout error))
