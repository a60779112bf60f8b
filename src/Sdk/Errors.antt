-- ===== src/Sdk/Errors.antt =====
-- errors.ts: the error classes, the mapping of an HTTP response to one of them, and the retry test.
pub mod Parse
use trust_vault.Prelude.{
  ℕ, String, Bool, true, false, ◌&&◌, Option, none, some, get_or, ◌++◌, Text, text, ltb, leb, ◌==◌,
  if◌then◌else◌,
}
use trust_vault.Sdk.Value.{
  Value, undefined, bool, num, str, Fields, end, field, coalesce, member, put, spread, opt,
  to_string,
}

-- What is thrown that the SDK did not make, but `null` and `undefined`: `fetch`, `JSON.parse` and
-- callbacks throw such. A name or a message that it lacks is the text 'undefined'.
pub record JsError : Type 0 where
  pub name : String
  pub message : Text

-- What a subclass adds to `SecureLensError`. The constructor is the class, which `instanceof` tests.
pub data Details : Type 0 where
  plain auth server : Details
  rate_limit : (retry_after limit remaining : Value) → Details
  policy : (policy_id policy_name reason suggested_query : Value) → Details
  connection : (retryable : Bool) → Details
  validation : (field_errors : Value) → Details
  timeout : (timeout_ms : ℕ) → Details

pub record SecureLensError : Type 0 where
  pub name : String
  pub message : Text
  pub code : String
  pub status_code : Option ℕ
  pub request_id : Option Text
  pub cause : Option JsError
  pub details : Details

-- `{ requestId?, cause? }`
pub record ErrorOptions : Type 0 where
  pub request_id : Option Text
  pub cause : Option JsError

abbrev pub no_options : ErrorOptions
no_options = record { request_id = none; cause = none }

-- What can be thrown; `nullish` is `null` or `undefined`, by its text.
pub data Thrown : Type 0 where
  sdk : SecureLensError → Thrown
  js : JsError → Thrown
  nullish : Text → Thrown

-- What reading a property of `null` or `undefined` throws.
abbrev pub property_error : Text → String → JsError
property_error value property = record {
  name = "TypeError";
  message =
      text "Cannot read properties of "
      ++ (value ++ (text " (reading '" ++ (text property ++ text "')")));
}

unfoldable pub secure_lens_error : Text → String → Option ℕ → ErrorOptions → SecureLensError
secure_lens_error message code status_code options = record {
  name = "SecureLensError";
  message = message;
  code = code;
  status_code = status_code;
  request_id = options.request_id;
  cause = options.cause;
  details = Details.plain;
}

unfoldable pub auth_error : Option Text → ErrorOptions → SecureLensError
unfolding secure_lens_error
auth_error message options =
    record (secure_lens_error
      (get_or message (text "Authentication failed. Please check your API key.")) "AUTH_ERROR"
      (some 401) options) { name = "SecureLensAuthError"; details = Details.auth }

unfoldable pub rate_limit_error :
    Option Text → ErrorOptions → (retry_after limit remaining : Value) → SecureLensError
unfolding secure_lens_error
rate_limit_error message options retry_after limit remaining =
    record (secure_lens_error (get_or message (text "Rate limit exceeded. Please retry later."))
      "RATE_LIMIT_ERROR" (some 429) options) {
        name = "SecureLensRateLimitError";
        details = rate_limit retry_after limit remaining;
      }

unfoldable pub policy_error :
    Option Text
    → ErrorOptions
    → (policy_id policy_name reason suggested_query : Value) → SecureLensError
unfolding secure_lens_error
policy_error message options policy_id policy_name reason suggested_query =
    record (secure_lens_error (get_or message (text "Request blocked by policy.")) "POLICY_ERROR"
      (some 403) options) {
        name = "SecureLensPolicyError";
        details = policy policy_id policy_name reason suggested_query;
      }

unfoldable pub connection_error : Option Text → ErrorOptions → Option Bool → SecureLensError
unfolding secure_lens_error
connection_error message options retryable =
    record (secure_lens_error (get_or message (text "Failed to connect to SecureLens API."))
      "CONNECTION_ERROR" (some 503) options) {
        name = "SecureLensConnectionError";
        details = connection (get_or retryable true);
      }

unfoldable pub validation_error : Option Text → ErrorOptions → Value → SecureLensError
unfolding secure_lens_error
validation_error message options field_errors =
    record (secure_lens_error (get_or message (text "Invalid request parameters."))
      "VALIDATION_ERROR" (some 400) options) {
        name = "SecureLensValidationError";
        details = validation field_errors;
      }

unfoldable pub timeout_error : Option Text → ErrorOptions → Option ℕ → SecureLensError
unfolding secure_lens_error
timeout_error message options timeout_ms =
    record (secure_lens_error (get_or message (text "Request timed out.")) "TIMEOUT_ERROR"
      (some 408) options) {
        name = "SecureLensTimeoutError";
        details = timeout (get_or timeout_ms 30000);
      }

-- `{ statusCode: options?.statusCode ?? 500, ...options }`: a `statusCode` key that is present wins
-- by the spread, also when its value is undefined. `none` is an absent key.
abbrev pub server_status : Option (Option ℕ) → Option ℕ
server_status none = some 500
server_status (some given) = given

unfoldable pub server_error : Option Text → ErrorOptions → Option (Option ℕ) → SecureLensError
unfolding secure_lens_error
server_error message options status_code =
    record (secure_lens_error (get_or message (text "Internal server error.")) "SERVER_ERROR"
      (server_status status_code) options) {
        name = "SecureLensServerError";
        details = Details.server;
      }

-- `SecureLensError.toJSON`
base_json : SecureLensError → Fields
base_json e = field "name" (str (text e.name)) (
    field "message" (str e.message) (
      field "code" (str (text e.code)) (
        field "statusCode" (opt num e.status_code) (field "requestId" (opt str e.request_id) end))))

-- The properties that the `toJSON` of a subclass adds.
details_json : Details → Fields
details_json (rate_limit retry_after limit remaining) =
    field "retryAfter" retry_after (field "limit" limit (field "remaining" remaining end))
details_json (policy policy_id policy_name reason suggested_query) = field "policyId" policy_id (
    field "policyName" policy_name
      (field "reason" reason (field "suggestedQuery" suggested_query end)))
details_json (connection retryable) = field "retryable" (bool retryable) end
details_json (validation field_errors) = field "fieldErrors" field_errors end
details_json (timeout timeout_ms) = field "timeoutMs" (num timeout_ms) end
details_json _ = end

unfoldable pub to_json : SecureLensError → Fields
unfolding base_json details_json
to_json e = spread (base_json e) (details_json e.details)

-- `body?.message ?? body?.error ?? 'Unknown error'`, which the Error constructor turns into a text.
unfoldable pub error_message : Value → Text
error_message body =
    to_string (
      coalesce (member "message" body)
        (coalesce (member "error" body) (str (text "Unknown error"))))

unfoldable pub parse_api_error : ℕ → Value → Option Text → SecureLensError
unfolding validation_error auth_error policy_error timeout_error rate_limit_error connection_error
    server_error secure_lens_error
parse_api_error status_code body request_id =
    let message = some (error_message body) in
    let options : ErrorOptions = record { request_id = request_id; cause = none } in
    if status_code == 400
    then validation_error message options (member "fieldErrors" body)
    else if status_code == 401
    then auth_error message options
    else if status_code == 403
    then policy_error message options (member "policyId" body) (member "policyName" body)
        (member "reason" body) (member "suggestedQuery" body)
    else if status_code == 408
    then timeout_error message options none
    else if status_code == 429
    then rate_limit_error message options (member "retryAfter" body) (member "limit" body)
        (member "remaining" body)
    else if status_code == 503
    then connection_error message options (some true)
    else if leb 500 status_code
    then server_error message options (some (some status_code))
    else secure_lens_error (error_message body) "UNKNOWN_ERROR" (some status_code) options

unfoldable pub is_secure_lens_error : Thrown → Bool
is_secure_lens_error (sdk e) = true
is_secure_lens_error (js e) = false
is_secure_lens_error (nullish v) = false

-- `statusCode !== undefined && statusCode >= 500 && statusCode < 600`
abbrev pub server_range : Option ℕ → Bool
server_range none = false
server_range (some s) = leb 500 s && ltb s 600

abbrev pub retryable_class : Details → Option ℕ → Bool
retryable_class (rate_limit _ _ _) status_code = true
retryable_class (connection retryable) status_code = retryable
retryable_class (timeout _) status_code = true
retryable_class Details.server status_code = server_range status_code
retryable_class _ status_code = false

unfoldable pub is_retryable_error : Thrown → Bool
is_retryable_error (sdk e) = retryable_class e.details e.status_code
is_retryable_error (js e) = false
is_retryable_error (nullish v) = false
