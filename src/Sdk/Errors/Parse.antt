-- ===== src/Sdk/Errors/Parse.antt =====
-- What an API error response becomes.
use trust_vault.Prelude.{
  ℕ, ◌≤◌, ◌<◌, String, true, ◌≡◌, refl, ◌↔◌, ◌⊎◌, Option, none, some, Text, text, arith,
}
use trust_vault.Sdk.Value.{Value, num, str, lookup, opt, spread, Fields}
use trust_vault.Sdk.Errors.{
  SecureLensError, sdk, base_json, details_json, Details, rate_limit, policy, connection,
  validation, timeout, to_json, error_message, parse_api_error, is_retryable_error,
}

-- The SDK retries an API error exactly when its status is 408, 429 or a 5xx.
pub is_retryable_error-parse_api_error :
    (status_code : ℕ) (body : Value) (request_id : Option Text)
    → (is_retryable_error (sdk (parse_api_error status_code body request_id)) ≡ true)
      ↔ ((status_code ≡ 408) ⊎ (status_code ≡ 429) ⊎ ((500 ≤ status_code) × (status_code < 600)))
unfolding is_retryable_error parse_api_error
is_retryable_error-parse_api_error status_code body request_id = ground arith

-- Name, code and, but for the classes that take a status, status follow from the class.
abbrev HasClass : Details → String → String → Option ℕ → Type 0
HasClass Details.plain name code status = (name ≡ "SecureLensError")
HasClass Details.auth name code status =
    (name ≡ "SecureLensAuthError") × (code ≡ "AUTH_ERROR") × (status ≡ some 401)
HasClass Details.server name code status =
    (name ≡ "SecureLensServerError") × (code ≡ "SERVER_ERROR")
HasClass (rate_limit _ _ _) name code status =
    (name ≡ "SecureLensRateLimitError") × (code ≡ "RATE_LIMIT_ERROR") × (status ≡ some 429)
HasClass (policy _ _ _ _) name code status =
    (name ≡ "SecureLensPolicyError") × (code ≡ "POLICY_ERROR") × (status ≡ some 403)
HasClass (connection _) name code status =
    (name ≡ "SecureLensConnectionError") × (code ≡ "CONNECTION_ERROR") × (status ≡ some 503)
HasClass (validation _) name code status =
    (name ≡ "SecureLensValidationError") × (code ≡ "VALIDATION_ERROR") × (status ≡ some 400)
HasClass (timeout _) name code status =
    (name ≡ "SecureLensTimeoutError") × (code ≡ "TIMEOUT_ERROR") × (status ≡ some 408)

-- The error for a response has the name and the code of its class, the status of the response and
-- the id of the request, wraps no other error, and has the body's message as `error_message` reads it.
parse_api_error-HasClass :
    (status_code : ℕ) (body : Value) (request_id : Option Text)
    → let e = parse_api_error status_code body request_id in
      HasClass e.details e.name e.code e.status_code
      × (e.status_code ≡ some status_code)
      × (e.request_id ≡ request_id)
      × (e.cause ≡ none)
      × (e.message ≡ error_message body)
unfolding parse_api_error
parse_api_error-HasClass status_code body request_id = ground arith

-- The five properties that `SecureLensError.toJSON` writes.
abbrev pub ShowsBase : SecureLensError → Fields → Type 0
ShowsBase e fs =
    (lookup "name" fs ≡ str (text e.name))
    × (lookup "message" fs ≡ str e.message)
    × (lookup "code" fs ≡ str (text e.code))
    × (lookup "statusCode" fs ≡ opt num e.status_code)
    × (lookup "requestId" fs ≡ opt str e.request_id)

details-ShowsBase :
    (e : SecureLensError) (d : Details) → ShowsBase e (spread (base_json e) (details_json d))
unfolding base_json details_json
details-ShowsBase e Details.plain = (refl, refl, refl, refl, refl)
details-ShowsBase e _ = (refl, refl, refl, refl, refl)

-- `toJSON` of every class shows the name, message, code, status and request id of the error: the
-- properties that a subclass adds override none of them.
to_json-ShowsBase : (e : SecureLensError) → ShowsBase e (to_json e)
unfolding to_json
to_json-ShowsBase e = details-ShowsBase e e.details
