-- ===== src/Sdk/Tests/Core.antt =====
-- Tests of errors, keys and the client.
use trust_vault.Prelude.{
  ℕ, ◌+◌, ◌*◌, ◌^◌, ◌≤◌, ◌<◌, pos, ◌≡◌, ◌↔◌, ◌⊎◌, refl, true, none, [], text, decimal, Text,
}
use trust_vault.Sdk.Value.{Value, undefined, str, end, field, obj}
use trust_vault.Sdk.Errors.{
  Thrown, sdk, js, parse_api_error, is_retryable_error, is_secure_lens_error, property_error,
}
use trust_vault.Sdk.Errors.Parse.{is_retryable_error-parse_api_error}
use trust_vault.Sdk.Effect.{throw, FetchRequest, World, Result}
use trust_vault.Sdk.Effect.Trace.{fetches, total_slept}
use trust_vault.Sdk.Client.{request, execute_request}
use trust_vault.Sdk.Client.Execute.{wrap_error}
use trust_vault.Sdk.Client.Execute.Failures.{execute_request-is_secure_lens_error}
use trust_vault.Sdk.Client.Request.Backoff.{IsSettled, request_paced}
use trust_vault.Sdk.Tests.{env_of, unavailable, refused, client_of}

request_paced_example :
    let (r, w') =
      request (env_of unavailable) (client_of (pos 1)) "GET" (text "/health") undefined none [] in
    (k : ℕ) × (k ≤ 1)
    × (fetches w' ≡ 0 + k + 1)
    × (total_slept w' + 1000 ≡ 0 + 1000 * 2 ^ k)
    × ((k ≡ 1) ⊎ IsSettled r)
request_paced_example =
    request_paced (env_of unavailable) (client_of (pos 1)) "GET" (text "/health") undefined none 1
      [] refl

-- A connection that fails.
abbrev failing : Result Value × World
failing =
    execute_request (env_of refused) (client_of (pos 0)) "GET" (text "/health") undefined 100 none
      []

abbrev failure : Thrown
failure =
    wrap_error (env_of refused) (text "req_1700_k3x9") 100
      (js (record { name = "TypeError"; message = text "fetch failed" }))

failing_throws : failing.0 ≡ throw failure
unfolding execute_request text wrap_error decimal
failing_throws = refl

execute_request-is_secure_lens_error_example :
    (is_secure_lens_error failure ≡ true) ⊎ ((v : Text) × (failure ≡ js (property_error v "name")))
execute_request-is_secure_lens_error_example =
    execute_request-is_secure_lens_error (env_of refused) (client_of (pos 0)) "GET" (text "/health")
      undefined 100 none [] failure failing_throws

abbrev get_request : FetchRequest
get_request = record {
  url = text "https://api.securelens.ai/health";
  method = "GET";
  headers = end;
  body = none;
  signal = none;
}

abbrev value : Value
value = obj (field "message" (str (text "fine")) end)

abbrev down : ℕ
down = 503

is_retryable_error-parse_api_error_example :
    (is_retryable_error (sdk (parse_api_error down value none)) ≡ true)
    ↔ ((down ≡ 408) ⊎ (down ≡ 429) ⊎ ((500 ≤ down) × (down < 600)))
is_retryable_error-parse_api_error_example = is_retryable_error-parse_api_error down value none
