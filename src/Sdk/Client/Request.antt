-- ===== src/Sdk/Client/Request.antt =====
-- client.ts: the retry loop and the methods that run it.
pub mod Backoff
pub mod Quiet
use trust_vault.Prelude.{
  ℕ, zero, suc, ◌+◌, ◌-◌, ◌*◌, ◌^◌, ℤ, pos, negsuc, String, Bool, true, false, not, ◌||◌, Option,
  none, some, get_or, ◌++◌, Text, text, decimal, includes, ltb, ◌==◌, str_eq, if◌then◌else◌, [],
}
use trust_vault.Sdk.Value.{Value, undefined, str, num, Fields, end, field, put, spread, truthy, obj}
use trust_vault.Sdk.Value
use trust_vault.Sdk.Types.{SecureLensConfig, RequestOptions}
use trust_vault.Sdk.Errors.{
  JsError, Thrown, sdk, js, no_options, secure_lens_error, connection_error, timeout_error,
  parse_api_error, is_retryable_error, nullish,
}
use trust_vault.Sdk.Effect.{
  Signal, FetchRequest, logged, slept, timer_set, timer_cleared, BodyRead, read_text, read_failed,
  Response, is_ok, FetchResult, responded, rejected, Parsed, parsed, syntax_error, Env, Result, ok,
  throw, Io, ◌>>=◌, ◌>>◌, pure, lift, raise, catch, emit, when, fetch, generate_request_id,
  continue, World,
}
use trust_vault.Sdk.Auth.{AuthContext, create_auth_context, mask_api_key}
use trust_vault.Sdk.Client.Config.{SecureLensClient, log, retry_delay_base}
use trust_vault.Sdk.Client.Execute.{execute_request, timeout_of}

-- `(error as Error).message`, which is only read of what is retried: no `null` or `undefined`.
abbrev pub message_of : Thrown → Text
message_of (sdk e) = e.message
message_of (js e) = e.message
message_of (nullish v) = []

-- `attempt === this.config.retries`
abbrev pub is_last : ℤ → ℕ → Bool
is_last (pos r) attempt = attempt == r
is_last (negsuc _) attempt = false

-- The rounds of `for (attempt = 0; attempt <= retries; attempt++)`.
abbrev pub rounds : ℤ → ℕ
rounds (pos r) = suc r
rounds (negsuc _) = 0

-- The pause before a round that is not the first.
abbrev pub backoff : SecureLensClient → ℕ → Io (Unit {0})
backoff client zero = pure tt
backoff client (suc n) = do
  let delay = retry_delay_base * 2 ^ n
  when client.debug (
      log
        (text "Retry attempt "
          ++ (decimal (suc n) ++ (text " after " ++ (decimal delay ++ text "ms"))))
        undefined)
  emit (slept delay)

abbrev pub note_retry : SecureLensClient → Thrown → Io (Unit {0})
note_retry client e =
    when client.debug
      (log (text "Request failed, will retry") (obj (field "error" (str (message_of e)) end)))

-- The `catch` block of the loop; `next` is the rest of the loop.
abbrev pub settle : SecureLensClient → ℕ → (Thrown → Io Value) → Result Value → Io Value
settle client attempt next (ok v) = pure v
settle client attempt next (throw e) =
    if not (is_retryable_error e) || is_last client.retries attempt
    then raise e
    else do note_retry client e; next e

-- The loop of `request` from `attempt` on, with that many rounds left; `run` is one execution.
retry_loop : SecureLensClient → Io Value → ℕ → ℕ → Option Thrown → Io Value
retry_loop client run zero attempt last_error w =
    raise
      (get_or last_error
        (sdk (secure_lens_error (text "Request failed") "UNKNOWN_ERROR" none no_options)))
      w
retry_loop client run (suc n) attempt last_error w =
    let (r, w') = (backoff client attempt >> run) w in
    settle client attempt (λ e. retry_loop client run n (attempt + 1) (some e)) r w'

unfoldable pub request :
    Env → SecureLensClient → String → Text → Value → Option RequestOptions → Io Value
unfolding retry_loop
request env client method path body options =
    let url = client.base_url ++ path in
    let timeout = timeout_of client options in
    retry_loop client (execute_request env client method url body timeout options)
      (rounds client.retries) 0 none

module _ (env : Env) (client : SecureLensClient) where
  unfoldable pub get : Text → Option RequestOptions → Io Value
  get path options = request env client "GET" path undefined options

  unfoldable pub post : Text → Value → Option RequestOptions → Io Value
  post path body options = request env client "POST" path body options

  unfoldable pub put_json : Text → Value → Option RequestOptions → Io Value
  put_json path body options = request env client "PUT" path body options

  unfoldable pub delete : Text → Option RequestOptions → Io Value
  delete path options = request env client "DELETE" path undefined options

  unfoldable pub health : Io Value
  health = get (text "/health") none
