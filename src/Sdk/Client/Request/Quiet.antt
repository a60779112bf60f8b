-- ===== src/Sdk/Client/Request/Quiet.antt =====
-- A request to the service leaves `next` uncalled and sends no response of its own.
use trust_vault.Prelude.{ℕ, zero, suc, ◌+◌, refl, Option, none, some, String, Text, arith}
use trust_vault.Sdk.Value.{Value}
use trust_vault.Sdk.Types.{RequestOptions}
use trust_vault.Sdk.Errors.{Thrown}
use trust_vault.Sdk.Effect.{Env, World, Result, ok, throw, Io, ◌>>◌, fetch}
use trust_vault.Sdk.Effect.Trace.{IsQuiet}
use trust_vault.Sdk.Client.Config.{SecureLensClient}
use trust_vault.Sdk.Client.Execute.{execute_request}
use trust_vault.Sdk.Client.Request.{backoff, settle, note_retry, rounds, retry_loop, request}

module _ (env : Env) (client : SecureLensClient) where
  execute_request-IsQuiet :
      (method : String) (url : Text) (body : Value) (timeout : ℕ) (options : Option RequestOptions)
      (w : World)
      → IsQuiet w (execute_request env client method url body timeout options w).1
  unfolding execute_request fetch
  execute_request-IsQuiet method url body timeout options w = ground arith

  module _ (run : Io Value) (one : (w : World) → IsQuiet w (run w).1) where
    attempt-IsQuiet : (a : ℕ) (w : World) → IsQuiet w ((backoff client a >> run) w).1
    attempt-IsQuiet zero w = one w
    attempt-IsQuiet (suc n) w = ground (arith, one (backoff client (suc n) w).1)

    settle-IsQuiet :
        (a : ℕ) (next : Thrown → Io Value) (r : Result Value) (w : World)
        → ((e : Thrown) (v : World) → IsQuiet v (next e v).1)
        → IsQuiet w (settle client a next r w).1
    settle-IsQuiet a next (ok v) w h = (refl, refl)
    settle-IsQuiet a next (throw e) w h = ground (arith, h e (note_retry client e w).1, h e w)

    retry_loop-IsQuiet :
        (n a : ℕ) (last : Option Thrown) (w : World)
        → IsQuiet w (retry_loop client run n a last w).1
    unfolding retry_loop
    retry_loop-IsQuiet zero a last w = (refl, refl)
    retry_loop-IsQuiet (suc n) a last w =
        let x = (backoff client a >> run) w in
        let before = attempt-IsQuiet a w in
        let after =
          settle-IsQuiet a (λ e. retry_loop client run n (a + 1) (some e)) x.0 x.1
            (λ e v. retry_loop-IsQuiet n (a + 1) (some e) v) in
        omega arith

  pub request-IsQuiet :
      (method : String) (path : Text) (body : Value) (options : Option RequestOptions) (w : World)
      → IsQuiet w (request env client method path body options w).1
  unfolding request
  request-IsQuiet method path body options w =
      retry_loop-IsQuiet _ (execute_request-IsQuiet method _ body _ options) (rounds client.retries)
        0 none w
