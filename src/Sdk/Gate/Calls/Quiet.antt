-- ===== src/Sdk/Gate/Calls/Quiet.antt =====
-- The calls of the gate leave `next` uncalled and send no response of their own.
use trust_vault.Prelude.{refl, none, text}
use trust_vault.Sdk.Value.{Value}
use trust_vault.Sdk.Types.{GateInterceptRequest, GateQueryRequest}
use trust_vault.Sdk.Effect.{Env, World, Result, ok, throw, Io, ◌>>=◌, ◌>>◌, lift, pure}
use trust_vault.Sdk.Effect.Trace.{IsQuiet}
use trust_vault.Sdk.Client.{SecureLensClient, post}
use trust_vault.Sdk.Client.Request.Quiet.{request-IsQuiet}
use trust_vault.Sdk.Gate.Requests.{validate_intercept_request, validate_query_request}
use trust_vault.Sdk.Gate.Payloads.{normalize_intercept_request, normalize_query_request}
use trust_vault.Sdk.Gate.Calls.{Wire, intercept, query}

-- A call that is guarded by a check and read by a cast is as quiet as itself.
guarded {ℓ} :
    {A : Type ℓ} (check : Result (Unit {0})) (call : Io Value) (cast : Value → A) (w : World)
    → IsQuiet w (call w).1
    → IsQuiet w ((lift check >> (call >>= λ body. pure (cast body))) w).1
guarded (throw e) call cast w h = (refl, refl)
guarded (ok u) call cast w h = let (r, v) = call w in read r v h
  where
    read :
        (r : Result Value) (v : World)
        → IsQuiet w v
        → IsQuiet w (((λ x. (r, v)) >>= λ body. pure (cast body)) w).1
    read (ok b) v h = h
    read (throw e) v h = h

module _ (env : Env) (wire : Wire) (client : SecureLensClient) where
  pub intercept-IsQuiet :
      (r : GateInterceptRequest) (w : World) → IsQuiet w (intercept env wire client r w).1
  unfolding intercept post
  intercept-IsQuiet r w =
      guarded (validate_intercept_request r)
        (post env client (text "/api/v1/gate/intercept") (normalize_intercept_request r) none)
        wire.intercept w (request-IsQuiet env client "POST" _ _ _ w)

  pub query-IsQuiet : (r : GateQueryRequest) (w : World) → IsQuiet w (query env wire client r w).1
  unfolding query post
  query-IsQuiet r w =
      guarded (validate_query_request r)
        (post env client (text "/api/v1/gate/query") (normalize_query_request r) none) wire.query w
        (request-IsQuiet env client "POST" _ _ _ w)
