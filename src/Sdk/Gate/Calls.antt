-- ===== src/Sdk/Gate/Calls.antt =====
-- gate.ts: the calls of the gate. `client` is the field of the class.
pub mod Guarded
pub mod Quiet
use trust_vault.Prelude.{
  not, Option, none, some, List, ◌++◌, Text, text, truthy_text, length, ◌==◌, if◌then◌else◌,
}
use trust_vault.Sdk.Value.{Value, str, arr, obj, end, field}
use trust_vault.Sdk.Types.{
  ClassificationResult, GateInterceptRequest, GateInterceptResponse, GateQueryRequest,
  GateQueryResponse, GateEmbedRequest, AuditQueryOptions,
}
use trust_vault.Sdk.Errors.{sdk, no_options, validation_error}
use trust_vault.Sdk.Effect.{Env, Io, ◌>>=◌, ◌>>◌, pure, lift, raise}
use trust_vault.Sdk.Client.{SecureLensClient, get, post}
use trust_vault.Sdk.Gate.Requests.{
  validate_intercept_request, validate_query_request, validate_embed_request,
}
use trust_vault.Sdk.Gate.Payloads.{
  texts, normalize_intercept_request, normalize_query_request, normalize_embed_request,
}
use trust_vault.Sdk.Gate.Audit.{audit_path}

-- The unchecked casts `as T` of a response: what the service's JSON stands for.
pub record Wire : Type 0 where
  pub intercept : Value → GateInterceptResponse
  pub query : Value → GateQueryResponse
  pub classification : Value → ClassificationResult
  pub classifications : Value → List ClassificationResult

abbrev invalid_text : Text → Io Value
invalid_text message = raise (sdk (validation_error (some message) no_options Value.undefined))

module _ (env : Env) (wire : Wire) (client : SecureLensClient) where
  unfoldable pub intercept : GateInterceptRequest → Io GateInterceptResponse
  intercept request = do
    lift (validate_intercept_request request)
    body ←
        post env client (text "/api/v1/gate/intercept") (normalize_intercept_request request) none
    pure (wire.intercept body)

  unfoldable pub query : GateQueryRequest → Io GateQueryResponse
  query request = do
    lift (validate_query_request request)
    body ← post env client (text "/api/v1/gate/query") (normalize_query_request request) none
    pure (wire.query body)

  unfoldable pub embed : GateEmbedRequest → Io Value
  embed request = do
    lift (validate_embed_request request)
    post env client (text "/api/v1/gate/embed") (normalize_embed_request request) none

  unfoldable pub classify : Text → Io ClassificationResult
  classify content = do
    body ←
        (if not (truthy_text content)
          then invalid_text (text "Text is required for classification")
          else post env client (text "/api/v1/classify") (obj (field "text" (str content) end))
              none)
    pure (wire.classification body)

  unfoldable pub classify_batch : List Text → Io (List ClassificationResult)
  classify_batch contents = do
    body ←
        (if length contents == 0
          then invalid_text (text "Texts array is required for batch classification")
          else post env client (text "/api/v1/classify/batch")
              (obj (field "texts" (arr (texts contents)) end)) none)
    pure (wire.classifications body)

  unfoldable pub get_audit_events : Option AuditQueryOptions → Io Value
  get_audit_events options = get env client (audit_path options) none

  unfoldable pub get_audit_event : Text → Io Value
  get_audit_event audit_id =
      if not (truthy_text audit_id)
      then invalid_text (text "Audit ID is required")
      else get env client (text "/api/v1/audit/" ++ audit_id) none
