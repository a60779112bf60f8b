-- ===== src/Sdk/Gate/Stream.antt =====
-- gate.ts: `queryStream`. The decoder gives one text for each read; the program cuts each text at
-- newlines by itself, and carries nothing over to the next read.
pub mod Reads
pub mod Outcome
use trust_vault.Prelude.{
  onto_first, ℕ, Bool, true, false, not, ◌&&◌, Option, none, some, List, [], ◌∷◌, ◌++◌, Text, text,
  text_eq, truthy_text, starts_with, drop, ◌==◌, if◌then◌else◌,
}
use trust_vault.Sdk.Value.{
  Value, undefined, null, bool, str, Fields, end, field, put, coalesce, member, to_string,
}
use trust_vault.Sdk.Types.{ChunkType, GateQueryRequest, GateQueryResponse, StreamChunk}
use trust_vault.Sdk.Errors.{JsError, sdk, js, no_options, validation_error, Thrown, property_error}
use trust_vault.Sdk.Effect.{
  FetchRequest, World, got_chunk, reader_released, BodyRead, read_text, read_failed, BodyStream,
  Response, is_ok, FetchResult, responded, rejected, Parsed, parsed, syntax_error, Env, Result, ok,
  throw, Io, ◌>>=◌, ◌>>◌, pure, lift, raise, finally, fetch,
}
use trust_vault.Sdk.Client.{SecureLensClient, get_base_url, get_tenant_id}
use trust_vault.Sdk.Gate.Requests.{validate_query_request}
use trust_vault.Sdk.Gate.Payloads.{normalize_query_request}

-- `text.split('\n')`
pub split_lines : Text → List Text
split_lines [] = [] ∷ []
split_lines (c ∷ s) = let rest = split_lines s in if c == 10 then [] ∷ rest else onto_first c rest

abbrev pub data_prefix : Text
data_prefix = text "data: "

abbrev pub done_mark : Text
done_mark = text "[DONE]"

abbrev pub is_done : ChunkType → Bool
is_done ChunkType.done = true
is_done _ = false

-- `if (chunk.type === 'done' && chunk.finalResponse) finalResponse = chunk.finalResponse`
abbrev pub take_final : StreamChunk → Option GateQueryResponse → Option GateQueryResponse
take_final c final = elim c.final_response [
  | none ↦ final
  | some r ↦ if is_done c.type then some r else final
]

-- `...(tenantId && { 'X-Tenant-ID': tenantId })`
abbrev with_tenant : Option Text → Fields → Fields
with_tenant none headers = headers
with_tenant (some t) headers = if truthy_text t then put "X-Tenant-ID" (str t) headers else headers

-- What follows the callback in the `try` block, unless the callback threw.
abbrev after_callback :
    Option Thrown → StreamChunk → Option GateQueryResponse → Option GateQueryResponse
after_callback none c final = take_final c final
after_callback (some error) c final = final

abbrev at_end : Option Thrown → Option GateQueryResponse → Io (Option GateQueryResponse)
at_end none final = pure final
at_end (some error) final = raise error

abbrev stream_error : Text → Io GateQueryResponse
stream_error message = raise (sdk (validation_error (some message) no_options undefined))

abbrev require_final : Option GateQueryResponse → Io GateQueryResponse
require_final none = stream_error (text "Stream ended without final response")
require_final (some r) = pure r

-- `decode` is `JSON.parse` of a line's data, read as a chunk; `none` is a syntax error. `callback`
-- is the caller's, and gives the error that it throws, if it throws one.
module _ (decode : Text → Option StreamChunk) (callback : World → StreamChunk → Option Thrown) where
  -- The body of the `try` block in the loop over lines. What it throws is dropped.
  pub deliver : Option StreamChunk → Option GateQueryResponse → Io (Option GateQueryResponse)
  deliver none final w = (ok final, w)
  deliver (some c) final w = (ok (after_callback (callback w c) c final), got_chunk c ∷ w)

  process_line : Text → Option GateQueryResponse → Io (Option GateQueryResponse)
  unfolding deliver
  process_line line final =
      if not (starts_with data_prefix line)
      then pure final
      else if text_eq (drop 6 line) done_mark
      then pure final
      else deliver (decode (drop 6 line)) final

  pub process_lines : List Text → Option GateQueryResponse → Io (Option GateQueryResponse)
  unfolding process_line
  process_lines [] final = pure final
  process_lines (l ∷ ls) final = do final' ← process_line l final; process_lines ls final'

  -- The loop over reads.
  pub process_reads : List Text → Option GateQueryResponse → Io (Option GateQueryResponse)
  unfolding process_lines split_lines
  process_reads [] final = pure final
  process_reads (t ∷ ts) final = do
    final' ← process_lines (split_lines t) final
    process_reads ts final'

  -- From `response.body?.getReader()` on.
  read_stream : Option BodyStream → Io GateQueryResponse
  unfolding process_reads
  read_stream none = stream_error (text "Response body is not readable")
  read_stream (some s) = do
    final ← finally (do f ← process_reads s.reads none; at_end s.failure f) reader_released
    require_final final

  module _ (env : Env) (client : SecureLensClient) where
    abbrev stream_headers : Fields
    stream_headers = with_tenant (get_tenant_id client) (
        field "Content-Type" (str (text "application/json"))
          (field "Authorization" (str (text "Bearer " ++ client.api_key)) end))

    -- `errorBody.message ?? 'Stream request failed'`; `null` has no properties to read.
    abbrev error_text : Value → Result Text
    error_text null = throw (js (property_error (text "null") "message"))
    error_text body =
        ok (to_string (coalesce (member "message" body) (str (text "Stream request failed"))))

    abbrev json_body : BodyRead → Result Value
    json_body (read_failed e) = throw e
    json_body (read_text t) = elim (env.parse_json t) [
      | parsed v ↦ ok v
      | syntax_error e ↦ throw (js e)
    ]

    abbrev fail_stream : Response → Io GateQueryResponse
    fail_stream response = do
      body ← lift (json_body response.body)
      message ← lift (error_text body)
      stream_error message

    abbrev fetched_response : FetchResult → Result Response
    fetched_response (responded r) = ok r
    fetched_response (rejected e) = throw e

    abbrev on_response : Response → Io GateQueryResponse
    on_response response =
        if is_ok response then read_stream response.stream else fail_stream response

    abbrev stream_request : GateQueryRequest → FetchRequest
    stream_request request = record {
      url = get_base_url client ++ text "/api/v1/gate/query/stream";
      method = "POST";
      headers = stream_headers;
      body = some (env.stringify (normalize_query_request (record request { stream = some true })));
      signal = none;
    }

    unfoldable pub query_stream : GateQueryRequest → Io GateQueryResponse
    unfolding read_stream
    query_stream request = do
      lift (validate_query_request request)
      result ← fetch env (stream_request request)
      response ← lift (fetched_response result)
      on_response response
