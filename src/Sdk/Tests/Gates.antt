-- ===== src/Sdk/Tests/Gates.antt =====
-- Tests of the gate: its requests, its query string and its stream.
use trust_vault.Prelude.{
  pos, ◌≡◌, ◌≢◌, refl, true, false, Option, none, some, [], ◌∷◌, ◌++◌, Text, text, arith,
  starts_with, text_eq,
}
use trust_vault.Sdk.Types.{
  ChunkType, GateEmbedRequest, GateQueryResponse, StreamChunk, VectorDbProvider, VectorDbSource,
  amount, AuditQueryOptions, AuditEventType,
}
use trust_vault.Sdk.Errors.{Thrown}
use trust_vault.Sdk.Effect.{World, responded, read_text, Result, ok, FetchResult, fetch, got_chunk}
use trust_vault.Sdk.Client.{post, request, execute_request}
use trust_vault.Sdk.Gate.Requests.{validate_query_request, validate_embed_request}
use trust_vault.Sdk.Gate.Requests.Valid.{TopKInRange}
use trust_vault.Sdk.Gate.Calls.{query, embed}
use trust_vault.Sdk.Gate.Calls.Guarded.{query_sends_valid}
use trust_vault.Sdk.Gate.Stream.{data_prefix, done_mark, process_reads, query_stream}
use trust_vault.Sdk.Gate.Stream.Reads.{OneLine, process_reads_cut, process_reads_loses}
use trust_vault.Sdk.Gate.Stream.Outcome.{Delivered, query_stream-Delivered}
use trust_vault.Sdk.Tests.{env_of, accepted, client_of, wire, query_request, reply}

abbrev embed_request : GateEmbedRequest
embed_request = record {
  documents = text "a" ∷ [];
  metadata = none;
  vector_db = some (VectorDbSource.named VectorDbProvider.qdrant);
  classify_before_embed = none;
  policies = none;
  chunk_size = none;
  chunk_overlap = none;
}

query_sends : (query (env_of accepted) wire (client_of (pos 0)) (query_request none) []).1 ≢ []
unfolding query validate_query_request post request execute_request text
query_sends h = cc

query_sends_valid_example :
    (text "hi" ≢ []) × TopKInRange (some (amount (record { units = 5; places = 0 })))
query_sends_valid_example =
    query_sends_valid (env_of accepted) wire (client_of (pos 0)) (query_request none) [] query_sends

embed_sends : (embed (env_of accepted) wire (client_of (pos 0)) embed_request []).1 ≢ []
unfolding embed validate_embed_request post request execute_request text
embed_sends h = cc

-- A user id with the separators of the query string in it.
abbrev audit_options : AuditQueryOptions
audit_options = record {
  start_date = none;
  end_date = none;
  user_id = some (text "a&b=c");
  event_type = some AuditEventType.embed;
  policy_id = some [];
  limit = some 20;
  offset = some 0;
}

abbrev last_chunk : StreamChunk
last_chunk = record {
  type = ChunkType.done;
  content = none;
  classification = none;
  policy = none;
  final_response = some reply;
  error = none;
}

-- Only "{}" parses, as the last chunk; the callback throws nothing.
abbrev decode : Text → Option StreamChunk
decode t = elim (text_eq t (text "{}")) [ true ↦ some last_chunk | false ↦ none ]

abbrev callback : World → StreamChunk → Option Thrown
callback w c = none

process_reads_cut_example :
    process_reads decode callback
      ((text "data: {}" ++ (10 ∷ [])) ∷ text "data: [DONE]" ∷ [])
      none
      []
    ≡ process_reads decode callback ((text "data: {}" ++ (10 ∷ text "data: [DONE]")) ∷ []) none []
process_reads_cut_example =
    process_reads_cut decode callback (text "data: {}") (text "data: [DONE]") [] none []

left-OneLine : OneLine (text "{")
unfolding text
left-OneLine = (omega arith, tt)

right-OneLine : OneLine (text "}")
unfolding text
right-OneLine = (omega arith, tt)

right_is_no_data : starts_with data_prefix (text "}") ≡ false
unfolding text
right_is_no_data = refl

left_is_no_chunk : decode (text "{") ≡ none
unfolding text
left_is_no_chunk = refl

whole_is_no_mark : text_eq (text "{" ++ text "}") done_mark ≡ false
unfolding text
whole_is_no_mark = refl

whole_is_chunk : decode (text "{" ++ text "}") ≡ some last_chunk
unfolding text
whole_is_chunk = refl

process_reads_loses_example :
    (process_reads decode callback ((data_prefix ++ text "{") ∷ text "}" ∷ []) none []
      ≡ (ok none, []))
    × ((process_reads decode callback ((data_prefix ++ (text "{" ++ text "}")) ∷ []) none []).1
        ≡ got_chunk last_chunk ∷ [])
process_reads_loses_example =
    process_reads_loses decode callback (text "{") (text "}") last_chunk none [] left-OneLine
      right-OneLine right_is_no_data left_is_no_chunk whole_is_no_mark whole_is_chunk

abbrev streamed : FetchResult
streamed = responded (record {
  status = 200;
  content_type = none;
  body = read_text [];
  stream = some (record { reads = text "data: {}" ∷ []; failure = none });
})

abbrev stream_run : Result GateQueryResponse × World
stream_run =
    query_stream decode callback (env_of streamed) (client_of (pos 0)) (query_request none) []

stream_returns : stream_run.0 ≡ ok reply
unfolding query_stream text validate_query_request fetch
stream_returns = refl

query_stream-Delivered_example : Delivered reply stream_run.1
query_stream-Delivered_example =
    query_stream-Delivered decode callback (env_of streamed) (client_of (pos 0))
      (query_request none) [] reply stream_returns
