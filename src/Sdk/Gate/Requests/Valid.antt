-- ===== src/Sdk/Gate/Requests/Valid.antt =====
-- Which requests are accepted.
use trust_vault.Prelude.{
  ◌≤◌, ◌≡◌, ◌≢◌, ◌↔◌, Option, none, some, List, [], Text, length, arith, ◌*◌, ◌^◌,
}
use trust_vault.Sdk.Value.{Fields}
use trust_vault.Sdk.Types.{
  GateQueryRequest, GateEmbedRequest, JsNumber, amount, minus, infinite, not_a_number,
}
use trust_vault.Sdk.Effect.{ok}
use trust_vault.Sdk.Gate.Requests.{validate_query_request, validate_embed_request}

-- `topK` is left out, lies between 1 and 100, or is NaN.
abbrev pub TopKInRange : Option JsNumber → Type 0
TopKInRange none = Unit
TopKInRange (some (amount d)) = (10 ^ d.places ≤ d.units) × (d.units ≤ 100 * 10 ^ d.places)
TopKInRange (some (minus d)) = ⊥
TopKInRange (some (infinite positive)) = ⊥
TopKInRange (some not_a_number) = Unit

-- A query request is accepted exactly if its query is not empty and its topK, if it has one, lies
-- between 1 and 100 or is NaN.
pub validate_query_request_iff :
    (r : GateQueryRequest)
    → (validate_query_request r ≡ ok tt) ↔ ((r.query ≢ []) × TopKInRange r.top_k)
unfolding validate_query_request
validate_query_request_iff r = ground arith

-- Metadata is left out or has one entry for each document.
abbrev pub MetadataFits : Option (List Fields) → List Text → Type 0
MetadataFits none documents = Unit
MetadataFits (some metadata) documents = length metadata ≡ length documents

-- An embed request is accepted exactly if it has a document, names a vector database, and gives
-- either no metadata or one entry for each document.
pub validate_embed_request_iff :
    (r : GateEmbedRequest)
    → (validate_embed_request r ≡ ok tt)
      ↔ ((r.documents ≢ []) × (r.vector_db ≢ none) × MetadataFits r.metadata r.documents)
unfolding validate_embed_request
validate_embed_request_iff r = ground arith
