-- ===== src/Sdk/Gate/Calls/Guarded.antt =====
-- The gate sends nothing for a request that it refuses.
use trust_vault.Prelude.{◌≡◌, ◌≢◌, refl, none, []}
use trust_vault.Sdk.Types.{GateQueryRequest, GateEmbedRequest}
use trust_vault.Sdk.Errors.{Thrown}
use trust_vault.Sdk.Effect.{Env, World, Result, throw, ok, Io, lift, ◌>>=◌}
use trust_vault.Sdk.Client.{SecureLensClient}
use trust_vault.Sdk.Gate.Requests.Valid.{
  TopKInRange, MetadataFits, validate_query_request_iff, validate_embed_request_iff,
}
use trust_vault.Sdk.Gate.Requests.{validate_query_request, validate_embed_request}
use trust_vault.Sdk.Gate.Calls.{Wire, query, embed, classify_batch}

-- A block that begins with a check has done nothing unless the check passed.
passed {ℓ} :
    {A : Type ℓ} (check : Result (Unit {0})) (rest : Unit {0} → Io A) (w : World)
    → ((lift check >>= rest) w).1 ≢ w
    → check ≡ ok tt
passed (ok u) rest w h = refl
passed (throw e) rest w h = absurd (h refl)

-- A query that changes the history at all has a non-empty query text and a topK, if it has one, from 1
-- to 100 or NaN.
pub query_sends_valid :
    (env : Env) (wire : Wire) (client : SecureLensClient) (r : GateQueryRequest) (w : World)
    → (query env wire client r w).1 ≢ w
    → (r.query ≢ []) × TopKInRange r.top_k
unfolding query
query_sends_valid env wire client r w h =
    (validate_query_request_iff r).0 (passed (validate_query_request r) _ w h)

-- An embed request that changes the history at all has documents, a vector database, and metadata
-- for each document or none.
embed_sends_valid :
    (env : Env) (wire : Wire) (client : SecureLensClient) (r : GateEmbedRequest) (w : World)
    → (embed env wire client r w).1 ≢ w
    → (r.documents ≢ []) × (r.vector_db ≢ none) × MetadataFits r.metadata r.documents
unfolding embed
embed_sends_valid env wire client r w h =
    (validate_embed_request_iff r).0 (passed (validate_embed_request r) _ w h)

-- An empty batch throws and sends nothing.
pub classify_batch_empty :
    (env : Env) (wire : Wire) (client : SecureLensClient) (w : World)
    → (e : Thrown) × (classify_batch env wire client [] w ≡ (throw e, w))
unfolding classify_batch
classify_batch_empty env wire client w = (_, refl)
