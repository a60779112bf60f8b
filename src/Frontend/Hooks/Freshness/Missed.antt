-- ===== src/Frontend/Hooks/Freshness/Missed.antt =====
-- Invalidations that reach no query.
use trust_vault.Prelude.{◌≡◌, refl, false, [], ◌∷◌, text, Text, Option, ◌||◌}
use trust_vault.Sdk.Value.{Value}
use trust_vault.Frontend.Hooks.Shape.{Query}
use trust_vault.Frontend.Hooks.Client.{matches, QueryClient, App, settle, answered}
use trust_vault.Frontend.Hooks.Classification.{use_classify_dataset, use_classify_document}
use trust_vault.Frontend.Hooks.Queries.{IsQuery, recommendations}

not_classifications : {q : Query} → IsQuery q → matches (text "classifications" ∷ []) q.key ≡ false
unfolding text
not_classifications recommendations = refl
not_classifications _ = refl

not_review_queue : {q : Query} → IsQuery q → matches (text "review-queue" ∷ []) q.key ≡ false
unfolding text
not_review_queue recommendations = refl
not_review_queue _ = refl

-- A dataset's classification that has succeeded marks no query as stale; and that of a document marks
-- those as stale whose key begins with 'doc-classifications' and the document's id, and no other.
pub settle-use_classify_dataset :
    (client : QueryClient) {q : Query} (body v : Value) (id : Text) (title : Option Text)
    (content : Text) (app : App client)
    → IsQuery q
    → let classify = use_classify_document id title content in
      (client.is_stale q.key (settle client (use_classify_dataset body) (answered v) app).queries
        ≡ client.is_stale q.key app.queries)
      × (client.is_stale q.key (settle client classify (answered v) app).queries ≡ (
          matches (text "doc-classifications" ∷ id ∷ []) q.key
          || client.is_stale q.key app.queries))
unfolding settle
settle-use_classify_dataset client {q} body v id title content app hq =
    let of_document = text "doc-classifications" ∷ id ∷ [] in
    (
      rw
          (
            client.is_stale-invalidate (text "classifications" ∷ []) q.key app.queries,
            not_classifications hq,
          )
          refl,
      rw
          (
            client.is_stale-invalidate (text "review-queue" ∷ []) q.key
                (client.invalidate of_document app.queries),
            not_review_queue hq,
            client.is_stale-invalidate of_document q.key app.queries,
          )
          refl,
    )
