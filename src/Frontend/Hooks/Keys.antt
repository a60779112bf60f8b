-- ===== src/Frontend/Hooks/Keys.antt =====
-- The request of a query follows from its key: the cache can mix no two requests up.
use trust_vault.Prelude.{
  ◌≡◌, refl, ap, sym, ◌∙◌, Option, none, some, String, List, [], ◌∷◌, ◌++◌, Text, text, text_eq,
  decimal, if◌then◌else◌,
}
use trust_vault.Sdk.Value.{Value, undefined, obj, opt, field, end, Fields}
use trust_vault.Sdk.Gate.Audit.{to_query}
use trust_vault.Frontend.Hooks.Shape.{
  KeyPart, word, number, object, missing, Key, fixed, param, ApiPath, url, Query,
}
use trust_vault.Frontend.Hooks.Privacy.{consent_params}
use trust_vault.Frontend.Hooks.Datamap.{use_case_search}
use trust_vault.Frontend.Hooks.Queries.{IsQuery, recommendations}

-- What a query sends.
abbrev pub Sent : Type 0
Sent = ApiPath × Text × Value

abbrev plain : ApiPath → Option Sent
plain path = some (path, [], undefined)

-- The rests of a key that stand for a request, by the key's first part.
abbrev static : ApiPath → Key → Option Sent
static path [] = plain path
static path (k ∷ ks) = none

abbrev by_id : ApiPath → ApiPath → Key → Option Sent
by_id before after (word t ∷ []) = plain (before ++ (param t ∷ after))
by_id before after _ = none

abbrev below : ApiPath → Text → List String → Option Sent
below path sub [] = none
below path sub (s ∷ ss) =
    let rest = below path sub ss in
    if text_eq sub (text s) then plain (path ++ (fixed s ∷ [])) else rest

-- A collection, an item of it, and what is below an item.
abbrev family : ApiPath → List String → Key → Option Sent
family path subs [] = plain path
family path subs (word t ∷ []) = plain (path ++ (param t ∷ []))
family path subs (word t ∷ word sub ∷ []) = below (path ++ (param t ∷ [])) sub subs
family path subs _ = none

abbrev with_params : Option Fields → Option Sent
with_params params =
    some (fixed "audit" ∷ fixed "trail" ∷ [], [], obj (field "params" (opt obj params) end))

abbrev logged : Key → Option Sent
logged (missing ∷ []) = with_params none
logged (object fields ∷ []) = with_params (some fields)
logged _ = none

abbrev gate_log : Key → Option Sent
gate_log (number n ∷ []) =
    some (fixed "gate" ∷ fixed "queries" ∷ [], text "?limit=" ++ decimal n, undefined)
gate_log _ = none

abbrev text_of : KeyPart → Option Text
text_of (word t) = some t
text_of _ = none

abbrev eligibility : Key → Option Sent
eligibility (word id ∷ k ∷ []) = some (
  fixed "ai-governance" ∷ fixed "eligible" ∷ param id ∷ [],
  use_case_search (text_of k),
  undefined,
)
eligibility _ = none

abbrev consents : Key → Option Sent
consents (p ∷ s ∷ []) = some (
  fixed "privacy" ∷ fixed "consent" ∷ fixed "records" ∷ [],
  text "?" ++ to_query (consent_params (text_of p) (text_of s)),
  undefined,
)
consents _ = none

abbrev find : List (String × (Key → Option Sent)) → Text → Key → Option Sent
find [] head rest = none
find ((s, f) ∷ table) head rest =
    let later = find table head rest in if text_eq head (text s) then f rest else later

abbrev requests : List (String × (Key → Option Sent))
requests =
    ("recommendations", static (fixed "advisor" ∷ fixed "recommendations" ∷ []))
    ∷ ("compliance-gaps", static (fixed "advisor" ∷ fixed "gaps" ∷ []))
    ∷ ("assessment-logs", static (fixed "advisor" ∷ fixed "assessment" ∷ fixed "logs" ∷ []))
    ∷ ("playbook", by_id (fixed "advisor" ∷ fixed "playbook" ∷ []) ([]))
    ∷ ("risk-score", static (fixed "advisor" ∷ fixed "risk-score" ∷ []))
    ∷ ("rot-summary", static (fixed "rot" ∷ fixed "summary" ∷ []))
    ∷ ("rot-datasets", static (fixed "rot" ∷ fixed "datasets" ∷ []))
    ∷ ("rot-duplicates", static (fixed "rot" ∷ fixed "duplicates" ∷ []))
    ∷ ("labels", by_id (fixed "labels" ∷ fixed "datasets" ∷ []) ([]))
    ∷ ("label-rules", static (fixed "labels" ∷ fixed "rules" ∷ []))
    ∷ ("label-summary", static (fixed "labels" ∷ fixed "summary" ∷ []))
    ∷ ("feedback-stats", static (fixed "feedback" ∷ fixed "stats" ∷ []))
    ∷ ("knowledge-cache", static (fixed "feedback" ∷ fixed "knowledge-cache" ∷ []))
    ∷ ("corrections", static (fixed "feedback" ∷ fixed "corrections" ∷ []))
    ∷ ("correction-trend", static (fixed "feedback" ∷ fixed "trend" ∷ []))
    ∷ ("custom-entities", static (fixed "feedback" ∷ fixed "custom-entities" ∷ []))
    ∷ ("audit-trail", logged)
    ∷ ("ai-usage", by_id (fixed "audit" ∷ fixed "datasets" ∷ []) (fixed "ai-usage" ∷ []))
    ∷ ("compliance-report", static (fixed "audit" ∷ fixed "compliance-report" ∷ []))
    ∷ ("lineage", by_id (fixed "audit" ∷ fixed "lineage" ∷ []) ([]))
    ∷ ("system-health", static (fixed "observability" ∷ fixed "health" ∷ []))
    ∷ ("system-metrics", static (fixed "observability" ∷ fixed "metrics" ∷ []))
    ∷ ("alerts", static (fixed "observability" ∷ fixed "alerts" ∷ []))
    ∷ ("currentUser", static (fixed "auth" ∷ fixed "me" ∷ []))
    ∷ ("users", static (fixed "users" ∷ []))
    ∷ ("api-keys", static (fixed "auth" ∷ fixed "api-keys" ∷ []))
    ∷ ("invitations", static (fixed "invitations" ∷ []))
    ∷ ("classify-stats", static (fixed "classify" ∷ fixed "stats" ∷ []))
    ∷ ("classification-models", static (fixed "classify" ∷ fixed "models" ∷ []))
    ∷ ("classification-rules", static (fixed "classify" ∷ fixed "rules" ∷ []))
    ∷ ("classification", family (fixed "classify" ∷ fixed "datasets" ∷ []) ("columns" ∷ []))
    ∷ ("doc-classifications", by_id (fixed "documents" ∷ []) (fixed "classifications" ∷ []))
    ∷ ("datamap", static (fixed "datamap" ∷ []))
    ∷ ("datamap-sources", static (fixed "datamap" ∷ fixed "sources" ∷ []))
    ∷ ("datamap-flows", static (fixed "datamap" ∷ fixed "flows" ∷ []))
    ∷ ("datamap-coverage", static (fixed "datamap" ∷ fixed "coverage" ∷ []))
    ∷ ("datamap-geography", static (fixed "datamap" ∷ fixed "geography" ∷ []))
    ∷ ("dark-data", static (fixed "datamap" ∷ fixed "dark-data" ∷ []))
    ∷ ("shadow-it", static (fixed "datamap" ∷ fixed "shadow-it" ∷ []))
    ∷ ("ai-models", static (fixed "ai-governance" ∷ fixed "models" ∷ []))
    ∷ ("ai-gov-policies", static (fixed "ai-governance" ∷ fixed "policies" ∷ []))
    ∷ ("ai-eligibility", eligibility)
    ∷ ("eligible-datasets", static (fixed "ai-governance" ∷ fixed "datasets" ∷ []))
    ∷ ("model-lineage", by_id (fixed "ai-governance" ∷ fixed "lineage" ∷ []) ([]))
    ∷ ("reports", family (fixed "reports" ∷ []) ([]))
    ∷ ("analytics-summary", static (fixed "analytics" ∷ fixed "summary" ∷ []))
    ∷ ("analytics-trends", static (fixed "analytics" ∷ fixed "trends" ∷ []))
    ∷ ("documents", static (fixed "documents" ∷ fixed "review-queue" ∷ []))
    ∷ (
      "datasources",
      family (fixed "datasources" ∷ []) ("status" ∷ "logs" ∷ "classification-stats" ∷ []),
    )
    ∷ ("gate-stats", static (fixed "gate" ∷ fixed "stats" ∷ []))
    ∷ ("gate-queries", gate_log)
    ∷ ("jobs", family (fixed "jobs" ∷ []) ("history" ∷ []))
    ∷ ("integrations", family (fixed "integrations" ∷ []) ("logs" ∷ []))
    ∷ ("notifications", static (fixed "notifications" ∷ []))
    ∷ ("webhooks", static (fixed "notifications" ∷ fixed "webhooks" ∷ []))
    ∷ ("policies", family (fixed "governance" ∷ fixed "policies" ∷ []) ([]))
    ∷ ("governance-stats", static (fixed "governance" ∷ fixed "stats" ∷ []))
    ∷ ("dsars", family (fixed "privacy" ∷ fixed "dsar" ∷ []) ("package" ∷ []))
    ∷ ("pia", by_id (fixed "privacy" ∷ fixed "pia" ∷ []) ([]))
    ∷ ("ropa", static (fixed "privacy" ∷ fixed "ropa" ∷ []))
    ∷ (
      "retention-violations",
      static (fixed "privacy" ∷ fixed "retention" ∷ fixed "violations" ∷ []),
    )
    ∷ ("dpias", family (fixed "privacy" ∷ fixed "dpia" ∷ []) ([]))
    ∷ ("consent-records", consents)
    ∷ ("consent-stats", static (fixed "privacy" ∷ fixed "consent" ∷ fixed "stats" ∷ []))
    ∷ ("quality", by_id (fixed "quality" ∷ fixed "datasets" ∷ []) ([]))
    ∷ ("quality-trends", static (fixed "quality" ∷ fixed "summary" ∷ []))
    ∷ ("quality-dimensions", static (fixed "quality" ∷ fixed "summary" ∷ []))
    ∷ ("data-profile", by_id (fixed "quality" ∷ fixed "profile" ∷ []) ([]))
    ∷ ("cdes", static (fixed "cde" ∷ []))
    ∷ ("remediation-actions", static (fixed "remediation" ∷ fixed "actions" ∷ []))
    ∷ ("remediation-logs", by_id (fixed "remediation" ∷ fixed "actions" ∷ []) (fixed "logs" ∷ []))
    ∷ []

sent_for : Key → Option Sent
unfolding text
sent_for (word head ∷ rest) = find requests head rest
sent_for _ = none

abbrev pub sent_by : Query → Sent
sent_by q = (q.path, q.search, q.config)

sent_for-key : {q : Query} → IsQuery q → sent_for q.key ≡ some (sent_by q)
unfolding sent_for text
sent_for-key recommendations = refl
sent_for-key (IsQuery.ai_eligibility id none) = refl
sent_for-key (IsQuery.ai_eligibility id (some u)) = refl
sent_for-key (IsQuery.consent_records none none) = refl
sent_for-key (IsQuery.consent_records none (some s)) = refl
sent_for-key (IsQuery.consent_records (some p) none) = refl
sent_for-key (IsQuery.consent_records (some p) (some s)) = refl
sent_for-key (IsQuery.audit_trail none) = refl
sent_for-key (IsQuery.audit_trail (some p)) = refl
sent_for-key _ = refl

-- Two query hooks that share a key send the same request: the same path, the same search and the
-- same configuration.
pub key_determines_request :
    {q r : Query}
    → IsQuery q
    → IsQuery r
    → q.key ≡ r.key
    → (url q.path ++ q.search ≡ url r.path ++ r.search) × (q.config ≡ r.config)
key_determines_request {q} {r} hq hr e =
    let same : some (sent_by q) ≡ some (sent_by r) =
      sym (sent_for-key hq) ∙ ap sent_for e ∙ sent_for-key hr in
    (cc, cc)
