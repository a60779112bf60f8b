-- ===== src/Frontend/Hooks/Freshness.antt =====
-- After a mutation no query shows what the mutation has changed without being marked as stale.
pub mod Missed
use trust_vault.Prelude.{
  ◌≡◌, ◌⊎◌, inl, inr, refl, ap, sym, ◌∙◌, Bool, true, false, ◌&&◌, ◌||◌, Option, none, some, String,
  List, [], ◌∷◌, ◌++◌, Text, text, text_eq, text_eq_iff, arith, if◌then◌else◌, Bool-cases,
}
use mathlib.Core.Path.{subst}
use trust_vault.Sdk.Value.{Value}
use trust_vault.Frontend.Hooks.Shape.{
  KeyPart, word, number, object, missing, Key, Segment, fixed, param, ApiPath, Query, Mutation,
}
use trust_vault.Frontend.Hooks.Client.{matches, QueryClient, invalidate_all, App, settle, answered}
use trust_vault.Frontend.Hooks.Queries.{IsQuery, recommendations}
use trust_vault.Frontend.Hooks.Mutations.{IsMutation, run_compliance_assessment}

-- The collection of an item's path; any other path is its own.
abbrev pub collection : ApiPath → ApiPath
collection [] = []
collection (param t ∷ []) = []
collection (s ∷ path) = s ∷ collection path

-- What the paths of mutations are to the queries: read under a key that begins with the name, with
-- the name and the path's parameters, or not read at all.
data Rule : Type 0 where
  under exactly : String → Rule
  unread : Rule

abbrev params : ApiPath → List Text
params [] = []
params (fixed s ∷ path) = params path
params (param t ∷ path) = t ∷ params path

abbrev shape : ApiPath → Text
shape [] = []
shape (fixed s ∷ path) = text "/" ++ (text s ++ shape path)
shape (param t ∷ path) = text "/:" ++ shape path

abbrev key_by : Rule → List Text → Option (List Text)
key_by (under s) ts = some (text s ∷ [])
key_by (exactly s) ts = some (text s ∷ ts)
key_by unread ts = none

-- A path that is in no row has any key.
abbrev find_key : List (String × Rule) → Text → List Text → Option (List Text)
find_key [] t ts = some []
find_key ((s, rule) ∷ rows) t ts =
    let later = find_key rows t ts in if text_eq t (text s) then key_by rule ts else later

abbrev rows : List (String × Rule)
rows =
    ("/advisor/assess", unread)
    ∷ ("/advisor/defense-docket", unread)
    ∷ ("/rot/scan", unread)
    ∷ ("/rot/remediate", unread)
    ∷ ("/labels/assign", unread)
    ∷ ("/labels/rules", under "label-rules")
    ∷ ("/labels/rules/:", unread)
    ∷ ("/feedback/correction", unread)
    ∷ ("/feedback/confirmation", unread)
    ∷ ("/feedback/custom-entity", unread)
    ∷ ("/observability/alerts/rules", unread)
    ∷ ("/users", under "users")
    ∷ ("/users/:", unread)
    ∷ ("/auth/me", under "currentUser")
    ∷ ("/auth/api-keys", under "api-keys")
    ∷ ("/auth/api-keys/:", unread)
    ∷ ("/invitations", under "invitations")
    ∷ ("/invitations/:", unread)
    ∷ ("/invitations/:/resend", unread)
    ∷ ("/classify/text", unread)
    ∷ ("/classify/dataset", unread)
    ∷ ("/classify/rules", under "classification-rules")
    ∷ ("/classify/rules/:", unread)
    ∷ ("/classify/datasets/:/reclassify", unread)
    ∷ ("/documents/classify", unread)
    ∷ ("/ai-governance/check-eligibility", unread)
    ∷ ("/datasources", under "datasources")
    ∷ ("/datasources/:", under "datasources")
    ∷ ("/datasources/:/scan", unread)
    ∷ ("/gate/query", unread)
    ∷ ("/gate/retrieve", unread)
    ∷ ("/gate/validate", unread)
    ∷ ("/jobs", under "jobs")
    ∷ ("/jobs/:", under "jobs")
    ∷ ("/jobs/:/run-now", unread)
    ∷ ("/integrations", under "integrations")
    ∷ ("/integrations/:", under "integrations")
    ∷ ("/integrations/:/test", unread)
    ∷ ("/integrations/:/sync", unread)
    ∷ ("/notifications/:/read", unread)
    ∷ ("/notifications/read-all", unread)
    ∷ ("/notifications/:", unread)
    ∷ ("/notifications", under "notifications")
    ∷ ("/notifications/webhooks", under "webhooks")
    ∷ ("/notifications/webhooks/:", unread)
    ∷ ("/governance/policies", under "policies")
    ∷ ("/governance/policies/:", under "policies")
    ∷ ("/governance/evaluate", unread)
    ∷ ("/privacy/dsar", under "dsars")
    ∷ ("/privacy/dsar/:", under "dsars")
    ∷ ("/privacy/pia", unread)
    ∷ ("/privacy/ropa", under "ropa")
    ∷ ("/privacy/consent", unread)
    ∷ ("/privacy/consent/:", unread)
    ∷ ("/privacy/retention/policies", unread)
    ∷ ("/privacy/dpia", under "dpias")
    ∷ ("/privacy/dpia/:/step/:", unread)
    ∷ ("/privacy/dpia/:/step", unread)
    ∷ ("/privacy/dpia/:/status", unread)
    ∷ ("/privacy/consent/record", unread)
    ∷ ("/privacy/consent/withdraw/:", unread)
    ∷ ("/privacy/consent/withdraw", unread)
    ∷ ("/quality/assess", unread)
    ∷ ("/quality/thresholds", unread)
    ∷ ("/quality/profile/:", exactly "data-profile")
    ∷ ("/quality/profile", unread)
    ∷ ("/cde", under "cdes")
    ∷ ("/cde/:", unread)
    ∷ ("/remediation/actions/:/execute", unread)
    ∷ ("/remediation/actions", under "remediation-actions")
    ∷ ("/reports", under "reports")
    ∷ []

root : ApiPath → Option (List Text)
unfolding text
root path = find_key rows (shape path) (params path)

-- The key of every query begins with the root of its path.
abbrev Rooted : Query → Type 0
Rooted q = (p : List Text) × (root q.path ≡ some p) × (matches p q.key ≡ true)

query-Rooted : {q : Query} → IsQuery q → Rooted q
unfolding root text
query-Rooted recommendations = (_, refl, refl)
query-Rooted (IsQuery.data_profile id) = (_, refl, ground (arith, text_eq_iff id id))
query-Rooted _ = (_, refl, refl)

abbrev prefix : List Text → List Text → Bool
prefix [] ts = true
prefix (t ∷ ts) [] = false
prefix (t ∷ ts) (u ∷ us) = text_eq t u && prefix ts us

abbrev any : {A : Type 0} → (A → Bool) → List A → Bool
any p [] = false
any p (x ∷ xs) = p x || any p xs

-- A path that some query reads has a root that an invalidated key begins.
abbrev IsCovered : List (List Text) → Option (List Text) → Type 0
IsCovered keys none = Unit
IsCovered keys (some p) = any (λ i. prefix i p) keys ≡ true

mutation-IsCovered :
    {m : Mutation}
    → IsMutation m
    → IsCovered m.invalidates (root m.path) × IsCovered m.invalidates (root (collection m.path))
unfolding root text
mutation-IsCovered run_compliance_assessment = (tt, tt)
mutation-IsCovered (IsMutation.auto_profile id) = (ground (arith, text_eq_iff id id), tt)
mutation-IsCovered _ = ground arith

prefix-matches :
    (i p : List Text) (key : Key) → prefix i p ≡ true → matches p key ≡ true → matches i key ≡ true
prefix-matches [] p key h k = refl
prefix-matches (t ∷ i) [] key h k = cc
prefix-matches (t ∷ i) (u ∷ p) [] h k = cc
prefix-matches (t ∷ i) (u ∷ p) (word v ∷ key) h k =
    ground (arith, text_eq_iff t u, text_eq_iff u v, text_eq_iff t v, prefix-matches i p key)
prefix-matches (t ∷ i) (u ∷ p) (number n ∷ key) h k = cc
prefix-matches (t ∷ i) (u ∷ p) (object fs ∷ key) h k = cc
prefix-matches (t ∷ i) (u ∷ p) (missing ∷ key) h k = cc

any-matches :
    (keys : List (List Text)) (p : List Text) (key : Key)
    → any (λ i. prefix i p) keys ≡ true
    → matches p key ≡ true
    → any (λ i. matches i key) keys ≡ true
any-matches [] p key h k = cc
any-matches (i ∷ keys) p key h k = elim (Bool-cases (prefix i p)) [
  | inl e ↦ rw (prefix-matches i p key e k) refl
  | inr e ↦ ground (arith, any-matches keys p key (rw e at h) k)
]

module _ (client : QueryClient) where
  open client use {State, is_stale, is_stale-invalidate}

  is_stale-invalidate_all :
      (keys : List (List Text)) (key : Key) (state : State)
      → is_stale key (invalidate_all client keys state)
        ≡ (any (λ i. matches i key) keys || is_stale key state)
  is_stale-invalidate_all [] key state = refl
  is_stale-invalidate_all (i ∷ keys) key state = ground (
    arith,
    is_stale-invalidate_all keys key (client.invalidate i state),
    is_stale-invalidate i key state,
  )

  covered_is_stale :
      (keys : List (List Text)) (q : Query) (t : ApiPath) (state : State)
      → IsQuery q
      → q.path ≡ t
      → IsCovered keys (root t)
      → is_stale q.key (invalidate_all client keys state) ≡ true
  covered_is_stale keys q t state hq same covered =
      let (p, rooted, begins) = query-Rooted hq in
      let hit : IsCovered keys (some p) =
        subst (IsCovered keys) (ap root (sym same) ∙ rooted) covered in
      rw (is_stale-invalidate_all keys q.key state, any-matches keys p q.key hit begins) refl

  -- When a mutation hook has succeeded, every query hook is stale that reads the path the mutation
  -- was sent to, or the collection of that path's item.
  pub settle-stales :
      {m : Mutation} {q : Query} (v : Value) (app : App client)
      → IsMutation m
      → IsQuery q
      → (q.path ≡ m.path) ⊎ (q.path ≡ collection m.path)
      → is_stale q.key (settle client m (answered v) app).queries ≡ true
  unfolding settle
  settle-stales {m} {q} v app hm hq (inl same) =
      covered_is_stale m.invalidates q m.path app.queries hq same (mutation-IsCovered hm).0
  settle-stales {m} {q} v app hm hq (inr same) =
      covered_is_stale m.invalidates q (collection m.path) app.queries hq same
        (mutation-IsCovered hm).1
