-- ===== src/Frontend/Tests/Hooks.antt =====
-- Tests of the data hooks, with a query client that keeps the keys it was told to invalidate.
use trust_vault.Prelude.{
  ◌≡◌, refl, inr, Bool, true, false, ◌||◌, List, [], ◌∷◌, ◌++◌, Text, text, none,
}
use trust_vault.Sdk.Value.{undefined}
use trust_vault.Frontend.Hooks.Shape.{Key, url}
use trust_vault.Frontend.Hooks.Client.{matches, QueryClient, App, settle, answered}
use trust_vault.Frontend.Hooks.Queries.{IsQuery}
use trust_vault.Frontend.Hooks.Mutations.{IsMutation}
use trust_vault.Frontend.Hooks.Datamap.{use_data_map}
use trust_vault.Frontend.Hooks.Classification.{use_classify_dataset, use_classify_document}
use trust_vault.Frontend.Hooks.Jobs.{use_jobs, use_delete_job}
use trust_vault.Frontend.Hooks.Reports.{use_reports}
use trust_vault.Frontend.Hooks.Datamap.{use_reports as use_map_reports}
use trust_vault.Frontend.Hooks.Keys.{key_determines_request}
use trust_vault.Frontend.Hooks.Freshness.{settle-stales}
use trust_vault.Frontend.Hooks.Freshness.Missed.{settle-use_classify_dataset}
use trust_vault.Frontend.Tests.{session}

abbrev any_matches_key : List (List Text) → Key → Bool
any_matches_key [] key = false
any_matches_key (p ∷ ps) key = matches p key || any_matches_key ps key

abbrev client : QueryClient
client = record {
  State = List (List Text);
  is_stale = λ key state. any_matches_key state key;
  invalidate = λ p state. p ∷ state;
  is_stale-invalidate = λ p key state. refl;
}

abbrev app : App client
app = record { session = session; queries = []; toasts = [] }

key_determines_request_example :
    (url use_reports.path ++ use_reports.search
      ≡ url use_map_reports.path ++ use_map_reports.search)
    × (use_reports.config ≡ use_map_reports.config)
key_determines_request_example =
    key_determines_request {q = use_reports} {r = use_map_reports} IsQuery.reports
      IsQuery.datamap_reports refl

-- The list of jobs after a job is deleted.
settle-stales_example :
    client.is_stale use_jobs.key
      (settle client (use_delete_job (text "7")) (answered undefined) app).queries
    ≡ true
settle-stales_example =
    settle-stales client {m = use_delete_job (text "7")} {q = use_jobs} undefined app
      (IsMutation.delete_job (text "7")) IsQuery.jobs (inr refl)

settle-use_classify_dataset_example :
    let classify = use_classify_document (text "d1") none (text "hi") in
    (client.is_stale use_data_map.key
        (settle client (use_classify_dataset undefined) (answered undefined) app).queries
      ≡ client.is_stale use_data_map.key app.queries)
    × (client.is_stale use_data_map.key (settle client classify (answered undefined) app).queries
        ≡ (matches (text "doc-classifications" ∷ text "d1" ∷ []) use_data_map.key
            || client.is_stale use_data_map.key app.queries))
settle-use_classify_dataset_example =
    settle-use_classify_dataset client {q = use_data_map} undefined undefined (text "d1") none
      (text "hi") app IsQuery.data_map
