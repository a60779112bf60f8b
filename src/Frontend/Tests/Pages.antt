-- ===== src/Frontend/Tests/Pages.antt =====
-- Tests of the pages.
use trust_vault.Prelude.{
  ◌+◌, ◌==◌, ◌≡◌, refl, true, false, List, [], ◌∷◌, none, some, Text, text, length,
}
use trust_vault.Sdk.Value.{Value, str, obj, field, end}
use trust_vault.Frontend.ScanLogs.{Clock}
use trust_vault.Frontend.Pages.Residency.{
  Datasource, Violation, region_cards, active_regions, untagged_sources, auth_headers,
}
use trust_vault.Frontend.Pages.Residency.Cards.{
  card_of, in_region, extended, total, region_cards_partition,
}
use trust_vault.Frontend.Pages.ClassificationStatus.{
  StatusCard, JobStatus, Action, initial_card, run, step, classifying,
}
use trust_vault.Frontend.Pages.ClassificationStatus.Settled.{IsSettled, run-IsSettled}
use trust_vault.Frontend.Pages.ClassificationStatus.Ends.{step_fails, step_ends}

abbrev sources : List Datasource
sources =
    record { id = text "1"; name = text "a"; region = text "eu-west-1"; country = text "Ireland" }
    ∷ record { id = text "2"; name = text "b"; region = []; country = [] }
    ∷ record { id = text "3"; name = text "c"; region = text "eu-west-1"; country = [] }
    ∷ []

abbrev violations : List Violation
violations = record { datasource_region = text "eu-west-1"; region = [] } ∷ []

region_cards_partition_example :
    ((r : Text) → card_of r (region_cards sources) ≡ extended none (in_region r sources))
    × (total (active_regions violations sources) + length (untagged_sources sources)
        ≡ length sources)
region_cards_partition_example = region_cards_partition violations sources

auth_headers_tests :
    (auth_headers (text "theme=dark; accessToken=abc") ≡ text "Bearer abc")
    × (auth_headers (text "theme=dark") ≡ text "Bearer ")
unfolding auth_headers text
auth_headers_tests = (refl, refl)

abbrev clock : Clock
clock lines = text "12:00:00"

abbrev id : Text
id = text "7"

-- The classification is accepted, and the stream tells that it has failed.
abbrev running : List Action
running = Action.clicked ∷ Action.answered_by ∷ Action.opened ∷ []

abbrev failure : Value
failure = obj (
    field "dataset_id" (str (text "7"))
      (field "status" (str (text "failed")) (field "error" (str (text "no model")) end)))

abbrev card : StatusCard
card = run clock true id running initial_card

run-IsSettled_example : IsSettled true card
run-IsSettled_example = run-IsSettled clock true id running

step_fails_example :
    let after = step clock true id (Action.received (some failure)) card in
    (after.job_status ≡ JobStatus.failed)
    × (classifying after ≡ true)
    × (after.sse_active ≡ true)
    × (after.is_open ≡ true)
    × (after.timeout ≡ false)
unfolding run text initial_card
step_fails_example =
    step_fails clock true id card failure (run-IsSettled clock true id running) refl refl refl refl
      refl

step_ends_example :
    (card.timeout ≡ true
      → let after = step clock true id Action.timed_out card in
        (after.job_status ≡ JobStatus.completed)
        × (classifying after ≡ false)
        × (after.sse_active ≡ false)
        × (after.is_open ≡ false))
    × ((card.finishing == 0) ≡ false
        → let after = step clock true id Action.finished card in
          (after.job_status ≡ card.job_status)
          × (classifying after ≡ false)
          × (after.sse_active ≡ false)
          × (after.is_open ≡ false))
unfolding run initial_card
step_ends_example = step_ends clock true id card refl
