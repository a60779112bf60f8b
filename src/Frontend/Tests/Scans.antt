-- ===== src/Frontend/Tests/Scans.antt =====
-- Tests of the page of a data source.
use trust_vault.Prelude.{
  ◌≡◌, refl, Bool, true, false, ◌||◌, none, some, Option, List, [], ◌∷◌, Text, text, text_eq, All,
}
use trust_vault.Sdk.Value.{Value, str, field, end}
use trust_vault.Frontend.ScanLogs.{Clock, ScanLogs, ScanLog, render, mount}
use trust_vault.Frontend.ScanLogs.Events.{Action, run}
use trust_vault.Frontend.ScanLogs.Connection.{IsTidy, run-mount}
use trust_vault.Frontend.ScanPage.{
  ScanPage, scanning, is_scanning, mount as mount_page, begin_scan, end_scan,
}
use trust_vault.Frontend.ScanPage.Progress.{
  observe_all, last_of, all_same, IsLoaded, ends, end_scan_shows, observe_all_toasts,
}

abbrev noon : Clock
noon logs = text "12:00:00"

-- The event source opens, and a message for another data source and one for this one arrive.
abbrev actions : List Action
actions =
    Action.opened
    ∷ Action.received noon (some (Value.obj (field "datasource_id" (str (text "8")) end)))
    ∷ Action.received noon (
        some (
          Value.obj
            (field "datasource_id" (str (text "7")) (field "message" (str (text "3 tables")) end))))
    ∷ []

abbrev card : ScanLogs
card = run (text "7") actions (mount noon true true scanning)

run-mount_example :
    IsTidy card
    × ((later : Clock) (again : Bool) (end : Text)
        → let after = render later again false end card in
          (after.logs ≡ card.logs) × (after.is_connected ≡ card.is_connected))
run-mount_example = run-mount (text "7") noon true true scanning actions

abbrev stored : Option (List ScanLog)
stored = some (
    record {
      logs = some (
          some (record { time = some (text "11:59:00"); message = some (text "3 tables") })
          ∷ none
          ∷ []);
    }
    ∷ [])

abbrev live_lines : List Text
live_lines = text "[12:00:00] Scan started..." ∷ text "[11:59:00] 3 tables" ∷ []

abbrev connected : Text
connected = text "connected"

abbrev page : ScanPage
page = mount_page connected

is_connected : text_eq connected scanning ≡ false
unfolding text
is_connected = refl

loaded : All IsLoaded (connected ∷ connected ∷ [])
unfolding text
loaded = (refl, (refl, tt))

-- The scan ends before its status is read.
end_scan_shows_example :
    is_scanning (observe_all (connected ∷ connected ∷ []) (end_scan true (begin_scan page))) ≡ (
      all_same page.status (connected ∷ connected ∷ [])
      || text_eq (last_of page.status (connected ∷ connected ∷ [])) scanning)
unfolding mount_page
end_scan_shows_example = end_scan_shows page (connected ∷ connected ∷ []) is_connected loaded

observe_all_toasts_example :
    (observe_all (scanning ∷ scanning ∷ connected ∷ []) page).toasts
    ≡ ends page.status (scanning ∷ scanning ∷ connected ∷ []) page.toasts
unfolding mount_page
observe_all_toasts_example = observe_all_toasts (scanning ∷ scanning ∷ connected ∷ []) page refl
