-- ===== src/Frontend/ScanLogs/Events.antt =====
-- app/(app)/data-sources/[id]/page.tsx: the events that reach the log of a scan.
use trust_vault.Prelude.{
  Bool, true, false, not, ◌&&◌, ◌||◌, Option, none, some, List, [], ◌∷◌, ◌++◌, Text, text, text_eq,
  is_space, if◌then◌else◌,
}
use trust_vault.Sdk.Value.{Value, str, arr, Items, nil, cons, num, member, truthy, to_string}
use trust_vault.Frontend.Session.{or_else}
use trust_vault.Frontend.ScanLogs.{
  Clock, ScanLogs, ScanLog, append_line, load_stored_logs, render, cleanup,
}

-- `text.trim()` is empty.
abbrev is_blank : Text → Bool
is_blank [] = true
is_blank (c ∷ s) = is_space c && is_blank s

-- `v === text`
abbrev pub is_text : Text → Value → Bool
is_text t (str s) = text_eq s t
is_text t v = false

-- The logs, and whether the handler goes on: a line that is truthy but no text has no `trim`.
abbrev add_line : Clock → Value → List Text → List Text × Bool
add_line clock (str t) logs = (if is_blank t then logs else append_line clock t logs, true)
add_line clock v logs = (logs, not (truthy v))

add_lines : Clock → Items → List Text × Bool → List Text × Bool
add_lines clock items (logs, false) = (logs, false)
add_lines clock nil (logs, true) = (logs, true)
add_lines clock (cons v items) (logs, true) = add_lines clock items (add_line clock v logs)

abbrev add_log_lines : Clock → Value → List Text → List Text × Bool
add_log_lines clock (arr items) logs = add_lines clock items (logs, true)
add_log_lines clock v logs = (logs, true)

abbrev add_message : Clock → Value → List Text → List Text
add_message clock (str t) logs = if is_blank t then logs else append_line clock t logs
add_message clock v logs = logs

-- `${data.columns || data.datasets_discovered || 0}` and the lines of the final states.
abbrev add_status : Clock → Value → List Text → List Text
add_status clock v logs =
    let count = or_else (member "columns" v) (or_else (member "datasets_discovered" v) (num 0)) in
    let reason = or_else (member "message" v) (str (text "Unknown error")) in
    if is_text (text "completed") (member "status" v)
    then append_line clock
        (10003 ∷ text " Scan completed - " ++ (to_string count ++ text " columns classified")) logs
    else if is_text (text "failed") (member "status" v)
    then append_line clock (10007 ∷ text " Scan failed: " ++ to_string reason) logs
    else logs

abbrev add_rest : Clock → Value → List Text × Bool → List Text
add_rest clock v (logs, false) = logs
add_rest clock v (logs, true) = add_status clock v (add_message clock (member "message" v) logs)

-- `handleScanEvent`; `none` is an event whose text is no JSON.
unfoldable pub handle_scan_event : Clock → Text → Option Value → List Text → List Text
unfolding add_lines
handle_scan_event clock id none logs = logs
handle_scan_event clock id (some v) logs =
    if is_text id (member "datasource_id" v) || is_text id (member "dataset_id" v)
    then add_rest clock v (add_log_lines clock (member "log_lines" v) logs)
    else logs

-- What happens to the card: a render, an event of its event source, a history that has arrived, and
-- its end.
pub data Action : Type 0 where
  rendered : Clock → (opens is_scanning : Bool) → (status : Text) → Action
  opened failed : Action
  received : Clock → Option Value → Action
  loaded : (now : Text) → Option (List ScanLog) → Action
  unmounted : Action

-- An event source that is closed has no events.
unfoldable pub perform : Text → Action → ScanLogs → ScanLogs
unfolding render handle_scan_event load_stored_logs cleanup
perform id (Action.rendered clock opens is_scanning status) card =
    render clock opens is_scanning status card
perform id Action.opened card = if card.is_open then record card { is_connected = true } else card
perform id Action.failed card = if card.is_open then record card { is_connected = false } else card
perform id (Action.received clock event) card =
    if card.is_open then record card { logs = handle_scan_event clock id event card.logs } else card
perform id (Action.loaded now scans) card = record card {
  logs = load_stored_logs now scans card.logs;
}
perform id Action.unmounted card = cleanup card

unfoldable pub run : Text → List Action → ScanLogs → ScanLogs
run id [] card = card
run id (a ∷ actions) card = run id actions (perform id a card)
