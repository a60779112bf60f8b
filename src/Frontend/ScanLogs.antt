-- ===== src/Frontend/ScanLogs.antt =====
-- app/(app)/data-sources/[id]/page.tsx: the log of a scan, `ScanLogsCard`. The clock is a function of
-- the lines that are there when it is read, and the decoding of an event's text is a parameter.
pub mod Events
pub mod Merging
pub mod Connection
use trust_vault.Prelude.{
  ℕ, Bool, true, false, not, ◌&&◌, ◌||◌, ◌==◌, leb, Option, none, some, List, [], ◌∷◌, ◌++◌, filter,
  Text, text, text_eq, truthy_text, includes, if◌then◌else◌,
}
use trust_vault.Sdk.Value.{
  Value, undefined, str, arr, Items, nil, cons, num, member, truthy, to_string,
}
use trust_vault.Frontend.Session.{or_else}

abbrev pub Clock : Type 0
Clock = List Text → Text

pub data Tab : Type 0 where
  current history : Tab

-- `is_open` is whether `eventSourceRef` holds an event source. The last two are the values that the
-- effects have seen last.
pub record ScanLogs : Type 0 where
  pub logs : List Text
  pub is_connected : Bool
  pub is_expanded : Bool
  pub active_tab : Tab
  pub is_open : Bool
  pub is_scanning : Bool
  pub status : Text

-- What the service has stored; an entry may be null.
pub record ScanLogEntry : Type 0 where
  pub time : Option Text
  pub message : Option Text

pub record ScanLog : Type 0 where
  pub logs : Option (List (Option ScanLogEntry))

-- `[${time}] ${message}`
abbrev pub stamped : Text → Text → Text
stamped time message = text "[" ++ (time ++ (text "] " ++ message))

abbrev pub time_or : Option Text → Text → Text
time_or none now = now
time_or (some t) now = if truthy_text t then t else now

-- The lines of the entries that have a message.
abbrev line_onto : Text → Option ScanLogEntry → List Text → List Text
line_onto now none lines = lines
line_onto now (some e) lines = elim e.message [
  | none ↦ lines
  | some m ↦ if truthy_text m then stamped (time_or e.time now) m ∷ lines else lines
]

unfoldable pub stored_lines : Text → List (Option ScanLogEntry) → List Text
stored_lines now [] = []
stored_lines now (e ∷ entries) = line_onto now e (stored_lines now entries)

abbrev pub has_text : Text → List Text → Bool
has_text t [] = false
has_text t (u ∷ us) = text_eq u t || has_text t us

-- The stored lines, and behind them the live ones that are not stored.
abbrev merged : List Text → List Text → List Text
merged [] prev = prev
merged (s ∷ stored) prev = (s ∷ stored) ++ filter (λ l. not (has_text l (s ∷ stored))) prev

-- `loadStoredLogs`, on the lines; the latest scan is the first.
unfoldable pub load_stored_logs : Text → Option (List ScanLog) → List Text → List Text
unfolding stored_lines
load_stored_logs now none prev = prev
load_stored_logs now (some []) prev = prev
load_stored_logs now (some (latest ∷ scans)) prev = elim latest.logs [
  | none ↦ prev
  | some entries ↦ merged (stored_lines now entries) prev
]

abbrev pub append_line : Clock → Text → List Text → List Text
append_line clock message logs = logs ++ (stamped (clock logs) message ∷ [])

abbrev has_started : List Text → Bool
has_started [] = false
has_started (l ∷ logs) = includes (text "Scan started...") l || has_started logs

-- The first half of the effect that connects; `opens` is whether `new EventSource` does not throw.
abbrev connect : Clock → Bool → ScanLogs → ScanLogs
connect clock opens card = record card {
  logs =
      if has_started card.logs
      then card.logs
      else append_line clock (text "Scan started...") card.logs;
  is_open = opens;
}

-- The second half, where scanning has stopped.
abbrev final_line : Clock → Text → List Text → List Text
final_line clock status logs =
    if text_eq status (text "active") || text_eq status (text "connected")
    then append_line clock (10003 ∷ text " Scan completed successfully") logs
    else if text_eq status (text "error")
    then append_line clock (10007 ∷ text " Scan failed - check logs for details") logs
    else logs

abbrev disconnect : Clock → ScanLogs → ScanLogs
disconnect clock card = record card {
  logs = final_line clock card.status card.logs;
  is_connected = false;
  is_open = false;
}

abbrev connect_effect : Clock → Bool → ScanLogs → ScanLogs
connect_effect clock opens card =
    if card.is_scanning && not card.is_open then connect clock opens card else card

abbrev disconnect_effect : Clock → ScanLogs → ScanLogs
disconnect_effect clock card =
    if not card.is_scanning && card.is_open then disconnect clock card else card

-- What the effect returns: React runs it before the effect runs anew, and when the card goes.
unfoldable pub cleanup : ScanLogs → ScanLogs
cleanup card = record card { is_open = false }

-- The effect of `[isScanning]`, where it runs.
abbrev expand_effect : Bool → ScanLogs → ScanLogs
expand_effect runs card = record card {
  is_expanded = if runs && card.is_scanning then true else card.is_expanded;
  active_tab = if runs && card.is_scanning then Tab.current else card.active_tab;
}

abbrev pub same_bool : Bool → Bool → Bool
same_bool true b = b
same_bool false b = not b

abbrev with_props : Bool → Text → ScanLogs → ScanLogs
with_props is_scanning status card = record card { is_scanning = is_scanning; status = status }

-- The effects of a render in the order in which the card declares them, each only if one of its
-- dependencies has changed.
unfoldable pub render : Clock → Bool → Bool → Text → ScanLogs → ScanLogs
unfolding cleanup
render clock opens is_scanning status card =
    let expanded =
      expand_effect (not (same_bool is_scanning card.is_scanning))
        (with_props is_scanning status card) in
    let effects = disconnect_effect clock (connect_effect clock opens (cleanup expanded)) in
    if same_bool is_scanning card.is_scanning && text_eq status card.status
    then expanded
    else effects

-- The card as it is mounted: all effects run, and no cleanup before them.
unfoldable pub mount : Clock → Bool → Bool → Text → ScanLogs
mount clock opens is_scanning status = disconnect_effect clock (
    connect_effect clock opens (
      expand_effect true (record {
        logs = [];
        is_connected = false;
        is_expanded = false;
        active_tab = Tab.current;
        is_open = false;
        is_scanning = is_scanning;
        status = status;
      })))
