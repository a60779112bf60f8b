-- ===== src/Frontend/ScanLogs/Merging.antt =====
-- The stored and the live lines of a scan's log.
use trust_vault.Prelude.{
  ◌≡◌, true, not, Option, none, some, List, [], ◌∷◌, filter, Text, truthy_text, All,
}
use trust_vault.Frontend.ScanLogs.{ScanLog, ScanLogEntry, stored_lines, has_text}

abbrev live : List Text → List Text → List Text
live stored prev = filter (λ l. not (has_text l stored)) prev

-- The stored lines of a scan, and of a history.
abbrev lines_in : Text → Option (List (Option ScanLogEntry)) → List Text
lines_in now none = []
lines_in now (some entries) = stored_lines now entries

pub lines_of : Text → Option (List ScanLog) → List Text
lines_of now none = []
lines_of now (some []) = []
lines_of now (some (latest ∷ scans)) = lines_in now latest.logs

-- The service gives every entry its time.
abbrev pub IsTimed : Option ScanLogEntry → Type 0
IsTimed none = Unit
IsTimed (some e) = (t : Text) × (e.time ≡ some t) × (truthy_text t ≡ true)

abbrev pub AllTimed : Option (List (Option ScanLogEntry)) → Type 0
AllTimed none = Unit
AllTimed (some entries) = All IsTimed entries

abbrev pub AreTimed : Option (List ScanLog) → Type 0
AreTimed none = Unit
AreTimed (some []) = Unit
AreTimed (some (latest ∷ scans)) = AllTimed latest.logs
