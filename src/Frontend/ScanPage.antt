-- ===== src/Frontend/ScanPage.antt =====
-- app/(app)/data-sources/[id]/page.tsx: whether the page shows a scan, and what it says of its end.
-- The empty text stands for the status of a data source that has not been loaded.
pub mod Progress
use trust_vault.Prelude.{
  Bool, true, false, not, ◌&&◌, ◌||◌, String, List, [], ◌∷◌, ◌++◌, Text, text, text_eq, truthy_text,
  if◌then◌else◌,
}
use trust_vault.Sdk.Value.{str}
use trust_vault.Frontend.Hooks.Shape.{Toast, success, error}

-- `status` is the one that the effects have seen last, `is_pending` is `triggerScan.isPending`; the
-- latest toast is the first.
pub record ScanPage : Type 0 where
  pub local_scanning : Bool
  pub is_pending : Bool
  pub prev_status : Text
  pub status : Text
  pub toasts : List Toast

abbrev pub scanning : Text
scanning = text "scanning"

abbrev pub is_scanning : ScanPage → Bool
is_scanning page = page.local_scanning || text_eq page.status scanning || page.is_pending

-- The toast of an end of a scan.
abbrev pub end_toasts : Text → List Toast
end_toasts status =
    if text_eq status (text "connected")
    then success (str (text "Scan completed successfully - connection verified")) ∷ []
    else if text_eq status (text "error")
    then error (str (text "Scan failed - check connection settings")) ∷ []
    else []

-- The two effects of `[dataSource?.status]`.
unfoldable pub status_effects : ScanPage → ScanPage
status_effects page = record page {
  local_scanning =
      if truthy_text page.status && not (text_eq page.status scanning)
      then false
      else page.local_scanning;
  prev_status = page.status;
  toasts =
      if text_eq page.prev_status scanning && not (text_eq page.status scanning)
      then end_toasts page.status ++ page.toasts
      else page.toasts;
}

-- A render with the status that the query holds.
unfoldable pub observe : Text → ScanPage → ScanPage
unfolding status_effects
observe status page =
    if text_eq page.status status then page else status_effects (record page { status = status })

unfoldable pub mount : Text → ScanPage
unfolding status_effects
mount status = status_effects (record {
  local_scanning = false;
  is_pending = false;
  prev_status = [];
  status = status;
  toasts = [];
})

-- `handleScan` up to its `await`, and from there, by whether the service has accepted the scan.
unfoldable pub begin_scan : ScanPage → ScanPage
begin_scan page = record page { local_scanning = true; is_pending = true }

unfoldable pub end_scan : Bool → ScanPage → ScanPage
end_scan true page = record page { is_pending = false }
end_scan false page = record page { is_pending = false; local_scanning = false }
