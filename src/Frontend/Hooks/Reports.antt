-- ===== src/Frontend/Hooks/Reports.antt =====
-- hooks/use-reports.ts: reports.
use trust_vault.Prelude.{List, [], ◌∷◌, ◌++◌, Text, text, truthy_text, ◌==◌, if◌then◌else◌}
use trust_vault.Sdk.Value.{Value, str, member}
use trust_vault.Frontend.Hooks.Shape.{
  Query, query, Mutation, mutation, name, word, fixed, param, error_or, or_empty, Toast, success,
}

-- `type.replace('_', ' ')`: the first underscore.
abbrev pub spaced : Text → Text
spaced [] = []
spaced (c ∷ s) = let rest = c ∷ spaced s in if c == b'_' then 32 ∷ s else rest

-- A report whose type is no text makes the source throw here; the model then shows nothing.
abbrev pub report_toast : Value → List Toast
report_toast report = elim (member "type" report) [
  | str t ↦ success (str (spaced t ++ text " report generated successfully")) ∷ []
  | _ ↦ []
]

abbrev pub use_reports : Query
use_reports = record (query (name "reports" ∷ []) (fixed "reports" ∷ [])) { read = or_empty }

abbrev pub use_report : Text → Query
use_report id = record (query (name "reports" ∷ word id ∷ []) (fixed "reports" ∷ param id ∷ [])) {
  enabled = truthy_text id;
}

abbrev pub use_generate_report : Value → Mutation
use_generate_report body = record (mutation "POST" (fixed "reports" ∷ []) body) {
  invalidates = (text "reports" ∷ []) ∷ [];
  on_success = report_toast;
  on_error = error_or "Failed to generate report";
}
