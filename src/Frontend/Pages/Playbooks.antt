-- ===== src/Frontend/Pages/Playbooks.antt =====
-- app/(app)/advisor/playbooks/page.tsx: the steps of a playbook and those that the user has completed.
-- The progress is the number of completed steps beside the number of all: its percentage is not modelled.
pub mod Progress
use trust_vault.Prelude.{
  ℕ, ◌==◌, Bool, true, false, not, ◌||◌, List, [], ◌∷◌, ◌++◌, Option, none, some, Text, text,
  filter, length, if◌then◌else◌,
}
use trust_vault.Sdk.Value.{
  Value, Items, undefined, null, str, arr, nil, cons, member, truthy, to_string,
}
use trust_vault.Frontend.Session.{or_else}

pub record PlaybookStep : Type 0 where
  pub title : Value
  pub description : Value

-- A step that is null has no title to read, and the page fails.
abbrev pub parse_step : Value → Option PlaybookStep
parse_step undefined = none
parse_step null = none
parse_step (str t) = some (record { title = str t; description = undefined })
parse_step v = some (record {
  title = or_else (member "title" v) (or_else (member "name" v) (str (to_string v)));
  description = or_else (member "description" v) (or_else (member "details" v) undefined);
})

abbrev onto : Option PlaybookStep → Option (List PlaybookStep) → Option (List PlaybookStep)
onto (some step) (some steps) = some (step ∷ steps)
onto _ _ = none

unfoldable pub parse_items : Items → Option (List PlaybookStep)
parse_items nil = some []
parse_items (cons v items) = onto (parse_step v) (parse_items items)

-- `parseSteps`
unfoldable pub parse_steps : Value → Option (List PlaybookStep)
parse_steps (arr items) = parse_items items
parse_steps _ = some []

-- `completedSteps` is a set, in the order in which its elements were added.
pub record PlaybooksPage : Type 0 where
  pub selected_issue : Option Text
  pub completed_steps : List ℕ

unfoldable pub handle_select_issue : Text → PlaybooksPage → PlaybooksPage
handle_select_issue issue page = record { selected_issue = some issue; completed_steps = [] }

abbrev pub has : ℕ → List ℕ → Bool
has i [] = false
has i (j ∷ js) = j == i || has i js

abbrev pub toggled : ℕ → List ℕ → List ℕ
toggled i steps = if has i steps then filter (λ j. not (j == i)) steps else steps ++ (i ∷ [])

unfoldable pub toggle_step : ℕ → PlaybooksPage → PlaybooksPage
toggle_step i page = record page { completed_steps = toggled i page.completed_steps }

abbrev pub completed_count : PlaybooksPage → ℕ
completed_count page = length page.completed_steps

-- The page says that the playbook is completed.
abbrev pub is_completed : ℕ → PlaybooksPage → Bool
is_completed total page = if total == 0 then false else completed_count page == total
