-- ===== src/Frontend/Pages/Jobs.antt =====
-- app/(app)/jobs/page.tsx: the form of a job, the dialogs of the page, and what the table shows of a
-- job. `toFixed` is a parameter.
pub mod Form
use trust_vault.Prelude.{
  ℕ, ◌==◌, ltb, Bool, true, false, ◌||◌, String, List, [], ◌∷◌, ◌++◌, Option, none, some, Text,
  text, text_eq, truthy_text, decimal, if◌then◌else◌,
}
use trust_vault.Sdk.Value.{Value, str, obj, field, end}
use trust_vault.Frontend.Session.{or_else}

-- What the page reads of a job.
pub record Job : Type 0 where
  pub id : Text
  pub name : Text
  pub type : Text
  pub schedule : Text
  pub status : Text
  pub config : Value

pub record Choice : Type 0 where
  pub value : Text
  pub label : Text

unfoldable choice : String → String → Choice
unfolding text
choice value label = record { value = text value; label = text label }

unfoldable pub job_types : List Choice
unfolding choice
job_types =
    choice "scan" "Data Scan"
    ∷ choice "quality_assessment" "Quality Assessment"
    ∷ choice "rot_detection" "ROT Detection"
    ∷ choice "compliance_check" "Compliance Check"
    ∷ choice "classification" "Classification"
    ∷ choice "privacy_scan" "Privacy Scan"
    ∷ []

unfoldable pub schedule_presets : List Choice
unfolding choice
schedule_presets =
    choice "@hourly" "Every hour"
    ∷ choice "@daily" "Daily (midnight)"
    ∷ choice "@weekly" "Weekly (Sunday midnight)"
    ∷ choice "0 2 * * *" "Daily at 2 AM"
    ∷ choice "0 0 * * 1" "Weekly (Monday midnight)"
    ∷ choice "0 0 1 * *" "Monthly (1st of month)"
    ∷ []

-- `choices.some(p => p.value === value)`
abbrev pub offers : Text → List Choice → Bool
offers value [] = false
offers value (c ∷ choices) = text_eq c.value value || offers value choices

-- `choices.find(p => p.value === value)?.label || value`
abbrev pub label_or : Text → List Choice → Text
label_or value [] = value
label_or value (c ∷ choices) =
    if text_eq c.value value
    then (if truthy_text c.label then c.label else value)
    else label_or value choices

abbrev pub is_preset : Text → Bool
is_preset schedule = offers schedule schedule_presets

pub record JobForm : Type 0 where
  pub name : Text
  pub type : Text
  pub schedule : Text
  pub custom_schedule : Text
  pub config : Value

abbrev pub custom : Text
custom = text "custom"

abbrev pub empty_form : JobForm
empty_form = record {
  name = [];
  type = text "scan";
  schedule = text "@daily";
  custom_schedule = [];
  config = obj end;
}

-- The effect of `[job, isOpen]`.
unfoldable pub load_form : Option Job → JobForm
load_form none = empty_form
load_form (some job) = record {
  name = job.name;
  type = job.type;
  schedule = if is_preset job.schedule then job.schedule else custom;
  custom_schedule = if is_preset job.schedule then [] else job.schedule;
  config = or_else job.config (obj end);
}

-- The inputs of the form. The list of schedules gives a preset or 'custom', that of the types a type.
pub data Edit : Type 0 where
  named typed scheduled cron : Text → Edit

abbrev pub edit : Edit → JobForm → JobForm
edit (Edit.named t) form = record form { name = t }
edit (Edit.typed t) form = record form { type = t }
edit (Edit.scheduled t) form = record form { schedule = t }
edit (Edit.cron t) form = record form { custom_schedule = t }

abbrev pub chosen_schedule : JobForm → Text
chosen_schedule form = if text_eq form.schedule custom then form.custom_schedule else form.schedule

-- What `handleSubmit` sends: to the job that is edited, or as a new one.
pub data Sent : Type 0 where
  created : Value → Sent
  updated : Text → Value → Sent

abbrev pub job_body : Text → Text → Text → Value → Value
job_body name type schedule config = obj (
    field "name" (str name)
      (field "type" (str type) (field "schedule" (str schedule) (field "config" config end))))

unfoldable pub handle_submit : Option Job → JobForm → Sent
handle_submit none form =
    Sent.created (job_body form.name form.type (chosen_schedule form) form.config)
handle_submit (some job) form =
    Sent.updated job.id (job_body form.name form.type (chosen_schedule form) form.config)

-- The dialogs of the page.
pub record JobsPage : Type 0 where
  pub show_create_modal : Bool
  pub editing_job : Option Job
  pub deleting_job : Option Job
  pub history_job : Option Job
  pub form : JobForm

abbrev pub open_create : JobsPage → JobsPage
open_create page = record page { show_create_modal = true; form = load_form page.editing_job }

abbrev pub open_edit : Job → JobsPage → JobsPage
open_edit job page = record page { editing_job = some job; form = load_form (some job) }

-- `onClose` of the form; the form is loaded anew.
unfoldable pub close_form : JobsPage → JobsPage
close_form page = record page {
  show_create_modal = false;
  editing_job = none;
  form = load_form none;
}

-- The end of `handleSubmit` and of `handleDelete`, by whether the service accepted.
unfoldable pub submitted : Bool → JobsPage → JobsPage
unfolding close_form
submitted true page = close_form page
submitted false page = page

unfoldable pub deleted : Bool → JobsPage → JobsPage
deleted true page = record page { deleting_job = none }
deleted false page = page

-- `formatDuration`; `fixed a b` is `(a / b).toFixed(1)`, and 0 stands for null as well.
unfoldable pub format_duration : (ℕ → ℕ → Text) → ℕ → Text
unfolding text decimal
format_duration fixed ms =
    if ms == 0
    then 8212 ∷ []
    else if ltb ms 1000
    then decimal ms ++ text "ms"
    else if ltb ms 60000
    then fixed ms 1000 ++ text "s"
    else fixed ms 60000 ++ text "m"

-- The columns of the type and of the schedule, and the colour of the status.
unfoldable pub type_label : Job → Text
type_label job = label_or job.type job_types

unfoldable pub schedule_label : Job → Text
schedule_label job = label_or job.schedule schedule_presets

unfoldable pub status_indicator : Job → Text
unfolding text
status_indicator job =
    if text_eq job.status (text "completed")
    then text "success"
    else if text_eq job.status (text "running")
    then text "pending"
    else if text_eq job.status (text "failed")
    then text "error"
    else text "warning"
