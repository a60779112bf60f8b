-- ===== src/Frontend/Pages/ClassificationStatus.antt =====
-- app/(app)/classification/[id]/page.tsx: the classification that the page starts, and the card that
-- shows how it goes, `ClassificationStatusCard`. The clock is a function of the lines that are there
-- when it is read, and whether `new EventSource` throws is a parameter.
pub mod Settled
pub mod Ends
use trust_vault.Prelude.{
  ℕ, ◌+◌, ◌-◌, ◌==◌, Bool, true, false, not, ◌&&◌, ◌||◌, List, [], ◌∷◌, ◌++◌, Option, none, some,
  Text, text, text_eq, truthy_text, includes, trim, if◌then◌else◌,
}
use trust_vault.Sdk.Value.{Value, str, num, member, truthy, to_string}
use trust_vault.Frontend.Session.{or_else}
use trust_vault.Frontend.ScanLogs.{Clock, same_bool, append_line, stamped}
use trust_vault.Frontend.ScanLogs.Events.{is_text}

pub data JobStatus : Type 0 where
  idle queued running completed failed : JobStatus

-- The card with the state of its page. `is_open` is whether `eventSourceRef` holds an event source,
-- `timeout` whether the timer of 60 seconds runs, and `finishing` counts the timers of a completed
-- event. The last three are what the effects have seen last of `isClassifying`, `sseActive` and
-- `jobStatus`.
pub record StatusCard : Type 0 where
  pub is_classifying : Bool
  pub is_pending : Bool
  pub refetches : ℕ
  pub logs : List Text
  pub is_connected : Bool
  pub is_expanded : Bool
  pub job_status : JobStatus
  pub current : Value
  pub total : Value
  pub sse_active : Bool
  pub is_open : Bool
  pub timeout : Bool
  pub finishing : ℕ
  pub seen_classifying : Bool
  pub seen_active : Bool
  pub seen_status : JobStatus

-- The property `isClassifying` of the card.
abbrev pub classifying : StatusCard → Bool
classifying card = card.is_classifying || card.is_pending

abbrev pub same_status : JobStatus → JobStatus → Bool
same_status JobStatus.idle JobStatus.idle = true
same_status JobStatus.queued JobStatus.queued = true
same_status JobStatus.running JobStatus.running = true
same_status JobStatus.completed JobStatus.completed = true
same_status JobStatus.failed JobStatus.failed = true
same_status _ _ = false

abbrev pub has_ended : JobStatus → Bool
has_ended JobStatus.completed = true
has_ended JobStatus.failed = true
has_ended _ = false

-- The effects. Each reads the values of the render, `seen`, and changes the card as it is then.
abbrev pub start_effect : Clock → StatusCard → StatusCard → StatusCard
start_effect clock seen card =
    if classifying seen && not (same_bool (classifying seen) seen.seen_classifying)
    then record card {
      is_expanded = true;
      job_status = JobStatus.queued;
      logs = stamped (clock card.logs) (text "Classification job queued...") ∷ [];
    }
    else card

abbrev pub active_effect : StatusCard → StatusCard → StatusCard
active_effect seen card =
    if (not (same_bool (classifying seen) seen.seen_classifying)
        || not (same_bool seen.sse_active seen.seen_active))
      && (classifying seen && not seen.sse_active)
    then record card { sse_active = true }
    else card

-- What the effect of the event source returns, which runs before the effects do.
abbrev pub close : StatusCard → StatusCard
close card = record card { is_open = false }

abbrev pub connect_effect : Bool → StatusCard → StatusCard → StatusCard
connect_effect opens seen card =
    if seen.sse_active && not card.is_open then record card { is_open = opens } else card

abbrev pub disconnect_effect : StatusCard → StatusCard → StatusCard
disconnect_effect seen card =
    if not seen.sse_active && card.is_open
    then record card { is_open = false; is_connected = false }
    else card

abbrev pub timeout_effect : StatusCard → StatusCard → StatusCard
timeout_effect seen card = record card {
  timeout = seen.sse_active && not (has_ended seen.job_status);
}

-- A render of the card; with one of the page, `onComplete` is a new function.
abbrev pub stream_effect : Bool → Bool → StatusCard → StatusCard → StatusCard
stream_effect opens new_page seen card =
    if new_page || not (same_bool seen.sse_active seen.seen_active)
    then disconnect_effect seen (connect_effect opens seen (close card))
    else card

abbrev pub timer_effect : Bool → StatusCard → StatusCard → StatusCard
timer_effect new_page seen card =
    if new_page
      || (not (same_bool seen.sse_active seen.seen_active)
          || not (same_status seen.job_status seen.seen_status))
    then timeout_effect seen card
    else card

abbrev pub remember : StatusCard → StatusCard → StatusCard
remember seen card = record card {
  seen_classifying = classifying seen;
  seen_active = seen.sse_active;
  seen_status = seen.job_status;
}

unfoldable pub pass : Clock → Bool → Bool → StatusCard → StatusCard
pass clock opens new_page card = remember card (
    timer_effect new_page card
      (stream_effect opens new_page card (active_effect card (start_effect clock card card))))

-- The effects set the state of the card, so that it renders again.
unfoldable pub render : Clock → Bool → Bool → StatusCard → StatusCard
unfolding pass
render clock opens new_page card = pass clock opens false (pass clock opens new_page card)

unfoldable pub initial_card : StatusCard
initial_card = record {
  is_classifying = false;
  is_pending = false;
  refetches = 0;
  logs = [];
  is_connected = false;
  is_expanded = false;
  job_status = JobStatus.idle;
  current = num 0;
  total = num 0;
  sse_active = false;
  is_open = false;
  timeout = false;
  finishing = 0;
  seen_classifying = false;
  seen_active = false;
  seen_status = JobStatus.idle;
}

-- `handleClassify` up to its `await`, from a button that is disabled while a classification runs; and
-- from there, whether the request was accepted or not.
abbrev pub handle_classify : StatusCard → StatusCard
handle_classify card =
    if classifying card then card else record card { is_classifying = true; is_pending = true }

abbrev pub answered : StatusCard → StatusCard
answered card = record card { is_pending = false }

-- `handleClassificationComplete`
abbrev pub complete : StatusCard → StatusCard
complete card = record card { is_classifying = false; refetches = card.refetches + 1 }

abbrev pub connect_msg : Text
connect_msg = text "Connected to classification stream"

abbrev pub has_line : Text → List Text → Bool
has_line t [] = false
has_line t (l ∷ logs) = includes t l || has_line t logs

-- `es.onopen` and `es.onerror`
abbrev pub on_open : Clock → StatusCard → StatusCard
on_open clock card = record card {
  is_connected = true;
  logs =
      if has_line connect_msg card.logs then card.logs else append_line clock connect_msg card.logs;
}

abbrev pub on_error : StatusCard → StatusCard
on_error card = record card { is_connected = false }

abbrev pub progressed : Value → StatusCard → StatusCard
progressed progress card =
    if truthy progress
    then record card {
      current = or_else (member "current" progress) (num 0);
      total = or_else (member "total" progress) (num 0);
      job_status = JobStatus.running;
    }
    else card

abbrev pub told : Clock → Value → StatusCard → StatusCard
told clock (str message) card =
    if truthy_text (trim message)
    then record card { logs = append_line clock message card.logs }
    else card
told clock _ card = card

abbrev pub completed_msg : Value → Text
completed_msg message =
    (10003 ∷ text " Classification completed - ")
    ++ (to_string (or_else (member "columns_classified" message) (num 0))
        ++ text " columns classified")

abbrev pub failed_msg : Value → Text
failed_msg message =
    (10007 ∷ text " Classification failed: ")
    ++ to_string (or_else (member "error" message) (str (text "Unknown error")))

abbrev pub has_status : Text → Value → Bool
has_status status message = is_text status (member "status" message)

abbrev pub status_update : Clock → Value → StatusCard → StatusCard
status_update clock message card =
    if has_status (text "completed") message
    then record card {
      job_status = JobStatus.completed;
      logs = append_line clock (completed_msg message) card.logs;
      finishing = card.finishing + 1;
    }
    else if has_status (text "failed") message
    then record card {
      job_status = JobStatus.failed;
      logs = append_line clock (failed_msg message) card.logs;
      sse_active = false;
    }
    else if has_status (text "running") message
    then record card { job_status = JobStatus.running }
    else card

-- `handleClassificationEvent`, with what `JSON.parse` gave, if it did not throw.
unfoldable pub handle_event : Clock → Text → Option Value → StatusCard → StatusCard
handle_event clock dataset_id none card = card
handle_event clock dataset_id (some message) card =
    if is_text dataset_id (member "dataset_id" message)
    then status_update clock message
        (told clock (member "message" message) (progressed (member "progress" message) card))
    else card

-- A timer of a completed event fires, and the timer of 60 seconds.
abbrev pub finish : StatusCard → StatusCard
finish card = complete (record card { sse_active = false; finishing = card.finishing - 1 })

abbrev pub time_out : Clock → StatusCard → StatusCard
time_out clock card = complete (record card {
  timeout = false;
  logs = append_line clock (10003 ∷ text " Classification completed (timeout)") card.logs;
  job_status = JobStatus.completed;
  sse_active = false;
})

-- What happens to the page. `drawn` is a render of the page for another reason.
pub data Action : Type 0 where
  clicked answered_by drawn opened dropped finished timed_out : Action
  received : Option Value → Action

abbrev pub handle : Clock → Text → Action → StatusCard → StatusCard
handle clock id Action.clicked card = handle_classify card
handle clock id Action.answered_by card = answered card
handle clock id Action.drawn card = card
handle clock id Action.opened card = if card.is_open then on_open clock card else card
handle clock id Action.dropped card = if card.is_open then on_error card else card
handle clock id Action.finished card = if card.finishing == 0 then card else finish card
handle clock id Action.timed_out card = if card.timeout then time_out clock card else card
handle clock id (Action.received message) card =
    if card.is_open then handle_event clock id message card else card

-- The events of the stream change the card alone.
abbrev pub renders_page : Action → Bool
renders_page Action.opened = false
renders_page Action.dropped = false
renders_page (Action.received message) = false
renders_page _ = true

unfoldable pub step : Clock → Bool → Text → Action → StatusCard → StatusCard
unfolding render
step clock opens id action card =
    render clock opens (renders_page action) (handle clock id action card)

unfoldable pub run : Clock → Bool → Text → List Action → StatusCard → StatusCard
unfolding step
run clock opens id [] card = card
run clock opens id (a ∷ actions) card = run clock opens id actions (step clock opens id a card)
