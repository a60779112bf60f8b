-- ===== src/Frontend/Pages/ClassificationStatus/Settled.antt =====
-- What holds of the card between two events.
use trust_vault.Prelude.{
  ℕ, ◌≡◌, refl, Bool, true, false, not, ◌&&◌, List, [], ◌∷◌, Option, none, some, Text, text,
  truthy_text, trim, arith, if◌then◌else◌,
}
use trust_vault.Sdk.Value.{Value, str, member, truthy}
use trust_vault.Frontend.ScanLogs.{Clock, same_bool}
use trust_vault.Frontend.Pages.ClassificationStatus.{
  StatusCard, JobStatus, classifying, same_status, has_ended, pass, render, initial_card, handle,
  handle_event, step, run, Action, renders_page, progressed, time_out, told, has_status,
  status_update,
}

-- Between two events: the effects have seen the state, a classification has its stream, and the event
-- source and the timer are there exactly where they are to be.
pub record IsSettled (opens : Bool) (card : StatusCard) : Type 0 where
  pub saw_classifying : card.seen_classifying ≡ classifying card
  pub saw_active : card.seen_active ≡ card.sse_active
  pub saw_status : card.seen_status ≡ card.job_status
  pub streams : classifying card ≡ true → card.sse_active ≡ true
  pub has_source : card.is_open ≡ (card.sse_active && opens)
  pub has_timer : card.timeout ≡ (card.sse_active && not (has_ended card.job_status))

-- What a render finds: where no dependency of an effect has changed, its work is done.
record IsReady (opens new_page : Bool) (card : StatusCard) : Type 0 where
  streams :
      same_bool (classifying card) card.seen_classifying ≡ true
      → same_bool card.sse_active card.seen_active ≡ true
      → classifying card ≡ true
      → card.sse_active ≡ true
  has_source :
      new_page ≡ false
      → same_bool card.sse_active card.seen_active ≡ true
      → card.is_open ≡ (card.sse_active && opens)
  has_timer :
      new_page ≡ false
      → same_bool card.sse_active card.seen_active ≡ true
      → same_status card.job_status card.seen_status ≡ true
      → card.timeout ≡ (card.sse_active && not (has_ended card.job_status))

-- What the events of the stream leave alone: what the effects saw last, and what they did then.
record IsCaughtUp (opens : Bool) (card : StatusCard) : Type 0 where
  streamed : card.seen_classifying ≡ true → card.seen_active ≡ true
  had_source : card.is_open ≡ (card.seen_active && opens)
  had_timer : card.timeout ≡ (card.seen_active && not (has_ended card.seen_status))

same_seen :
    {opens is_classifying is_pending is_connected is_expanded sse_active : Bool}
    {refetches finishing : ℕ} {logs : List Text} {job_status : JobStatus} {current total : Value}
    {card : StatusCard}
    → IsCaughtUp opens card
    → IsCaughtUp opens (record card {
      is_classifying = is_classifying;
      is_pending = is_pending;
      refetches = refetches;
      logs = logs;
      is_connected = is_connected;
      is_expanded = is_expanded;
      job_status = job_status;
      current = current;
      total = total;
      sse_active = sse_active;
      finishing = finishing;
    })
same_seen h = record { streamed = h.streamed; had_source = h.had_source; had_timer = h.had_timer }

module _ (clock : Clock) (opens : Bool) where
  pass-IsReady :
      (new_page : Bool) (card : StatusCard)
      → IsReady opens new_page card
      → IsReady opens false (pass clock opens new_page card)
  unfolding pass
  pass-IsReady new_page card h = record {
    streams = ground (arith, h.streams);
    has_source = ground (arith, h.has_source);
    has_timer = ground (arith, h.has_timer);
  }

  -- A second pass starts nothing.
  pass_quiet :
      (card : StatusCard)
      → IsReady opens false card
      → card.seen_classifying ≡ classifying card
      → (classifying card ≡ true → card.sse_active ≡ true)
      → IsSettled opens (pass clock opens false card)
  unfolding pass
  pass_quiet card h seen streams = record {
    saw_classifying = ground (arith, seen, streams);
    saw_active = ground (arith, seen, streams);
    saw_status = ground (arith, seen, streams);
    streams = ground (arith, seen, streams);
    has_source = ground (arith, seen, streams, h.has_source);
    has_timer = ground (arith, seen, streams, h.has_timer);
  }

  pass_seen :
      (new_page : Bool) (card : StatusCard)
      → (pass clock opens new_page card).seen_classifying
        ≡ classifying (pass clock opens new_page card)
  unfolding pass
  pass_seen new_page card = ground arith

  pass_streams :
      (new_page : Bool) (card : StatusCard)
      → IsReady opens new_page card
      → classifying (pass clock opens new_page card) ≡ true
      → (pass clock opens new_page card).sse_active ≡ true
  unfolding pass
  pass_streams new_page card h c = ground (arith, h.streams, c)

  render-IsSettled :
      (new_page : Bool) (card : StatusCard)
      → IsReady opens new_page card
      → IsSettled opens (render clock opens new_page card)
  unfolding render
  render-IsSettled new_page card h =
      pass_quiet (pass clock opens new_page card) (pass-IsReady new_page card h)
        (pass_seen new_page card) (pass_streams new_page card h)

  either :
      (b : Bool) (card other : StatusCard)
      → IsCaughtUp opens card
      → IsCaughtUp opens other
      → IsCaughtUp opens (if b then card else other)
  either true card other h k = h
  either false card other h k = k

  progressed-IsCaughtUp :
      (progress : Value) (card : StatusCard)
      → IsCaughtUp opens card
      → IsCaughtUp opens (progressed progress card)
  progressed-IsCaughtUp progress card h = either (truthy progress) _ card (same_seen h) h

  told-IsCaughtUp :
      (message : Value) (card : StatusCard)
      → IsCaughtUp opens card
      → IsCaughtUp opens (told clock message card)
  told-IsCaughtUp (str message) card h = either (truthy_text (trim message)) _ card (same_seen h) h
  told-IsCaughtUp _ card h = h

  status_update-IsCaughtUp :
      (message : Value) (card : StatusCard)
      → IsCaughtUp opens card
      → IsCaughtUp opens (status_update clock message card)
  status_update-IsCaughtUp message card h =
      either (has_status (text "completed") message) _ _ (same_seen h) (
        either (has_status (text "failed") message) _ _ (same_seen h)
          (either (has_status (text "running") message) _ card (same_seen h) h))

  handle_event-IsCaughtUp :
      (id : Text) (message : Option Value) (card : StatusCard)
      → IsCaughtUp opens card
      → IsCaughtUp opens (handle_event clock id message card)
  unfolding handle_event
  handle_event-IsCaughtUp id none card h = h
  handle_event-IsCaughtUp id (some message) card h =
      either _ _ card
        (status_update-IsCaughtUp message _ (
          told-IsCaughtUp (member "message" message) _
            (progressed-IsCaughtUp (member "progress" message) card h)))
        h

  ready : (card : StatusCard) → IsCaughtUp opens card → IsReady opens false card
  ready card h = record {
    streams = ground (arith, h.streamed);
    has_source = ground (arith, h.had_source);
    has_timer = ground (arith, h.had_timer);
  }

  caught_up : (card : StatusCard) → IsSettled opens card → IsCaughtUp opens card
  caught_up card h = record {
    streamed = ground (arith, h.streams, h.saw_active, h.saw_classifying);
    had_source = ground (arith, h.has_source, h.saw_active);
    had_timer = ground (arith, h.has_timer, h.saw_active, h.saw_status);
  }

  -- A render of the page runs the effects of the stream and of the timer anyhow.
  anew :
      (card : StatusCard)
      → (card.seen_classifying ≡ true → card.seen_active ≡ true)
      → IsReady opens true card
  anew card h = record {
    streams = ground (arith, h);
    has_source = λ e. ground (arith, e);
    has_timer = λ e. ground (arith, e);
  }

  handle-IsReady :
      (id : Text) (action : Action) (card : StatusCard)
      → IsCaughtUp opens card
      → IsReady opens (renders_page action) (handle clock id action card)
  handle-IsReady id (Action.received message) card h =
      ready _ (either card.is_open _ card (handle_event-IsCaughtUp id message card h) h)
  handle-IsReady id Action.opened card h = ready _ (either card.is_open _ card (same_seen h) h)
  handle-IsReady id Action.dropped card h = ready _ (either card.is_open _ card (same_seen h) h)
  handle-IsReady id Action.clicked card h = anew _ (ground (arith, h.streamed))
  handle-IsReady id Action.answered_by card h = anew _ h.streamed
  handle-IsReady id Action.drawn card h = anew _ h.streamed
  handle-IsReady id Action.finished card h = anew _ (ground (arith, h.streamed))
  handle-IsReady id Action.timed_out card h = by_timeout card.timeout
    where
      by_timeout : (b : Bool) → IsReady opens true (if b then time_out clock card else card)
      by_timeout true = anew _ h.streamed
      by_timeout false = anew _ h.streamed

  step-IsSettled :
      (id : Text) (action : Action) (card : StatusCard)
      → IsSettled opens card
      → IsSettled opens (step clock opens id action card)
  unfolding step
  step-IsSettled id action card h =
      render-IsSettled (renders_page action) (handle clock id action card)
        (handle-IsReady id action card (caught_up card h))

  initial_card-IsSettled : IsSettled opens initial_card
  unfolding initial_card
  initial_card-IsSettled = record {
    saw_classifying = refl;
    saw_active = refl;
    saw_status = refl;
    streams = ground arith;
    has_source = refl;
    has_timer = refl;
  }

  actions-IsSettled :
      (id : Text) (actions : List Action) (card : StatusCard)
      → IsSettled opens card
      → IsSettled opens (run clock opens id actions card)
  unfolding run
  actions-IsSettled id [] card h = h
  actions-IsSettled id (a ∷ actions) card h =
      actions-IsSettled id actions (step clock opens id a card) (step-IsSettled id a card h)

  -- From the page as it is loaded, after any sequence of events: the effects have seen the state of the
  -- card, a page that classifies has an active stream, an event source is open exactly while the stream
  -- is active, if `new EventSource` does not throw, and the timer of 60 seconds runs exactly while the
  -- stream is active and the job has neither completed nor failed.
  pub run-IsSettled :
      (id : Text) (actions : List Action)
      → IsSettled opens (run clock opens id actions initial_card)
  run-IsSettled id actions = actions-IsSettled id actions initial_card initial_card-IsSettled
