-- ===== src/Frontend/Pages/ClassificationStatus/Ends.antt =====
-- How a classification ends, and where it does not.
use trust_vault.Prelude.{
  ◌≡◌, refl, Bool, true, false, some, Text, text, truthy_text, trim, ◌∙◌, ap, ◌==◌, arith,
  if◌then◌else◌,
}
use trust_vault.Sdk.Value.{Value, str, truthy, member}
use trust_vault.Frontend.ScanLogs.{Clock}
use trust_vault.Frontend.ScanLogs.Events.{is_text}
use trust_vault.Frontend.Pages.ClassificationStatus.{
  StatusCard, told, progressed, JobStatus, classifying, has_status, Action, step, render, pass,
  handle, handle_event, time_out, finish,
}
use trust_vault.Frontend.Pages.ClassificationStatus.Settled.{IsSettled}

-- A page that classifies, as the effects have seen it.
abbrev Streams : StatusCard → Type 0
Streams card =
    (classifying card ≡ true) × (card.seen_classifying ≡ true) × (card.seen_active ≡ true)

either :
    (b : Bool) (card other : StatusCard)
    → Streams card
    → Streams other
    → Streams (if b then card else other)
either true card other h k = h
either false card other h k = k

module _ (clock : Clock) (opens : Bool) (id : Text) where
  -- A card whose stream is not active, while the page does not classify.
  render_ended :
      (card : StatusCard)
      → (classifying card ≡ false) × (card.sse_active ≡ false)
      → let after = render clock opens true card in
        (after.job_status ≡ card.job_status)
        × (classifying after ≡ false)
        × (after.sse_active ≡ false)
        × (after.is_open ≡ false)
  unfolding render pass
  render_ended card h = (ground (arith, h), ground (arith, h), ground (arith, h), ground (arith, h))

  -- Where the service has answered the request, whether it accepted it or not, the timer of 60 seconds
  -- ends the classification: the job counts as completed, the page does not classify any more, and the
  -- stream is closed. So does the timer of an event that told of the completion, which leaves the status.
  pub step_ends :
      (card : StatusCard)
      → card.is_pending ≡ false
      → (card.timeout ≡ true
          → let after = step clock opens id Action.timed_out card in
            (after.job_status ≡ JobStatus.completed)
            × (classifying after ≡ false)
            × (after.sse_active ≡ false)
            × (after.is_open ≡ false))
        × ((card.finishing == 0) ≡ false
            → let after = step clock opens id Action.finished card in
              (after.job_status ≡ card.job_status)
              × (classifying after ≡ false)
              × (after.sse_active ≡ false)
              × (after.is_open ≡ false))
  unfolding step
  step_ends card p = (
    λ t.
        let handled : handle clock id Action.timed_out card ≡ time_out clock card =
          ap (λ b. if b then time_out clock card else card) t in
        rw handled (render_ended (time_out clock card) (p, refl)),
    λ f.
        let handled : handle clock id Action.finished card ≡ finish card =
          ap (λ b. if b then card else finish card) f in
        rw handled (render_ended (finish card) (p, refl)),
  )

  -- A card whose stream was active and is not any more, while the page still classifies.
  render_stuck :
      (card : StatusCard)
      → (card.job_status ≡ JobStatus.failed)
        × (card.sse_active ≡ false)
        × (classifying card ≡ true)
        × (card.seen_classifying ≡ true)
        × (card.seen_active ≡ true)
      → let after = render clock opens false card in
        (after.job_status ≡ JobStatus.failed)
        × (classifying after ≡ true)
        × (after.sse_active ≡ true)
        × (after.is_open ≡ opens)
        × (after.timeout ≡ false)
  unfolding render pass
  render_stuck card h = (
    ground (arith, h),
    ground (arith, h),
    ground (arith, h),
    ground (arith, h),
    ground (arith, h),
  )

  -- What an event keeps before it comes to the status.
  told-Streams :
      (message : Value) (card : StatusCard) → Streams card → Streams (told clock message card)
  told-Streams (str message) card h = either (truthy_text (trim message)) _ card h h
  told-Streams _ card h = h

  progressed-Streams :
      (progress : Value) (card : StatusCard) → Streams card → Streams (progressed progress card)
  progressed-Streams progress card h = either (truthy progress) _ card h h

  handle_event_fails :
      (card : StatusCard) (message : Value)
      → Streams card
      → is_text id (member "dataset_id" message) ≡ true
      → has_status (text "completed") message ≡ false
      → has_status (text "failed") message ≡ true
      → let after = handle_event clock id (some message) card in
        (after.job_status ≡ JobStatus.failed)
        × (after.sse_active ≡ false)
        × (classifying after ≡ true)
        × (after.seen_classifying ≡ true)
        × (after.seen_active ≡ true)
  unfolding handle_event
  handle_event_fails card message h same n f =
      let kept =
        told-Streams (member "message" message) _
          (progressed-Streams (member "progress" message) card h) in
      rw (same, n, f) (refl, refl, kept.0, kept.1, kept.2)

  -- A classification that fails does not end, if `new EventSource` does not throw: after the event that
  -- tells a page that classifies of the failure, and not of a completion, the job counts as failed, but
  -- the page still classifies, so that its button stays disabled; the event source is open again, and no
  -- timer runs.
  pub step_fails :
      (card : StatusCard) (message : Value)
      → IsSettled opens card
      → card.is_open ≡ true
      → classifying card ≡ true
      → is_text id (member "dataset_id" message) ≡ true
      → has_status (text "completed") message ≡ false
      → has_status (text "failed") message ≡ true
      → let after = step clock opens id (Action.received (some message)) card in
        (after.job_status ≡ JobStatus.failed)
        × (classifying after ≡ true)
        × (after.sse_active ≡ true)
        × (after.is_open ≡ opens)
        × (after.timeout ≡ false)
  unfolding step
  step_fails card message h o c same n f =
      let streams : Streams card = (c, h.saw_classifying ∙ c, h.saw_active ∙ h.streams c) in
      let handled : handle clock id (Action.received (some message)) card
          ≡ handle_event clock id (some message) card =
        ap (λ b. if b then handle_event clock id (some message) card else card) o in
      rw handled (
        render_stuck (handle_event clock id (some message) card)
          (handle_event_fails card message streams same n f))
