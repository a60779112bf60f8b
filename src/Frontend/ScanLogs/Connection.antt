-- ===== src/Frontend/ScanLogs/Connection.antt =====
-- When the card listens to the service, and what it shows of that.
use trust_vault.Prelude.{
  text_eq, ◌≡◌, refl, Bool, true, false, not, ◌&&◌, List, [], ◌∷◌, Text, arith, if◌then◌else◌,
  Bool-cases, inl, inr,
}
use trust_vault.Frontend.ScanLogs.{Clock, ScanLogs, render, mount, cleanup}
use trust_vault.Frontend.ScanLogs.Events.{Action, perform, run}

-- The event source is open only while a scan is shown.
abbrev pub IsTidy : ScanLogs → Type 0
IsTidy card = card.is_open ≡ true → card.is_scanning ≡ true

either_card :
    (P : ScanLogs → Type 0) {x y : ScanLogs} (b : Bool) → P x → P y → P (if b then x else y)
either_card P true px py = px
either_card P false px py = py

mount-IsTidy :
    (clock : Clock) (opens is_scanning : Bool) (status : Text)
    → IsTidy (mount clock opens is_scanning status)
unfolding mount
mount-IsTidy clock opens true status = λ h. refl
mount-IsTidy clock opens false status = λ h. cc

render-IsTidy :
    (clock : Clock) (opens is_scanning : Bool) (status : Text) (card : ScanLogs)
    → IsTidy card
    → IsTidy (render clock opens is_scanning status card)
unfolding render cleanup
render-IsTidy clock opens true status card tidy =
    either_card IsTidy (card.is_scanning && text_eq status card.status) (λ h. refl) (λ h. refl)
render-IsTidy clock opens false status card tidy = elim (Bool-cases card.is_scanning) [
  | inl e ↦ rw (e, render) (λ h. cc)
  | inr e ↦
      rw (e, render)
        (either_card IsTidy (text_eq status card.status) (λ h. let shown = tidy h in cc) (λ h. cc))
]

-- A render that ends the scan.
render_ends :
    (clock : Clock) (opens : Bool) (status : Text) (card : ScanLogs)
    → let after = render clock opens false status card in
      (after.logs ≡ card.logs) × (after.is_connected ≡ card.is_connected)
unfolding render cleanup
render_ends clock opens status card =
    either_card (λ c. (c.logs ≡ card.logs) × (c.is_connected ≡ card.is_connected))
      (not card.is_scanning && text_eq status card.status) (refl, refl) (refl, refl)

perform-IsTidy :
    (id : Text) (a : Action) (card : ScanLogs) → IsTidy card → IsTidy (perform id a card)
unfolding perform cleanup
perform-IsTidy id (Action.rendered clock opens is_scanning status) card tidy =
    render-IsTidy clock opens is_scanning status card tidy
perform-IsTidy id Action.opened card tidy = ground (arith, tidy)
perform-IsTidy id Action.failed card tidy = ground (arith, tidy)
perform-IsTidy id (Action.received clock event) card tidy = ground (arith, tidy)
perform-IsTidy id (Action.loaded now scans) card tidy = tidy
perform-IsTidy id Action.unmounted card tidy = λ h. cc

run-IsTidy :
    (id : Text) (actions : List Action) (card : ScanLogs)
    → IsTidy card
    → IsTidy (run id actions card)
unfolding run
run-IsTidy id [] card tidy = tidy
run-IsTidy id (a ∷ actions) card tidy =
    run-IsTidy id actions (perform id a card) (perform-IsTidy id a card tidy)

-- After any sequence of renders, events, histories that arrive and unmountings, an event source is
-- open only while a scan is shown; and the render that ends the scan adds no line on how it ended and
-- does not take back that the card is connected.
pub run-mount :
    (id : Text) (clock : Clock) (opens is_scanning : Bool) (status : Text) (actions : List Action)
    → let card = run id actions (mount clock opens is_scanning status) in
      IsTidy card
      × ((later : Clock) (again : Bool) (end : Text)
          → let after = render later again false end card in
            (after.logs ≡ card.logs) × (after.is_connected ≡ card.is_connected))
run-mount id clock opens is_scanning status actions = (
  run-IsTidy id actions (mount clock opens is_scanning status)
      (mount-IsTidy clock opens is_scanning status),
  λ later again end.
      render_ends later again end (run id actions (mount clock opens is_scanning status)),
)
