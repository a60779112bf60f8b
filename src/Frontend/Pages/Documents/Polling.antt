-- ===== src/Frontend/Pages/Documents/Polling.antt =====
-- How long a poll goes on.
use trust_vault.Prelude.{
  ℕ, zero, suc, ◌+◌, ◌≤◌, ◌≡◌, Bool, true, false, not, ◌&&◌, List, [], ◌∷◌, if◌then◌else◌, Text,
}
use trust_vault.Frontend.Pages.Documents.{Poll, DocumentsPage, Action, tick, answer_poll, step}

-- An active poll with 12 attempts or more waits for the answers to all that came from the twelfth on.
abbrev pub IsBounded : Poll → Type 0
IsBounded poll = poll.is_active ≡ true → poll.attempts ≤ 11 + poll.waiting

abbrev pub run : List Action → DocumentsPage → DocumentsPage
run [] page = page
run (a ∷ actions) page = run actions (step a page)

-- Each request is answered before the interval fires again.
abbrev pub poll_rounds : List Bool → Poll → Poll
poll_rounds [] poll = poll
poll_rounds (found ∷ answers) poll = poll_rounds answers (answer_poll found (tick poll))

-- The number of attempts, at most `n`: up to the first that finds classifications.
abbrev pub attempts_in : ℕ → List Bool → ℕ
attempts_in zero answers = 0
attempts_in (suc n) [] = 0
attempts_in (suc n) (found ∷ answers) =
    let more = attempts_in n answers in if found then 1 else 1 + more

-- Whether a poll goes on after these answers, of which at most `n` count.
abbrev pub goes_on : ℕ → List Bool → Bool
goes_on zero answers = false
goes_on (suc n) [] = true
goes_on (suc n) (found ∷ answers) = not found && goes_on n answers

abbrev IsAt : ℕ → Bool → Poll → Type 0
IsAt attempts is_active poll = (poll.attempts ≡ attempts) × (poll.is_active ≡ is_active)

abbrev pub new_poll : Text → Poll
new_poll id = record { extraction_id = id; attempts = 0; is_active = true; waiting = 0 }
