-- ===== src/Sdk/Effect/Trace.antt =====
-- What a history says: how often it fetched, how long it slept, which timers it left running.
use trust_vault.Prelude.{◌≡◌, ℕ, ◌+◌, [], ◌∷◌}
use trust_vault.Sdk.Effect.{World, slept, fetched, timer_set, timer_cleared, called_next, sent}

abbrev pub fetches : World → ℕ
fetches [] = 0
fetches (fetched r ∷ w) = fetches w + 1
fetches (e ∷ w) = fetches w

abbrev pub total_slept : World → ℕ
total_slept [] = 0
total_slept (slept ms ∷ w) = total_slept w + ms
total_slept (e ∷ w) = total_slept w

abbrev pub timers_set : World → ℕ
timers_set [] = 0
timers_set (timer_set ms ∷ w) = timers_set w + 1
timers_set (e ∷ w) = timers_set w

abbrev pub timers_cleared : World → ℕ
timers_cleared [] = 0
timers_cleared (timer_cleared ∷ w) = timers_cleared w + 1
timers_cleared (e ∷ w) = timers_cleared w

-- The history has grown by one fetch and no sleep.
abbrev pub OneFetch : World → World → Type 0
OneFetch w w' = (fetches w' ≡ fetches w + 1) × (total_slept w' ≡ total_slept w)

-- How often Express's `next` was called, and how many responses were sent.
abbrev pub nexts : World → ℕ
nexts [] = 0
nexts (called_next ∷ w) = nexts w + 1
nexts (e ∷ w) = nexts w

abbrev pub sends : World → ℕ
sends [] = 0
sends (sent status body ∷ w) = sends w + 1
sends (e ∷ w) = sends w

-- The history has grown by neither.
abbrev pub IsQuiet : World → World → Type 0
IsQuiet w w' = (nexts w' ≡ nexts w) × (sends w' ≡ sends w)
