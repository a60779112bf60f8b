-- ===== src/Frontend/Uptime/Bounds.antt =====
-- What an uptime that is shown says of the seconds.
use trust_vault.Prelude.{
  ℕ, ◌+◌, ◌*◌, ◌/◌, ◌%◌, ◌<◌, ◌≤◌, ◌≡◌, List, [], ◌∷◌, Text, String, arith, ◌==◌, if◌then◌else◌,
}
use trust_vault.Frontend.Uptime.{amount, beside, format_uptime}

abbrev Amounts : Type 0
Amounts = List (ℕ × String)

abbrev written : Amounts → Text
written [] = []
written ((n, unit) ∷ []) = amount n unit
written ((n, unit) ∷ more) = beside (amount n unit) (written more)

-- Without the amounts of nothing before the first other one; the last amount stays.
abbrev trimmed : Amounts → Amounts
trimmed [] = []
trimmed (a ∷ []) = a ∷ []
trimmed ((n, unit) ∷ more) = if n == 0 then trimmed more else (n, unit) ∷ more

-- The uptime is written with minutes below 60 and hours below 24, from the first that is not 0 on, and
-- they fall short of the seconds by less than a minute.
format_uptime_bounds :
    (seconds : ℕ)
    → (days : ℕ) × (hours : ℕ) × (minutes : ℕ) × (hours < 24)
      × (minutes < 60)
      × (days * 86400 + hours * 3600 + minutes * 60 ≤ seconds)
      × (seconds < days * 86400 + hours * 3600 + minutes * 60 + 60)
      × (format_uptime seconds
          ≡ written (trimmed ((days, "d") ∷ (hours, "h") ∷ (minutes, "m") ∷ [])))
unfolding format_uptime
format_uptime_bounds seconds = (
  seconds / 86400,
  seconds % 86400 / 3600,
  seconds % 3600 / 60,
  omega arith,
  omega arith,
  omega arith,
  omega arith,
  ground arith,
)
