-- ===== src/Frontend/Uptime.antt =====
-- The uptime of the system in whole seconds, as app/(app)/observability/page.tsx and, shorter,
-- components/layout/sidebar.tsx write it.
pub mod Bounds
use trust_vault.Prelude.{ℕ, String, ◌/◌, ◌%◌, ◌++◌, Text, text, decimal, ltb, if◌then◌else◌}

-- `${n}${unit}`
abbrev pub amount : ℕ → String → Text
amount n unit = decimal n ++ text unit

abbrev pub beside : Text → Text → Text
beside s t = s ++ (text " " ++ t)

unfoldable pub format_uptime : ℕ → Text
format_uptime seconds =
    let days = seconds / 86400 in
    let hours = seconds % 86400 / 3600 in
    let minutes = seconds % 3600 / 60 in
    if ltb 0 days
    then beside (amount days "d") (beside (amount hours "h") (amount minutes "m"))
    else if ltb 0 hours
    then beside (amount hours "h") (amount minutes "m")
    else amount minutes "m"

unfoldable pub sidebar_uptime : ℕ → Text
sidebar_uptime seconds =
    if ltb seconds 60
    then amount seconds "s"
    else if ltb seconds 3600
    then amount (seconds / 60) "m"
    else if ltb seconds 86400
    then (let hours = seconds / 3600 in
        let mins = seconds % 3600 / 60 in
        if ltb 0 mins then beside (amount hours "h") (amount mins "m") else amount hours "h")
    else (let days = seconds / 86400 in
        let hours = seconds % 86400 / 3600 in
        if ltb 0 hours then beside (amount days "d") (amount hours "h") else amount days "d")
