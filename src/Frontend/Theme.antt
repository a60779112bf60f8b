-- ===== src/Frontend/Theme.antt =====
-- store/theme.ts: the theme store, the page's class and the system's preference. A store action runs
-- to its end before the next.
pub mod Consistency
use trust_vault.Prelude.{Bool, true, false, Option, none, some, if◌then◌else◌}

pub data Resolved : Type 0 where
  light dark : Resolved

pub data ThemeMode : Type 0 where
  light dark system : ThemeMode

pub record ThemeState : Type 0 where
  pub mode : ThemeMode
  pub resolved : Resolved

-- The store, whether the root element has the class 'dark', and what the system prefers.
pub record Page : Type 0 where
  pub store : ThemeState
  pub dark_class : Bool
  pub prefers_dark : Bool

abbrev pub initial_state : ThemeState
initial_state = record { mode = ThemeMode.system; resolved = Resolved.dark }

-- `none` where there is no window.
abbrev pub get_system_theme : Option Bool → Resolved
get_system_theme none = Resolved.dark
get_system_theme (some true) = Resolved.dark
get_system_theme (some false) = Resolved.light

abbrev pub is_dark : Resolved → Bool
is_dark Resolved.dark = true
is_dark Resolved.light = false

abbrev pub resolve : ThemeMode → Bool → Resolved
resolve ThemeMode.system prefers_dark = get_system_theme (some prefers_dark)
resolve ThemeMode.light prefers_dark = Resolved.light
resolve ThemeMode.dark prefers_dark = Resolved.dark

unfoldable pub apply_theme : ThemeMode → Page → Page
apply_theme mode page =
    let resolved = resolve mode page.prefers_dark in
    record page {
      store = record (page.store) { resolved = resolved };
      dark_class = is_dark resolved;
    }

unfoldable pub set_mode : ThemeMode → Page → Page
unfolding apply_theme
set_mode mode page = apply_theme mode (record page { store = record (page.store) { mode = mode } })

unfoldable pub set_resolved : Resolved → Page → Page
set_resolved resolved page = record page { store = record (page.store) { resolved = resolved } }

abbrev pub other : Resolved → Resolved
other Resolved.light = Resolved.dark
other Resolved.dark = Resolved.light

abbrev pub mode_of : Resolved → ThemeMode
mode_of Resolved.light = ThemeMode.light
mode_of Resolved.dark = ThemeMode.dark

unfoldable pub toggle : Page → Page
unfolding apply_theme
toggle page =
    let resolved = other page.store.resolved in
    let state : ThemeState = record { mode = mode_of resolved; resolved = resolved } in
    apply_theme (mode_of resolved) (record page { store = state })

abbrev follow : ThemeMode → Page → Page
follow ThemeMode.system page = apply_theme ThemeMode.system page
follow _ page = page

-- The system's preference changes, and the listener runs.
unfoldable pub on_change : Bool → Page → Page
unfolding apply_theme
on_change prefers_dark page = follow page.store.mode (record page { prefers_dark = prefers_dark })
