-- ===== src/Frontend/Theme/Consistency.antt =====
-- The store, the page and the system agree.
use trust_vault.Prelude.{◌≡◌, refl, Bool}
use trust_vault.Frontend.Theme.{
  Resolved, ThemeMode, Page, is_dark, resolve, apply_theme, set_mode, other, mode_of, toggle,
  on_change,
}

-- The resolved theme is the one that the mode and the system give, and the page has its class.
abbrev pub IsConsistent : Page → Type 0
IsConsistent page =
    (page.store.resolved ≡ resolve page.store.mode page.prefers_dark)
    × (page.dark_class ≡ is_dark page.store.resolved)

-- What may happen to a page that shows the theme: `setResolved` is not among it.
pub data Step : Page → Page → Type 0 where
  mode_set : (mode : ThemeMode) (page : Page) → Step page (set_mode mode page)
  toggled : (page : Page) → Step page (toggle page)
  changed : (prefers_dark : Bool) (page : Page) → Step page (on_change prefers_dark page)

pub data Steps : Page → Page → Type 0 where
  stay : (page : Page) → Steps page page
  step : {p q r : Page} → Steps p q → Step q r → Steps p r

resolve-mode_of : (t : Resolved) (b : Bool) → resolve (mode_of t) b ≡ t
resolve-mode_of Resolved.light b = refl
resolve-mode_of Resolved.dark b = refl

abbrev IsFixed : Page → Bool → Type 0
IsFixed page prefers_dark =
    let toggled_page = toggle page in
    let later = on_change prefers_dark toggled_page in
    (toggled_page.store.resolved ≡ other page.store.resolved)
    × (toggled_page.dark_class ≡ is_dark (other page.store.resolved))
    × (later.store ≡ toggled_page.store)
    × (later.dark_class ≡ toggled_page.dark_class)

IsFixed-from :
    (t : Resolved) (mode : ThemeMode) (d b c : Bool)
    → IsFixed
        (record { store = record { mode = mode; resolved = t }; dark_class = d; prefers_dark = b })
        c
unfolding toggle on_change apply_theme
IsFixed-from Resolved.light mode d b c = (refl, refl, refl, refl)
IsFixed-from Resolved.dark mode d b c = (refl, refl, refl, refl)

-- A toggle shows the other theme than the page resolved to before, on the page as in the store, and
-- no later change of the system's preference changes what is shown.
toggle_fixes :
    (page : Page) (prefers_dark : Bool)
    → let toggled_page = toggle page in
      let later = on_change prefers_dark toggled_page in
      (toggled_page.store.resolved ≡ other page.store.resolved)
      × (toggled_page.dark_class ≡ is_dark (other page.store.resolved))
      × (later.store ≡ toggled_page.store)
      × (later.dark_class ≡ toggled_page.dark_class)
toggle_fixes page b =
    IsFixed-from page.store.resolved page.store.mode page.dark_class page.prefers_dark b
