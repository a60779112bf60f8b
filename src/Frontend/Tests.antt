-- ===== src/Frontend/Tests.antt =====
-- Tests of the stores.
mod Hooks
mod Table
mod Scans
mod Pages
mod Forms
use trust_vault.Prelude.{
  ℕ, ◌+◌, ◌*◌, ◌<◌, ◌≤◌, ◌≡◌, refl, inr, true, none, some, List, [], ◌∷◌, text,
}
use trust_vault.Sdk.Value.{undefined}
use trust_vault.Frontend.Theme.{Page, initial_state, other, is_dark}
use trust_vault.Frontend.Session.{Session, AxiosError, initial_auth, authorization, reload}
use trust_vault.Frontend.Layout.{open_app}
use trust_vault.Frontend.Layout.Guard.{IsGuarded, open_app-run}
use trust_vault.Frontend.Uptime.{format_uptime}
use trust_vault.Frontend.Session.Tokens.{Action, run, token_run, bearer, authorization-run, IsSound}

abbrev page : Page
page = record { store = initial_state; dark_class = true; prefers_dark = true }

abbrev pub session : Session
session = record {
  store = initial_auth;
  access_token = none;
  refresh_token = none;
  location = text "/login";
  cached_queries = [];
}

abbrev unauthorized : AxiosError
unauthorized = record {
  message = text "Request failed";
  response = some (record { status = 401; content = undefined });
}

-- A login, a reload, and an answer with status 401.
abbrev actions : List Action
actions =
    Action.logged_in (text "ann@x.org")
      (record { access_token = text "t1"; refresh_token = none; expires_in = 3600 })
    ∷ Action.reloaded
    ∷ Action.failed unauthorized
    ∷ []

authorization-run_example :
    authorization (run (λ t. none) actions session) ≡ bearer (token_run actions none)
authorization-run_example = authorization-run (λ t. none) actions session

-- A login, a return from the SSO provider with a token that cannot be decoded, and a reload.
abbrev login_actions : List Action
login_actions =
    Action.logged_in (text "ann@x.org")
      (record { access_token = text "t1"; refresh_token = none; expires_in = 3600 })
    ∷ Action.returned none (some (text "broken"))
    ∷ Action.reloaded
    ∷ []

open_app-run_example :
    IsGuarded
      (token_run login_actions none)
      (open_app (λ t. none) (reload (run (λ t. none) login_actions session)))
open_app-run_example = open_app-run (λ t. none) (λ t. none) login_actions session

-- Such a token is kept, and opens the application.
broken_token : token_run login_actions none ≡ some (text "broken")
unfolding text
broken_token = refl
