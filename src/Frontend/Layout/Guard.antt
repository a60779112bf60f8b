-- ===== src/Frontend/Layout/Guard.antt =====
-- Who sees the pages of the application, and with which token.
use trust_vault.Prelude.{
  ◌≡◌, refl, true, false, Option, none, some, List, [], ◌∷◌, ◌++◌, Text, text,
}
use mathlib.Core.Path.{subst}
use trust_vault.Frontend.Session.{Session, initial_auth, authorization, reload}
use trust_vault.Frontend.Session.Tokens.{Action, run, token_run, run_token}
use trust_vault.Frontend.Layout.{Payload, open_app}
use trust_vault.Frontend.Login.{SsoPayload}

-- Without a token the page goes to the login page and shows nobody as logged in.
abbrev pub IsTurnedAway : Session → Type 0
IsTurnedAway session =
    (authorization session ≡ none)
    × (session.store.is_authenticated ≡ false)
    × (session.location ≡ text "/login")

abbrev pub IsAdmitted : Text → Session → Type 0
IsAdmitted token session =
    (authorization session ≡ some (text "Bearer " ++ token))
    × (session.store.is_authenticated ≡ true)
    × (session.store.token ≡ some token)

-- A session is turned away if it has no token that is sent, and admitted with it otherwise.
abbrev pub IsGuarded : Option Text → Session → Type 0
IsGuarded none session = IsTurnedAway session
IsGuarded (some []) session = IsTurnedAway session
IsGuarded (some (c ∷ token)) session = IsAdmitted (c ∷ token) session

abbrev fresh : Option Text → Session → Session
fresh token session = record session {
  store = initial_auth;
  access_token = token;
  cached_queries = [];
}

open_app-IsGuarded :
    (parse_payload : Text → Option Payload) (session : Session) (token : Option Text)
    → IsGuarded token (open_app parse_payload (fresh token session))
unfolding open_app authorization
open_app-IsGuarded parse_payload session none = (refl, refl, refl)
open_app-IsGuarded parse_payload session (some []) = (refl, refl, refl)
open_app-IsGuarded parse_payload session (some (c ∷ token)) = (refl, refl, refl)

-- After any sequence of logins on the login page, returns from the SSO provider, logouts, failed requests
-- and reloads, the application that is loaded and opened anew admits the user exactly with a token, not
-- empty, of the last login, or of the last return without an error and with a token, which may be one
-- that cannot be decoded, that no logout and no answer with status 401 has followed, or of before if
-- there was neither: the store is then authenticated with this token and requests carry it. In every
-- other case the page goes to the login page, the store is not authenticated and requests carry no token.
pub open_app-run :
    (parse_sso : Text → Option SsoPayload) (parse_payload : Text → Option Payload)
    (actions : List Action) (session : Session)
    → IsGuarded
        (token_run actions session.access_token)
        (open_app parse_payload (reload (run parse_sso actions session)))
unfolding reload
open_app-run parse_sso parse_payload actions session =
    let after = run parse_sso actions session in
    subst (λ token. IsGuarded token (open_app parse_payload (reload after)))
      (run_token parse_sso actions session)
      (open_app-IsGuarded parse_payload after after.access_token)
