-- ===== src/Frontend/Session/Tokens.antt =====
-- Which token a request carries.
use trust_vault.Prelude.{
  ◌≡◌, ◌≢◌, ◌⊎◌, ap, ◌∙◌, refl, inl, inr, Bool, true, false, Option, none, some, List, [], ◌∷◌,
  ◌++◌, Text, text, truthy_text, arith, ◌==◌, if◌then◌else◌,
}
use trust_vault.Frontend.Session.{
  Session, LoginResponse, AxiosError, AuthState, log_out, authorization, on_response_error, reload,
}
use trust_vault.Frontend.Login.{
  SsoPayload, submit_login, return_from_sso, accept_token, sso_callback,
}

-- What happens in a session: a login on the login page, with the email, a return from the SSO provider,
-- with the error and the token of the address, a logout, a request that fails, a reload.
pub data Action : Type 0 where
  logged_in : Text → LoginResponse → Action
  returned : (error token : Option Text) → Action
  logged_out : Bool → Action
  failed : AxiosError → Action
  reloaded : Action

-- The specification: a session is a token or nothing. A login gives its token, a return from the SSO
-- provider without an error gives the token of its address, if this has one, whether it can be decoded
-- or not; a logout takes it, answered or not, and so does an answer with status 401.
abbrev pub is_unauthorized : AxiosError → Bool
is_unauthorized error = elim error.response [ none ↦ false | some r ↦ r.status == 401 ]

abbrev pub taken : Option Text → Option Text → Option Text
taken none t = t
taken (some []) t = t
taken (some (c ∷ token)) t = some (c ∷ token)

abbrev pub token_after : Action → Option Text → Option Text
token_after (logged_in email answer) t = some answer.access_token
token_after (returned none token) t = taken token t
token_after (returned (some []) token) t = taken token t
token_after (returned (some (c ∷ error)) token) t = t
token_after (logged_out answered) t = none
token_after (failed error) t = if is_unauthorized error then none else t
token_after reloaded t = t

abbrev pub token_run : List Action → Option Text → Option Text
token_run [] t = t
token_run (a ∷ actions) t = token_run actions (token_after a t)

abbrev pub bearer : Option Text → Option Text
bearer none = none
bearer (some t) = if truthy_text t then some (text "Bearer " ++ t) else none

authorization-bearer : (session : Session) → authorization session ≡ bearer session.access_token
unfolding authorization
authorization-bearer session = ground arith

-- The store says that the user is authenticated exactly if it holds a token.
abbrev pub IsSound : AuthState → Type 0
IsSound state =
    ((state.is_authenticated ≡ true) × (state.token ≢ none))
    ⊎ ((state.is_authenticated ≡ false) × (state.token ≡ none) × (state.user ≡ none))

module _ (parse_payload : Text → Option SsoPayload) where
  abbrev pub perform : Action → Session → Session
  perform (logged_in email answer) = submit_login email answer
  perform (returned error token) = return_from_sso parse_payload error token
  perform (logged_out answered) = log_out answered
  perform (failed error) = on_response_error error
  perform reloaded = reload

  abbrev pub run : List Action → Session → Session
  run [] session = session
  run (a ∷ actions) session = run actions (perform a session)

  accepted_token :
      (token : Text) (session : Session)
      → (accept_token parse_payload token session).access_token ≡ some token
  unfolding accept_token
  accepted_token token session = ground arith

  perform_token :
      (a : Action) (session : Session)
      → (perform a session).access_token ≡ token_after a session.access_token
  unfolding submit_login sso_callback log_out on_response_error reload
  perform_token (logged_in email answer) session = refl
  perform_token (returned none none) session = refl
  perform_token (returned none (some [])) session = refl
  perform_token (returned none (some (c ∷ token))) session =
      accepted_token (c ∷ token) (reload session)
  perform_token (returned (some []) none) session = refl
  perform_token (returned (some []) (some [])) session = refl
  perform_token (returned (some []) (some (c ∷ token))) session =
      accepted_token (c ∷ token) (reload session)
  perform_token (returned (some (c ∷ error)) token) session = refl
  perform_token (logged_out true) session = refl
  perform_token (logged_out false) session = refl
  perform_token (failed error) session = ground arith
  perform_token reloaded session = refl

  pub run_token :
      (actions : List Action) (session : Session)
      → (run actions session).access_token ≡ token_run actions session.access_token
  run_token [] session = refl
  run_token (a ∷ actions) session =
      run_token actions (perform a session) ∙ ap (token_run actions) (perform_token a session)

  -- After any sequence of logins on the login page, returns from the SSO provider, logouts, failed
  -- requests and reloads, a request carries exactly the token of the last login, or of the last return
  -- without an error and with a token, which may be one that cannot be decoded, that no logout and no
  -- answer with status 401 has followed, or that of before if there was neither; an empty token is not
  -- sent.
  pub authorization-run :
      (actions : List Action) (session : Session)
      → authorization (run actions session) ≡ bearer (token_run actions session.access_token)
  authorization-run actions session =
      authorization-bearer (run actions session) ∙ ap bearer (run_token actions session)

  perform-IsSound :
      (a : Action) (session : Session) → IsSound session.store → IsSound (perform a session).store
  unfolding submit_login sso_callback accept_token log_out on_response_error reload
  perform-IsSound (logged_in email answer) session h = inl (refl, λ e. cc)
  perform-IsSound (returned error token) session h = ground arith
  perform-IsSound (logged_out true) session h = inr (refl, refl, refl)
  perform-IsSound (logged_out false) session h = inr (refl, refl, refl)
  perform-IsSound (failed error) session h = ground arith
  perform-IsSound reloaded session h = inr (refl, refl, refl)

  -- Through any such sequence the store stays sound: authenticated with a token, or neither
  -- authenticated nor with a token or a user.
  run-IsSound :
      (actions : List Action) (session : Session)
      → IsSound session.store
      → IsSound (run actions session).store
  run-IsSound [] session h = h
  run-IsSound (a ∷ actions) session h =
      run-IsSound actions (perform a session) (perform-IsSound a session h)
