-- ===== src/Frontend/Session.antt =====
-- The session: store/auth.ts, the logout of hooks/use-auth.ts, whose login no page uses, and the interceptors and
-- error handling of lib/api.ts. A cookie is there until it is removed: its expiry is not modelled.
pub mod Tokens
use trust_vault.Prelude.{
  ℕ, Bool, true, false, Option, none, some, List, [], Text, text, truthy_text, ◌++◌, ◌==◌,
  if◌then◌else◌,
}
use trust_vault.Sdk.Value.{Value, undefined, member, truthy, str}

-- The roles of the declared type, and those that layout.tsx and the SSO callback store besides: the
-- latter is 'user'.
pub data Role : Type 0 where
  admin editor viewer superadmin sso_user : Role

pub record User : Type 0 where
  pub id : Text
  pub email : Text
  pub name : Text
  pub role : Role
  pub avatar : Option Text
  pub tenant_id : Text

pub record AuthState : Type 0 where
  pub user : Option User
  pub token : Option Text
  pub is_loading : Bool
  pub error : Option Text
  pub is_authenticated : Bool

abbrev pub initial_auth : AuthState
initial_auth = record {
  user = none;
  token = none;
  is_loading = false;
  error = none;
  is_authenticated = false;
}

unfoldable pub set_user : Option User → AuthState → AuthState
set_user user state = record state { user = user }

unfoldable pub set_token : Option Text → AuthState → AuthState
set_token token state = record state { token = token }

unfoldable pub set_is_loading : Bool → AuthState → AuthState
set_is_loading is_loading state = record state { is_loading = is_loading }

unfoldable pub set_error : Option Text → AuthState → AuthState
set_error error state = record state { error = error }

unfoldable pub login : Text → User → AuthState → AuthState
login token user state = record state {
  token = some token;
  user = some user;
  is_authenticated = true;
  error = none;
}

unfoldable pub logout : AuthState → AuthState
logout state = record state { user = none; token = none; is_authenticated = false; error = none }

unfoldable pub clear_error : AuthState → AuthState
clear_error state = record state { error = none }

-- The store, the two cookies, the page that the browser shows, and the keys of the queries that the
-- query client holds. Toasts are not modelled.
pub record Session : Type 0 where
  pub store : AuthState
  pub access_token : Option Text
  pub refresh_token : Option Text
  pub location : Text
  pub cached_queries : List Text

pub record LoginResponse : Type 0 where
  pub access_token : Text
  pub refresh_token : Option Text
  pub expires_in : ℕ

-- `if (refresh_token) Cookies.set('refreshToken', …)`
abbrev pub next_refresh : Option Text → Option Text → Option Text
next_refresh none old = old
next_refresh (some t) old = if truthy_text t then some t else old

-- `onSettled` of `useLogout`, which runs whether the service answered or not.
abbrev pub logout_settled : Session → Session
logout_settled session = record session {
  store = logout session.store;
  access_token = none;
  refresh_token = none;
}

-- `onSuccess` of `useLogout`.
abbrev pub logout_succeeded : Session → Session
logout_succeeded session = record session {
  store = logout session.store;
  access_token = none;
  refresh_token = none;
  location = text "/login";
  cached_queries = [];
}

-- `useLogout`, by whether the service answered.
unfoldable pub log_out : Bool → Session → Session
unfolding logout
log_out true session = logout_settled (logout_succeeded session)
log_out false session = logout_settled session

-- The request interceptor: the Authorization header, if one is set.
unfoldable pub authorization : Session → Option Text
authorization session = elim session.access_token [
  | none ↦ none
  | some t ↦ if truthy_text t then some (text "Bearer " ++ t) else none
]

-- The error of a request, as axios gives it; `content` is its `data`.
pub record ErrorResponse : Type 0 where
  pub status : ℕ
  pub content : Value

pub record AxiosError : Type 0 where
  pub message : Text
  pub response : Option ErrorResponse

abbrev expired : Session → Session
expired session = record session {
  access_token = none;
  refresh_token = none;
  location = text "/login";
}

-- The response interceptor for an error. Setting the location loads the page anew, which is `reload`.
unfoldable pub on_response_error : AxiosError → Session → Session
on_response_error error session = elim error.response [
  | none ↦ session
  | some response ↦ if response.status == 401 then expired session else session
]

-- A page that is loaded has a new store and an empty query client, and the cookies of before.
unfoldable pub reload : Session → Session
reload session = record session { store = initial_auth; cached_queries = [] }

pub record ApiError : Type 0 where
  pub message : Value
  pub code : Value
  pub status : Option ℕ

-- `a || b`
abbrev pub or_else : Value → Value → Value
or_else a b = if truthy a then a else b

-- `handleApiError`; `none` is an error that axios did not make.
unfoldable pub handle_api_error : Option AxiosError → ApiError
handle_api_error none = record {
  message = str (text "An unknown error occurred");
  code = undefined;
  status = none;
}
handle_api_error (some error) = elim error.response [
  | none ↦ record { message = str error.message; code = undefined; status = none }
  | some response ↦ record {
    message = or_else (member "message" response.content) (str error.message);
    code = member "code" response.content;
    status = some response.status;
  }
]
