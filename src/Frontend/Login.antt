-- ===== src/Frontend/Login.antt =====
-- app/(auth)/login/page.tsx and app/(auth)/auth/sso-callback/page.tsx: the two ways into a session. The
-- validation of the form, the list of SSO providers and the toasts are not modelled. The service's
-- answer to a login has an access token. What `JSON.parse(atob(part))` gives is a parameter: `none` where
-- it throws or gives `null`, whose reading throws; and else the fields that the page reads, each a text
-- or missing.
use trust_vault.Prelude.{
  Bool, false, Option, none, some, List, [], ◌∷◌, Text, text, truthy_text, split_on, if◌then◌else◌,
}
use trust_vault.Frontend.Session.{Role, User, LoginResponse, Session, next_refresh, login, reload}
use trust_vault.Frontend.Layout.{text_or, first_of}

-- The user that the login page stores.
unfoldable email_user : Text → User
unfolding text split_on
email_user email = record {
  id = [];
  email = email;
  name = first_of (split_on b'@' email);
  role = Role.admin;
  avatar = none;
  tenant_id = [];
}

-- `onSubmit` of the login page, when the service has accepted the login.
unfoldable pub submit_login : Text → LoginResponse → Session → Session
unfolding login email_user text
submit_login email answer session = record session {
  store = login answer.access_token (email_user email) session.store;
  access_token = some answer.access_token;
  refresh_token = next_refresh answer.refresh_token session.refresh_token;
  location = text "/dashboard";
}

pub record SsoPayload : Type 0 where
  pub sub : Option Text
  pub email : Option Text
  pub name : Option Text
  pub tenant_id : Option Text

-- `token.split('.')[1]`; without a second part `atob` throws.
abbrev second_of : List Text → Option Text
second_of (header ∷ payload ∷ rest) = some payload
second_of _ = none

-- `payload.email?.split('@')[0]`
abbrev email_start : Option Text → Option Text
email_start none = none
email_start (some email) = some (first_of (split_on b'@' email))

unfoldable sso_user_of : SsoPayload → User
unfolding split_on
sso_user_of payload = record {
  id = text_or payload.sub [];
  email = text_or payload.email [];
  name = text_or payload.name (text_or (email_start payload.email) []);
  role = Role.sso_user;
  avatar = none;
  tenant_id = text_or payload.tenant_id [];
}

abbrev is_present : Option Text → Bool
is_present none = false
is_present (some t) = truthy_text t

module _ (parse_payload : Text → Option SsoPayload) where
  unfoldable decode_token : Text → Option SsoPayload
  unfolding split_on
  decode_token token = elim (second_of (split_on b'.' token)) [
    | none ↦ none
    | some part ↦ parse_payload part
  ]

  -- With a token: the cookie is set before the token is decoded.
  unfoldable pub accept_token : Text → Session → Session
  unfolding decode_token login sso_user_of text
  accept_token token session = elim (decode_token token) [
    | none ↦ record session { access_token = some token; location = text "/login" }
    | some payload ↦ record session {
      store = login token (sso_user_of payload) session.store;
      access_token = some token;
      location = text "/dashboard";
    }
  ]

  -- The effect of the callback page, by the `error` and the `token` of its address.
  unfoldable pub sso_callback : Option Text → Option Text → Session → Session
  unfolding accept_token text
  sso_callback error token session =
      if is_present error then record session { location = text "/login" } else elim token [
        | none ↦ record session { location = text "/login" }
        | some t ↦
            if truthy_text t
            then accept_token t session
            else record session { location = text "/login" }
      ]

  -- The service redirects the browser to this page, which is loaded.
  abbrev pub return_from_sso : Option Text → Option Text → Session → Session
  return_from_sso error token session = sso_callback error token (reload session)
