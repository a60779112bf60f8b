-- ===== src/Frontend/Layout.antt =====
-- app/(app)/layout.tsx: the session that is restored from the cookie, and the way to the login page.
-- The decoding of a token's middle part, `JSON.parse(atob(part))`, is a parameter; the payload has the
-- type that the source declares.
pub mod Guard
use trust_vault.Prelude.{
  split_on, ℕ, Bool, true, false, ◌==◌, Option, none, some, get_or, List, [], ◌∷◌, Text, text,
  truthy_text, if◌then◌else◌,
}
use trust_vault.Frontend.Session.{Role, User, Session, login}

pub record Payload : Type 0 where
  pub sub : Option Text
  pub tenant_id : Option Text
  pub is_super_admin : Option Bool

abbrev middle_of : List Text → Option Text
middle_of (header ∷ payload ∷ signature ∷ []) = some payload
middle_of _ = none

-- `text || fallback`
abbrev pub text_or : Option Text → Text → Text
text_or none fallback = fallback
text_or (some t) fallback = if truthy_text t then t else fallback

-- `userEmail.split('@')[0]`
abbrev pub first_of : List Text → Text
first_of [] = []
first_of (part ∷ parts) = part

-- A decoding that throws gives `none`.
module _ (parse_payload : Text → Option Payload) where
  unfoldable pub decode_jwt : Text → Option Payload
  decode_jwt token = elim (middle_of (split_on b'.' token)) [
    | none ↦ none
    | some part ↦ parse_payload part
  ]

  abbrev sub_of : Option Payload → Option Text
  sub_of none = none
  sub_of (some payload) = payload.sub

  abbrev tenant_of : Option Payload → Option Text
  tenant_of none = none
  tenant_of (some payload) = payload.tenant_id

  abbrev is_super : Option Payload → Bool
  is_super none = false
  is_super (some payload) = get_or payload.is_super_admin false

  unfoldable pub restored_user : Option Payload → User
  restored_user payload =
      let user_email = text_or (sub_of payload) (text "user") in
      record {
        id = text_or (sub_of payload) [];
        email = user_email;
        name = if is_super payload then text "Super Admin" else first_of (split_on b'@' user_email);
        role = if is_super payload then Role.superadmin else Role.admin;
        avatar = none;
        tenant_id = text_or (tenant_of payload) [];
      }

  -- The first effect, when the layout is mounted.
  unfoldable pub restore : Session → Session
  unfolding login decode_jwt restored_user
  restore session = elim session.access_token [
    | none ↦ session
    | some token ↦
        if truthy_text token
        then (if session.store.is_authenticated then session else record session {
          store = login token (restored_user (decode_jwt token)) session.store;
        })
        else session
  ]

-- The second effect, once the first has run and whenever the store changes.
abbrev has_token : Option Text → Bool
has_token none = false
has_token (some token) = truthy_text token

unfoldable pub guard : Session → Session
guard session =
    if session.store.is_authenticated
    then session
    else if has_token session.access_token
    then session
    else record session { location = text "/login" }

-- The layout as it is mounted.
unfoldable pub open_app : (Text → Option Payload) → Session → Session
unfolding restore guard
open_app parse_payload session = guard (restore parse_payload session)
