-- ===== src/Frontend/Pages/Endpoints.antt =====
-- app/(app)/endpoints/page.tsx: the list of endpoints and what its buttons do, the form of a new
-- endpoint, and the platform that the browser is taken for. `toLowerCase` is a parameter. The texts of
-- failures that are not answers are parameters of what they lead to.
pub mod Platforms
pub mod Listed
use trust_vault.Prelude.{
  ℕ, ◌+◌, ◌-◌, Bool, true, false, not, List, [], ◌∷◌, ◌++◌, Option, none, some, get_or, Text, text,
  text_eq, truthy_text, decimal, filter, length, map, if◌then◌else◌,
}
use trust_vault.Sdk.Value.{Value, Fields, str, obj, field, end}

-- `authHeaders`, by the cookie that the library reads.
unfoldable pub auth_headers : Option Text → Text
unfolding text
auth_headers none = text "Bearer undefined"
auth_headers (some token) = text "Bearer " ++ token

pub record EndpointForm : Type 0 where
  pub name : Text
  pub url : Text
  pub method : Text
  pub auth_type : Text
  pub token : Text
  pub username : Text
  pub password : Text
  pub api_key : Text

-- `auth_config`: each condition adds its fields.
unfoldable pub auth_config : EndpointForm → Fields
unfolding text
auth_config form =
    let api_key =
      if text_eq form.auth_type (text "api_key") then field "key" (str form.api_key) end else end in
    let basic =
      if text_eq form.auth_type (text "basic")
      then field "username" (str form.username) (field "password" (str form.password) api_key)
      else api_key in
    if text_eq form.auth_type (text "bearer") then field "token" (str form.token) basic else basic

unfoldable pub endpoint_body : EndpointForm → Value
unfolding auth_config
endpoint_body form = obj (
    field "name" (str form.name) (
      field "url" (str form.url) (
        field "method" (str form.method) (
          field "auth_type" (str form.auth_type)
            (field "auth_config" (obj (auth_config form)) end)))))

pub record Endpoint : Type 0 where
  pub id : Text
  pub risk_level : Text
  pub status : Text

pub data Kind : Type 0 where
  success error : Kind

pub record Notification : Type 0 where
  pub msg : Text
  pub kind : Kind

-- `timers` counts those of `notify` that have not fired.
pub record EndpointsPage : Type 0 where
  pub endpoints : List Endpoint
  pub loading : Bool
  pub scanning_id : Option Text
  pub notification : Option Notification
  pub timers : ℕ

unfoldable pub notify : Text → Kind → EndpointsPage → EndpointsPage
notify msg kind page = record page {
  notification = some (record { msg = msg; kind = kind });
  timers = page.timers + 1;
}

unfoldable pub clear_notification : EndpointsPage → EndpointsPage
clear_notification page = record page { notification = none; timers = page.timers - 1 }

-- How a request ends: with an answer that is ok, with another status, or by throwing an error.
pub data Outcome (A : Type 0) : Type 0 where
  ok : A → Outcome A
  refused : ℕ → Outcome A
  thrown : Text → Outcome A

-- `fetchEndpoints`: the status is not read. The body is its list of endpoints, if it has one; `none` is
-- a request or a body that throws.
unfoldable pub begin_fetch : EndpointsPage → EndpointsPage
begin_fetch page = record page { loading = true }

unfoldable pub end_fetch : Option (Option (List Endpoint)) → EndpointsPage → EndpointsPage
unfolding notify text
end_fetch none page = record (notify (text "Failed to load endpoints") Kind.error page) {
  loading = false;
}
end_fetch (some endpoints) page = record page { endpoints = get_or endpoints []; loading = false }

-- `e.message || fallback`
abbrev pub message_or : Text → Text → Text
message_or message fallback = if truthy_text message then message else fallback

abbrev pub status_message : ℕ → Text
status_message s = text "HTTP " ++ decimal s

abbrev pub replace : Text → Endpoint → List Endpoint → List Endpoint
replace id updated endpoints =
    map (λ (ep : Endpoint). if text_eq ep.id id then updated else ep) endpoints

unfoldable pub begin_scan : Text → EndpointsPage → EndpointsPage
begin_scan id page = record page { scanning_id = some id }

unfoldable pub end_scan : Text → Outcome Endpoint → EndpointsPage → EndpointsPage
unfolding notify
end_scan id (Outcome.ok updated) page = record (notify (text "Scan complete") Kind.success page) {
  endpoints = replace id updated page.endpoints;
  scanning_id = none;
}
end_scan id (Outcome.refused s) page =
    record (notify (message_or (status_message s) (text "Scan failed")) Kind.error page) {
      scanning_id = none;
    }
end_scan id (Outcome.thrown message) page =
    record (notify (message_or message (text "Scan failed")) Kind.error page) { scanning_id = none }

abbrev pub without : Text → List Endpoint → List Endpoint
without id endpoints = filter (λ ep. not (text_eq ep.id id)) endpoints

-- `handleDelete` from the answer on; a dialog that is cancelled sends nothing.
unfoldable pub end_delete : Text → Outcome Unit → EndpointsPage → EndpointsPage
unfolding notify
end_delete id (Outcome.ok _) page = record (notify (text "Endpoint deleted") Kind.success page) {
  endpoints = without id page.endpoints;
}
end_delete id (Outcome.refused s) page =
    notify (message_or (status_message s) (text "Delete failed")) Kind.error page
end_delete id (Outcome.thrown message) page =
    notify (message_or message (text "Delete failed")) Kind.error page

-- The numbers above the list.
abbrev pub has_risk : Text → Endpoint → Bool
has_risk level ep = text_eq ep.risk_level level

abbrev pub critical : EndpointsPage → ℕ
critical page = length (filter (has_risk (text "critical")) page.endpoints)

abbrev pub high : EndpointsPage → ℕ
high page = length (filter (has_risk (text "high")) page.endpoints)

abbrev pub scanned : EndpointsPage → ℕ
scanned page = length (filter (λ ep. text_eq ep.status (text "scanned")) page.endpoints)
