-- ===== src/Sdk/Auth.antt =====
-- auth.ts: the format of an API key, the authentication headers, and the mask for logs.
pub mod Key
use trust_vault.Prelude.{
  ℕ, Bool, not, ◌||◌, Option, none, some, ◌++◌, Text, text, truthy_text, starts_with, slice,
  slice_last, length, ltb, if◌then◌else◌,
}
use trust_vault.Sdk.Value.{str, Fields, end, field, put}
use trust_vault.Sdk.Errors.{sdk, no_options, auth_error}
use trust_vault.Sdk.Effect.{Result, ok, throw}

abbrev pub api_key_prefix : Text
api_key_prefix = text "sl_"

abbrev pub api_key_min_length : ℕ
api_key_min_length = 32

unfoldable pub validate_api_key : Text → Result (Unit {0})
validate_api_key api_key =
    if not (truthy_text api_key)
    then throw (sdk (auth_error (some (text "API key is required.")) no_options))
    else if not (starts_with api_key_prefix api_key)
    then throw (
        sdk (
          auth_error (some (text "Invalid API key format. API key must start with \"sl_\"."))
            no_options))
    else if ltb (length api_key) api_key_min_length
    then throw (
        sdk (
          auth_error (some (text "Invalid API key format. API key must be at least 32 characters."))
            no_options))
    else ok tt

-- `if (tenantId)`: an empty text counts as no tenant.
abbrev pub add_tenant : Option Text → Fields → Fields
add_tenant none headers = headers
add_tenant (some t) headers = if truthy_text t then put "X-Tenant-ID" (str t) headers else headers

unfoldable pub create_auth_headers : Text → Option Text → Fields
create_auth_headers api_key tenant_id = add_tenant tenant_id (
    field "Authorization" (str (text "Bearer " ++ api_key))
      (field "Content-Type" (str (text "application/json")) end))

unfoldable pub mask_api_key : Text → Text
mask_api_key api_key =
    if not (truthy_text api_key) || ltb (length api_key) 12
    then text "***"
    else slice 0 6 api_key ++ (text "..." ++ slice_last 4 api_key)

pub record AuthContext : Type 0 where
  pub api_key : Text
  pub tenant_id : Option Text
  pub headers : Fields

abbrev pub with_headers : Text → Option Text → Result (Unit {0}) → Result AuthContext
with_headers api_key tenant_id (ok _) = ok (record {
  api_key = api_key;
  tenant_id = tenant_id;
  headers = create_auth_headers api_key tenant_id;
})
with_headers api_key tenant_id (throw e) = throw e

unfoldable pub create_auth_context : Text → Option Text → Result AuthContext
unfolding validate_api_key create_auth_headers
create_auth_context api_key tenant_id = with_headers api_key tenant_id (validate_api_key api_key)
