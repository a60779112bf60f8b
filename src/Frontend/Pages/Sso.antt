-- ===== src/Frontend/Pages/Sso.antt =====
-- app/(app)/settings/sso/page.tsx: the providers of the single sign-on, and the form of a provider. An
-- optional text that a provider lacks is the empty text, for which the form takes the same.
pub mod Editing
use trust_vault.Prelude.{
  Bool, true, false, not, List, [], ◌∷◌, ◌++◌, Option, none, some, get_or, Text, text, truthy_text,
  filter, split_on, trim, map, if◌then◌else◌,
}

pub data Protocol : Type 0 where
  oidc saml : Protocol

pub record SsoProvider : Type 0 where
  pub id : Text
  pub name : Text
  pub type : Protocol
  pub enabled : Bool
  pub issuer_url : Text
  pub client_id : Text
  pub scopes : Option (List Text)
  pub idp_metadata_url : Text
  pub idp_entity_id : Text
  pub idp_sso_url : Text
  pub sp_entity_id : Option Text
  pub default_role : Text
  pub auto_create_users : Bool
  pub created_at : Text

-- The form; its scopes are one text.
pub record SsoForm : Type 0 where
  pub name : Text
  pub type : Protocol
  pub enabled : Bool
  pub issuer_url : Text
  pub client_id : Text
  pub client_secret : Text
  pub scopes : Text
  pub idp_metadata_url : Text
  pub idp_entity_id : Text
  pub idp_sso_url : Text
  pub idp_certificate : Text
  pub default_role : Text
  pub auto_create_users : Bool

-- `a || b` on texts.
abbrev pub given_or : Text → Text → Text
given_or a b = if truthy_text a then a else b

-- `scopes.join(', ')`
abbrev pub join_scopes : List Text → Text
join_scopes [] = []
join_scopes (s ∷ []) = s
join_scopes (s ∷ t ∷ scopes) = s ++ (44 ∷ 32 ∷ join_scopes (t ∷ scopes))

abbrev pub default_scopes : Text
default_scopes = text "openid, email, profile"

abbrev pub scopes_text : Option (List Text) → Text
scopes_text none = default_scopes
scopes_text (some scopes) = given_or (join_scopes scopes) default_scopes

unfoldable pub open_form : Option SsoProvider → SsoForm
unfolding text
open_form none = record {
  name = [];
  type = Protocol.oidc;
  enabled = true;
  issuer_url = [];
  client_id = [];
  client_secret = [];
  scopes = default_scopes;
  idp_metadata_url = [];
  idp_entity_id = [];
  idp_sso_url = [];
  idp_certificate = [];
  default_role = text "user";
  auto_create_users = true;
}
open_form (some provider) = record {
  name = provider.name;
  type = provider.type;
  enabled = provider.enabled;
  issuer_url = provider.issuer_url;
  client_id = provider.client_id;
  client_secret = [];
  scopes = scopes_text provider.scopes;
  idp_metadata_url = provider.idp_metadata_url;
  idp_entity_id = provider.idp_entity_id;
  idp_sso_url = provider.idp_sso_url;
  idp_certificate = [];
  default_role = given_or provider.default_role (text "user");
  auto_create_users = provider.auto_create_users;
}

-- `text.split(',').map(s => s.trim()).filter(Boolean)`
unfoldable pub read_scopes : Text → List Text
unfolding split_on trim
read_scopes scopes = filter truthy_text (map trim (split_on 44 scopes))

-- What `handleSubmit` sends: the form with its scopes as a list, to the provider or as a new one.
pub record ProviderPayload : Type 0 where
  pub form : SsoForm
  pub scopes : List Text

pub data SsoRequest : Type 0 where
  put : Text → ProviderPayload → SsoRequest
  post : ProviderPayload → SsoRequest

unfoldable pub payload : SsoForm → ProviderPayload
unfolding read_scopes
payload form = record { form = form; scopes = read_scopes form.scopes }

unfoldable pub handle_submit : Option SsoProvider → SsoForm → SsoRequest
unfolding payload
handle_submit none form = SsoRequest.post (payload form)
handle_submit (some provider) form = SsoRequest.put provider.id (payload form)

pub record SsoPage : Type 0 where
  pub providers : List SsoProvider
  pub loading : Bool
  pub show_modal : Bool
  pub editing_provider : Option SsoProvider
  pub toasts : List Text

-- `fetchProviders` from the answer on: `none` is a request that fails, and `some none` an empty body.
unfoldable pub end_fetch : Option (Option (List SsoProvider)) → SsoPage → SsoPage
unfolding text
end_fetch none page = record page {
  loading = false;
  toasts = text "Failed to load SSO providers" ∷ page.toasts;
}
end_fetch (some providers) page = record page { loading = false; providers = get_or providers [] }

-- The toast of a deletion and of a switch, by whether the service accepted; `fetchProviders` follows.
unfoldable pub end_delete : Bool → SsoPage → SsoPage
unfolding text
end_delete true page = record page { toasts = text "SSO provider deleted" ∷ page.toasts }
end_delete false page = record page { toasts = text "Failed to delete SSO provider" ∷ page.toasts }

-- What `handleToggle` sends, and its toast.
abbrev pub toggle_body : SsoProvider → Bool
toggle_body provider = not provider.enabled

unfoldable pub end_toggle : SsoProvider → Bool → SsoPage → SsoPage
unfolding text
end_toggle provider true page = record page {
  toasts =
      (text "SSO provider " ++ (if provider.enabled then text "disabled" else text "enabled"))
      ∷ page.toasts;
}
end_toggle provider false page = record page {
  toasts = text "Failed to update SSO provider" ∷ page.toasts;
}

-- The dialog: 'Add Provider', the button of a provider, 'Add Your First Provider', and its closing.
abbrev pub add_provider : SsoPage → SsoPage
add_provider page = record page { editing_provider = none; show_modal = true }

abbrev pub edit_provider : SsoProvider → SsoPage → SsoPage
edit_provider provider page = record page { editing_provider = some provider; show_modal = true }

abbrev pub add_first : SsoPage → SsoPage
add_first page = record page { show_modal = true }

abbrev pub close_modal : SsoPage → SsoPage
close_modal page = record page { show_modal = false; editing_provider = none }
