-- ===== src/Frontend/Pages/Integrations/Configured.antt =====
-- Which values the configuration of an integration is sent with.
use trust_vault.Prelude.{
  ◌≡◌, refl, ap, ◌∙◌, String, str_eq, List, [], ◌∷◌, Option, none, some, Text, if◌then◌else◌,
}
use trust_vault.Sdk.Value.{Value, Fields, undefined, lookup, lookup-put, member}
use trust_vault.Frontend.Pages.Integrations.{
  IntegrationForm, IntegrationPage, initial_form, select_type, handle_config_change,
  load_integration, start_edit, change_config, cancel_edit, integration_body, save_body,
}

-- The form of a new integration: a type is chosen, or a field is changed.
pub data Entry : Type 0 where
  chosen : Text → Entry
  entered : String → Value → Entry

abbrev pub enter : Entry → IntegrationForm → IntegrationForm
enter (Entry.chosen type) form = select_type type form
enter (Entry.entered name value) form = handle_config_change name value form

abbrev pub enter_all : List Entry → IntegrationForm → IntegrationForm
enter_all [] form = form
enter_all (e ∷ entries) form = enter_all entries (enter e form)

-- The value that was entered last for a field, under whatever type.
abbrev pub last_entered : String → Value → List Entry → Value
last_entered key v [] = v
last_entered key v (Entry.chosen type ∷ entries) = last_entered key v entries
last_entered key v (Entry.entered name value ∷ entries) =
    last_entered key (if str_eq name key then value else v) entries

-- The page of an integration: the query has another one, or a field is changed, or an edit is cancelled.
pub data Change : Type 0 where
  loaded : Option Fields → Change
  started cancelled : Change
  changed : String → Value → Change

abbrev pub apply : Change → IntegrationPage → IntegrationPage
apply (Change.loaded config) page = load_integration config page
apply Change.started page = start_edit page
apply Change.cancelled page = cancel_edit page
apply (Change.changed name value) page = change_config name value page

abbrev pub apply_all : List Change → IntegrationPage → IntegrationPage
apply_all [] page = page
apply_all (c ∷ changes) page = apply_all changes (apply c page)

-- The value that was entered last for a field since the configuration was loaded or an edit was
-- cancelled, or else the one that was loaded: from what is stored and what is shown.
abbrev pub last_changed : String → Value → Value → List Change → Value
last_changed key stored v [] = v
last_changed key stored v (Change.loaded none ∷ changes) = last_changed key undefined v changes
last_changed key stored v (Change.loaded (some config) ∷ changes) =
    last_changed key (lookup key config) (lookup key config) changes
last_changed key stored v (Change.started ∷ changes) = last_changed key stored v changes
last_changed key stored v (Change.cancelled ∷ changes) = last_changed key stored stored changes
last_changed key stored v (Change.changed name value ∷ changes) =
    last_changed key stored (if str_eq name key then value else v) changes

lookup-enter_all :
    (key : String) (entries : List Entry) (form : IntegrationForm)
    → lookup key (enter_all entries form).config ≡ last_entered key (lookup key form.config) entries
lookup-enter_all key [] form = refl
lookup-enter_all key (Entry.chosen type ∷ entries) form =
    lookup-enter_all key entries (select_type type form)
lookup-enter_all key (Entry.entered name value ∷ entries) form =
    lookup-enter_all key entries (handle_config_change name value form)
    ∙ ap (λ v. last_entered key v entries) (lookup-put name key value form.config)

lookup-apply_all :
    (key : String) (changes : List Change) (page : IntegrationPage)
    → lookup key (apply_all changes page).edit_config
      ≡ last_changed key (lookup key page.stored) (lookup key page.edit_config) changes
unfolding load_integration
lookup-apply_all key [] page = refl
lookup-apply_all key (Change.loaded none ∷ changes) page =
    lookup-apply_all key changes (load_integration none page)
lookup-apply_all key (Change.loaded (some config) ∷ changes) page =
    lookup-apply_all key changes (load_integration (some config) page)
lookup-apply_all key (Change.started ∷ changes) page =
    lookup-apply_all key changes (start_edit page)
lookup-apply_all key (Change.cancelled ∷ changes) page =
    lookup-apply_all key changes (cancel_edit page)
lookup-apply_all key (Change.changed name value ∷ changes) page =
    lookup-apply_all key changes (change_config name value page)
    ∙ ap (λ v. last_changed key (lookup key page.stored) v changes)
        (lookup-put name key value page.edit_config)

-- What is sent of a new integration holds, in its configuration, the values that were entered last for
-- each field, under whatever type they were entered; and what is sent of an integration that is edited
-- those that were entered last since it was loaded, or since an edit was cancelled, also where it was
-- loaded anew during the edit, and otherwise those that were loaded.
pub lookup-config :
    (key : String) (entries : List Entry) (changes : List Change) (page : IntegrationPage)
    → (member key (member "config" (integration_body (enter_all entries initial_form)))
        ≡ last_entered key undefined entries)
      × (member key (member "config" (save_body (apply_all changes page)))
          ≡ last_changed key (lookup key page.stored) (lookup key page.edit_config) changes)
unfolding integration_body
lookup-config key entries changes page =
    (lookup-enter_all key entries initial_form, lookup-apply_all key changes page)
