-- ===== src/Frontend/Pages/Integrations.antt =====
-- app/(app)/integrations/new/page.tsx and app/(app)/integrations/[id]/page.tsx: the form of a new
-- integration, and the configuration, the test and the deletion of one. The fields that each type has
-- and the visibility of passwords are not modelled.
pub mod Configured
use trust_vault.Prelude.{
  Bool, true, false, String, List, [], ◌∷◌, Option, none, some, get_or, Text, text, text_eq,
  truthy_text, if◌then◌else◌,
}
use trust_vault.Sdk.Value.{
  Value, Fields, str, bool, obj, field, end, put, member, coalesce, undefined,
}
use trust_vault.Frontend.Session.{or_else}

pub record IntegrationType : Type 0 where
  pub value : Text
  pub label : Text
  pub category : Text

unfoldable integration_type : String → String → String → IntegrationType
unfolding text
integration_type value label category = record {
  value = text value;
  label = text label;
  category = text category;
}

unfoldable pub integration_types : List IntegrationType
unfolding integration_type
integration_types =
    integration_type "slack" "Slack" "Notifications"
    ∷ integration_type "teams" "Microsoft Teams" "Notifications"
    ∷ integration_type "email" "Email (SMTP)" "Notifications"
    ∷ integration_type "webhook" "Webhook" "Notifications"
    ∷ integration_type "pinecone" "Pinecone" "Vector Databases"
    ∷ integration_type "qdrant" "Qdrant" "Vector Databases"
    ∷ integration_type "weaviate" "Weaviate" "Vector Databases"
    ∷ integration_type "chroma" "Chroma" "Vector Databases"
    ∷ integration_type "openai" "OpenAI" "LLM Providers"
    ∷ integration_type "anthropic" "Anthropic" "LLM Providers"
    ∷ integration_type "azure_openai" "Azure OpenAI" "LLM Providers"
    ∷ integration_type "aws_bedrock" "AWS Bedrock" "LLM Providers"
    ∷ integration_type "ollama" "Ollama" "LLM Providers"
    ∷ []

pub record IntegrationForm : Type 0 where
  pub name : Text
  pub type : Text
  pub provider : Text
  pub config : Fields

abbrev pub initial_form : IntegrationForm
initial_form = record { name = []; type = text "slack"; provider = []; config = end }

-- The radio of a type, and `handleConfigChange`.
abbrev pub select_type : Text → IntegrationForm → IntegrationForm
select_type type form = record form { type = type }

abbrev pub handle_config_change : String → Value → IntegrationForm → IntegrationForm
handle_config_change name value form = record form { config = put name value form.config }

-- `data.provider || selectedType?.label || data.type`
abbrev pub label_of_type : Text → List IntegrationType → Text
label_of_type type [] = type
label_of_type type (t ∷ types) =
    if text_eq t.value type
    then (if truthy_text t.label then t.label else type)
    else label_of_type type types

abbrev pub provider_of : IntegrationForm → Text
provider_of form =
    if truthy_text form.provider then form.provider else label_of_type form.type integration_types

unfoldable pub integration_body : IntegrationForm → Value
integration_body form = obj (
    field "name" (str form.name) (
      field "type" (str form.type)
        (field "provider" (str (provider_of form)) (field "config" (obj form.config) end))))

pub record TestResult : Type 0 where
  pub success : Value
  pub message : Value
  pub latency_ms : Value

-- The page of an integration: `stored` is the configuration of the one that the query holds.
pub record IntegrationPage : Type 0 where
  pub stored : Fields
  pub is_editing : Bool
  pub edit_config : Fields
  pub test_result : Option TestResult
  pub delete_dialog_open : Bool
  pub location : Option Text

-- The effect of `[integration]`, where the query has another one, with `configData`: without a
-- configuration nothing is set, and one that is no object is empty.
unfoldable pub load_integration : Option Fields → IntegrationPage → IntegrationPage
load_integration none page = record page { stored = end }
load_integration (some config) page = record page { stored = config; edit_config = config }

abbrev pub start_edit : IntegrationPage → IntegrationPage
start_edit page = record page { is_editing = true }

abbrev pub change_config : String → Value → IntegrationPage → IntegrationPage
change_config name value page = record page { edit_config = put name value page.edit_config }

abbrev pub cancel_edit : IntegrationPage → IntegrationPage
cancel_edit page = record page { is_editing = false; edit_config = page.stored }

-- What `handleSaveConfig` sends, and its end by whether the service accepted; `refetch` follows.
abbrev pub save_body : IntegrationPage → Value
save_body page = obj (field "config" (obj page.edit_config) end)

unfoldable pub end_save_config : Bool → IntegrationPage → IntegrationPage
end_save_config true page = record page { is_editing = false }
end_save_config false page = page

-- `handleTest` up to its `await`, and from there: the result, or what the error says.
unfoldable pub begin_test : IntegrationPage → IntegrationPage
begin_test page = record page { test_result = none }

unfoldable pub end_test : Value → IntegrationPage → IntegrationPage
unfolding text
end_test result page = record page {
  test_result = some (record {
    success = coalesce (member "success" result) (bool true);
    message = or_else (member "message" result) (str (text "Connection successful"));
    latency_ms = member "latency_ms" result;
  });
}

unfoldable pub fail_test : Value → Value → IntegrationPage → IntegrationPage
unfolding text
fail_test body_error message page = record page {
  test_result = some (record {
    success = bool false;
    message = or_else body_error (or_else message (str (text "Connection test failed")));
    latency_ms = undefined;
  });
}

-- The end of `handleDelete`.
unfoldable pub end_delete_integration : Bool → IntegrationPage → IntegrationPage
unfolding text
end_delete_integration true page = record page {
  delete_dialog_open = false;
  location = some (text "/integrations");
}
end_delete_integration false page = page
