-- ===== src/Frontend/Tests/Forms.antt =====
-- Tests of the pages with forms, lists and polls.
use trust_vault.Prelude.{
  truthy_text, trim, ℕ, ◌≤◌, ◌==◌, ◌≡◌, refl, true, false, not, List, [], ◌∷◌, none, some, Text,
  text, All, filter, arith, if◌then◌else◌, ◌||◌,
}
use trust_vault.Sdk.Value.{
  bool, Fields, str, num, obj, field, end, undefined, member, truthy, Value,
}
use trust_vault.Frontend.Pages.Documents.{
  Action as Event, begun, extracted, ticked, polled, File, Instant, FileIcon, file_icon,
}
use trust_vault.Frontend.Pages.Documents.Polling.{run as run_documents}
use trust_vault.Frontend.Pages.Jobs.{Job, Sent, load_form, handle_submit}
use trust_vault.Frontend.Pages.Jobs.Form.{handle_submit-load_form}
use trust_vault.Frontend.Pages.NewDataSource.{DataSourceForm, create_body, Effect, after_create}
use trust_vault.Frontend.Pages.NewDataSource.Configs.{
  with_user, with_neither, sent, create_body_credentials,
}
use trust_vault.Frontend.Pages.Consent.{Purpose, initial_center, save_request}
use trust_vault.Frontend.Pages.Consent.Saving.{
  Action as ConsentEvent, typed, began, answered as found_prefs, clicked, run as run_consent,
  last_typed, save_request-run, sent_for, sent_value, for_subject, unless_blank, shown_value, step,
}
use trust_vault.Frontend.Pages.Sso.{
  SsoProvider, Protocol, SsoRequest, open_form, join_scopes, read_scopes,
  handle_submit as save_provider, default_scopes,
}
use trust_vault.Frontend.Pages.Sso.Editing.{IsScope, handle_submit-open_form}
use trust_vault.Frontend.Pages.Endpoints.{Endpoint, EndpointsPage, ok, refused}
use trust_vault.Frontend.Pages.Endpoints.Listed.{
  Action, scan_ended, deleted, run, ids, IsAnswered, is_deleted, ids-run,
}
use trust_vault.Frontend.Pages.Playbooks.{PlaybooksPage, has, handle_select_issue, completed_count}
use trust_vault.Frontend.Pages.Playbooks.Progress.{
  toggle_all, parity, sum_below, toggle_all-handle_select_issue,
}
use trust_vault.Frontend.Pages.Integrations.{
  IntegrationPage, initial_form, integration_body, save_body,
}
use trust_vault.Frontend.Pages.Integrations.Configured.{
  Entry, entered, chosen, enter_all, last_entered, Change, loaded, started, changed, apply_all,
  last_changed, lookup-config,
}

abbrev now : Instant
now = record { millis = 1700000000000; iso = text "2023-11-14T22:13:20.000Z" }

abbrev report : File
report = record { name = text "report.pdf"; type = text "application/pdf" }

abbrev uploads : List Event
uploads =
    begun report
    ∷ extracted now report (obj (field "extraction_id" (str (text "e1")) end)) (text "%PDF")
    ∷ ticked 0
    ∷ ticked 0
    ∷ polled 0 false
    ∷ []

file_icon_test : file_icon (λ t. t) report.name ≡ FileIcon.pdf
unfolding file_icon text
file_icon_test = refl

abbrev nightly : Job
nightly = record {
  id = text "7";
  name = text "Nightly";
  type = text "scan";
  schedule = text "30 1 * * *";
  status = text "completed";
  config = undefined;
}

handle_submit-load_form_example :
    (body : Value) × (handle_submit (some nightly) (load_form (some nightly))
      ≡ Sent.updated nightly.id body)
    × (member "name" body ≡ str nightly.name)
    × (member "type" body ≡ str nightly.type)
    × (member "schedule" body ≡ str nightly.schedule)
    × (member "config" body ≡ (if truthy nightly.config then nightly.config else obj end))
handle_submit-load_form_example = handle_submit-load_form nightly

abbrev kafka : DataSourceForm
kafka = record {
  name = text "Events";
  type = text "kafka";
  host = [];
  port = [];
  database = [];
  username = text "app";
  password = text "secret";
  bucket = [];
  region = [];
  connection_string = text "kafka:9092";
  account = [];
  warehouse = [];
  project_id = [];
  dataset = [];
}

create_body_credentials_example :
    let config = member "config" (create_body (λ t. num 0) kafka) in
    (member "username" config ≡ (if with_user kafka.type then sent kafka.username else undefined))
    × (member "password" config ≡ (if with_user kafka.type then sent kafka.password else undefined))
    × (member "connection_string" config ≡ (
        if with_user kafka.type || with_neither kafka.type
        then undefined
        else sent kafka.connection_string))
create_body_credentials_example = create_body_credentials (λ t. num 0) kafka

after_create_test :
    after_create none (some (record { id = text "9"; region = [] })) none
    ≡ Effect.wait 3000
      ∷ Effect.fetch (text "/datasources/9") (text "Bearer null")
      ∷ Effect.push (text "/data-sources")
      ∷ []
unfolding after_create text
after_create_test = refl

abbrev endpoint : Text → Endpoint
endpoint id = record { id = id; risk_level = text "high"; status = text "pending" }

abbrev endpoints : EndpointsPage
endpoints = record {
  endpoints = endpoint (text "a") ∷ endpoint (text "b") ∷ [];
  loading = false;
  scanning_id = none;
  notification = none;
  timers = 0;
}

-- The scan of 'a' is answered after 'a' was deleted.
abbrev late_scan : List Action
late_scan =
    deleted (text "a") (ok tt)
    ∷ scan_ended (text "a") (ok (endpoint (text "a")))
    ∷ deleted (text "b") (refused 500)
    ∷ []

answered : All IsAnswered late_scan
unfolding text
answered = (tt, (refl, (tt, tt)))

ids-run_example :
    ids (run late_scan endpoints).endpoints
    ≡ filter (λ id. not (is_deleted late_scan id)) (ids endpoints.endpoints)
ids-run_example = ids-run late_scan endpoints answered

abbrev playbooks : PlaybooksPage
playbooks = record { selected_issue = none; completed_steps = 9 ∷ [] }

toggle_all-handle_select_issue_example :
    let after =
      toggle_all (0 ∷ 2 ∷ 0 ∷ 1 ∷ []) (handle_select_issue (text "data_breach") playbooks) in
    ((i : ℕ) → has i after.completed_steps ≡ (parity i 0 (0 ∷ 2 ∷ 0 ∷ 1 ∷ []) == 1))
    × (completed_count after ≡ sum_below 4 (λ i. parity i 0 (0 ∷ 2 ∷ 0 ∷ 1 ∷ [])))
    × (completed_count after ≤ 4)
toggle_all-handle_select_issue_example =
    toggle_all-handle_select_issue 4 (text "data_breach") (0 ∷ 2 ∷ 0 ∷ 1 ∷ []) playbooks
      (ground arith, (ground arith, (ground arith, (ground arith, tt))))

abbrev preferences : Fields
preferences = field "necessary" (bool true) (field "marketing" (bool false) end)

-- The preferences of one subject are looked up, one of them is clicked, and another subject is typed.
abbrev other_subject : List ConsentEvent
other_subject =
    typed (text "ann")
    ∷ began
    ∷ found_prefs (some (some preferences))
    ∷ clicked Purpose.marketing
    ∷ clicked Purpose.necessary
    ∷ typed (text "bob")
    ∷ []

save_request-run_example :
    let save = save_request (run_consent other_subject initial_center) in
    let subject = last_typed [] other_subject in
    (sent_for save ≡ for_subject subject (shown_value "analytics" none other_subject))
    × (sent_value "analytics" save
        ≡ unless_blank subject (shown_value "analytics" none other_subject))
save_request-run_example = save_request-run "analytics" other_subject

-- It is saved for the other.
save_of_test :
    save_request (run_consent other_subject initial_center)
    ≡ some (record {
      subject = text "bob";
      body = field "necessary" (bool true) (field "marketing" (bool true) end);
    })
unfolding text save_request step
save_of_test = refl

abbrev okta : SsoProvider
okta = record {
  id = text "3";
  name = text "Okta";
  type = Protocol.saml;
  enabled = true;
  issuer_url = [];
  client_id = [];
  scopes = some (text "openid" ∷ text "groups" ∷ []);
  idp_metadata_url = [];
  idp_entity_id = text "okta";
  idp_sso_url = text "https://okta";
  sp_entity_id = some (text "securelens");
  default_role = text "user";
  auto_create_users = false;
  created_at = text "2024-01-01T00:00:00Z";
}

okta_scopes : All IsScope (text "openid" ∷ text "groups" ∷ [])
unfolding text trim
okta_scopes = (
  record { no_comma = refl; is_trimmed = refl; is_given = refl },
  (record { no_comma = refl; is_trimmed = refl; is_given = refl }, tt),
)

okta_role : truthy_text okta.default_role ≡ true
unfolding text
okta_role = refl

-- The certificate of the provider is sent as an empty text.
handle_submit-open_form_example :
    save_provider (some okta) (open_form (some okta))
    ≡ SsoRequest.put okta.id (record {
      form = record {
        name = okta.name;
        type = Protocol.saml;
        enabled = true;
        issuer_url = [];
        client_id = [];
        client_secret = [];
        scopes = join_scopes (text "openid" ∷ text "groups" ∷ []);
        idp_metadata_url = [];
        idp_entity_id = okta.idp_entity_id;
        idp_sso_url = okta.idp_sso_url;
        idp_certificate = [];
        default_role = okta.default_role;
        auto_create_users = false;
      };
      scopes = text "openid" ∷ text "groups" ∷ [];
    })
handle_submit-open_form_example =
    handle_submit-open_form okta (text "openid") (text "groups" ∷ []) refl okta_scopes okta_role

default_scopes_test :
    read_scopes default_scopes ≡ text "openid" ∷ text "email" ∷ text "profile" ∷ []
unfolding read_scopes text
default_scopes_test = refl

abbrev filled_in : List Entry
filled_in =
    entered "webhook_url" (str (text "https://hooks"))
    ∷ chosen (text "pinecone")
    ∷ entered "api_key" (str (text "k1"))
    ∷ []

abbrev stored_config : Fields
stored_config = field "webhook_url" (str (text "https://stored")) end

abbrev edits : List Change
edits =
    started
    ∷ changed "webhook_url" (str (text "https://edited"))
    ∷ loaded (some stored_config)
    ∷ changed "channel" (str (text "#alerts"))
    ∷ []

abbrev integration_page : IntegrationPage
integration_page = record {
  stored = stored_config;
  is_editing = false;
  edit_config = stored_config;
  test_result = none;
  delete_dialog_open = false;
  location = none;
}

lookup-config_example :
    (member "webhook_url" (member "config" (integration_body (enter_all filled_in initial_form)))
      ≡ last_entered "webhook_url" undefined filled_in)
    × (member "webhook_url" (member "config" (save_body (apply_all edits integration_page)))
        ≡ last_changed "webhook_url"
            (str (text "https://stored"))
            (str (text "https://stored"))
            edits)
lookup-config_example = lookup-config "webhook_url" filled_in edits integration_page

filled_in_last : last_entered "webhook_url" undefined filled_in ≡ str (text "https://hooks")
filled_in_last = refl

edits_last :
    let stored = str (text "https://stored") in
    last_changed "webhook_url" stored stored edits ≡ stored
edits_last = refl
