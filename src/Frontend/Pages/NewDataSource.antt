-- ===== src/Frontend/Pages/NewDataSource.antt =====
-- app/(app)/data-sources/new/page.tsx: the search in the kinds of data sources, the configuration that
-- the form sends, and what follows the answer. `toLowerCase` and `parseInt` are parameters, and so is
-- the token that `localStorage` holds. A field of the form that is not filled in is the empty text.
pub mod Categories
pub mod Search
pub mod Configs
use trust_vault.Prelude.{
  ℕ, Bool, true, false, not, ◌||◌, String, List, [], ◌∷◌, ◌++◌, Option, none, some, Text, text,
  text_eq, one_of, truthy_text, includes, filter, map, if◌then◌else◌,
}
use trust_vault.Sdk.Value.{Value, Fields, undefined, str, obj, field, end}
use trust_vault.Frontend.Pages.NewDataSource.Categories.{
  SourceType, Category, data_source_categories,
}

abbrev pub matches : (Text → Text) → Text → SourceType → Bool
matches to_lower query t =
    includes (to_lower query) (to_lower t.label) || includes (to_lower query) (to_lower t.value)

abbrev pub has_types : Category → Bool
has_types c = elim c.types [ [] ↦ false | t ∷ types ↦ true ]

-- The categories with the kinds that match, before the empty ones are left out.
abbrev pub searched : (Text → Text) → Text → List Category → List Category
searched to_lower query categories =
    map
      (λ (c : Category). record {
        label = c.label;
        types = filter (matches to_lower query) c.types;
      })
      categories

unfoldable pub filtered : (Text → Text) → Text → List Category → List Category
filtered to_lower query categories = filter has_types (searched to_lower query categories)

unfoldable pub filtered_categories : (Text → Text) → Text → List Category
unfolding filtered data_source_categories
filtered_categories to_lower query = filtered to_lower query data_source_categories

pub record DataSourceForm : Type 0 where
  pub name : Text
  pub type : Text
  pub host : Text
  pub port : Text
  pub database : Text
  pub username : Text
  pub password : Text
  pub bucket : Text
  pub region : Text
  pub connection_string : Text
  pub account : Text
  pub warehouse : Text
  pub project_id : Text
  pub dataset : Text

-- `if (data.key) config.key = …`
abbrev pub given_as : (Text → Value) → String → Text → Fields → Fields
given_as convert key value rest = if truthy_text value then field key (convert value) rest else rest

abbrev pub given : String → Text → Fields → Fields
given = given_as str

-- The families of kinds with fields of their own; the others have a connection string.
pub data Family : Type 0 where
  relational storage snowflake bigquery other : Family

unfoldable pub family_of : Text → Family
unfolding text
family_of type =
    if one_of type (
      text "postgres"
      ∷ text "mysql"
      ∷ text "mssql"
      ∷ text "oracle"
      ∷ text "mariadb"
      ∷ text "cockroachdb"
      ∷ [])
    then Family.relational
    else if one_of type (text "s3" ∷ text "gcs" ∷ text "azure_blob" ∷ [])
    then Family.storage
    else if text_eq type (text "snowflake")
    then Family.snowflake
    else if text_eq type (text "bigquery")
    then Family.bigquery
    else Family.other

abbrev pub config_of : (Text → Value) → Family → DataSourceForm → Fields
config_of parse_int Family.relational form = given "host" form.host (
    given_as parse_int "port" form.port (
      given "database" form.database
        (given "username" form.username (given "password" form.password end))))
config_of parse_int Family.storage form =
    given "bucket" form.bucket (given "region" form.region end)
config_of parse_int Family.snowflake form = given "account" form.account (
    given "warehouse" form.warehouse (
      given "database" form.database
        (given "username" form.username (given "password" form.password end))))
config_of parse_int Family.bigquery form =
    given "project_id" form.project_id (given "dataset" form.dataset end)
config_of parse_int Family.other form = given "connection_string" form.connection_string end

-- `Object.keys(config).length > 0 ? config : undefined`
abbrev pub unless_empty : Fields → Value
unless_empty end = undefined
unless_empty (field k v fs) = obj (field k v fs)

unfoldable pub create_body : (Text → Value) → DataSourceForm → Value
unfolding family_of
create_body parse_int form = obj (
    field "name" (str form.name) (
      field "type" (str form.type)
        (field "config" (unless_empty (config_of parse_int (family_of form.type) form)) end)))

-- What the page does behind the request, in order.
pub data Effect : Type 0 where
  show_region : Text → Effect
  wait : ℕ → Effect
  fetch : (path authorization : Text) → Effect
  push : Text → Effect

abbrev pub show_region_toast : Text → List Effect
show_region_toast region =
    Effect.show_region region ∷ Effect.wait 2500 ∷ Effect.push (text "/data-sources") ∷ []

-- The request that asks once more; `none` is one that fails or is refused.
abbrev pub ask_again : Option Text → Text → Option Text → List Effect
ask_again token id answer =
    Effect.wait 3000
    ∷ Effect.fetch (text "/datasources/" ++ id) (text "Bearer " ++ token_text token)
    ∷ (elim answer [
      | none ↦ Effect.push (text "/data-sources") ∷ []
      | some region ↦
          if truthy_text region
          then show_region_toast region
          else Effect.push (text "/data-sources") ∷ []
    ])
  where
    token_text : Option Text → Text
    token_text none = text "null"
    token_text (some t) = t

pub record Created : Type 0 where
  pub id : Text
  pub region : Text

-- `onSubmit` from the answer on; `none` is a request that fails.
unfoldable pub after_create : Option Text → Option Created → Option Text → List Effect
after_create token none answer = []
after_create token (some created) answer =
    if truthy_text created.region
    then show_region_toast created.region
    else ask_again token created.id answer
