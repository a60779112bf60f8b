-- ===== src/Frontend/Pages/NewDataSource/Configs.antt =====
-- What the form of a new data source sends, and where the page goes from there.
use trust_vault.Prelude.{
  ℕ, ◌+◌, ◌≤◌, ◌≡◌, refl, List, [], ◌∷◌, Option, none, some, Text, text, String, truthy_text, ◌∙◌,
  arith, if◌then◌else◌, ap, Bool, true, false, ◌||◌, one_of, text_eq, text_eq_iff,
}
use trust_vault.Sdk.Value.{Value, Fields, undefined, str, lookup, member, end, field}
use trust_vault.Frontend.Pages.NewDataSource.{
  DataSourceForm, Family, family_of, config_of, create_body, unless_empty, Created, Effect,
  after_create,
}

member-unless_empty : (key : String) (fs : Fields) → member key (unless_empty fs) ≡ lookup key fs
member-unless_empty key end = refl
member-unless_empty key (field k v fs) = refl

-- A text as it is sent, and nothing for an empty one.
abbrev pub sent : Text → Value
sent t = if truthy_text t then str t else undefined

-- The types that are sent with a user and a password, and those that are sent with neither these nor a
-- connection string.
abbrev relational_types : List Text
relational_types =
    text "postgres"
    ∷ text "mysql"
    ∷ text "mssql"
    ∷ text "oracle"
    ∷ text "mariadb"
    ∷ text "cockroachdb"
    ∷ []

abbrev storage_types : List Text
storage_types = text "s3" ∷ text "gcs" ∷ text "azure_blob" ∷ []

abbrev pub with_user : Text → Bool
with_user type = one_of type relational_types || text_eq type (text "snowflake")

abbrev pub with_neither : Text → Bool
with_neither type = one_of type storage_types || text_eq type (text "bigquery")

no_snowflake :
    (type : Text) → text_eq type (text "snowflake") ≡ true → one_of type storage_types ≡ false
unfolding text
no_snowflake type e = ap (λ t. one_of t storage_types) ((text_eq_iff type (text "snowflake")).0 e)

-- The family by what the type is found to be.
abbrev family_by : (relational storage snowflake bigquery : Bool) → Family
family_by true _ _ _ = Family.relational
family_by false true _ _ = Family.storage
family_by false false true _ = Family.snowflake
family_by false false false true = Family.bigquery
family_by false false false false = Family.other

abbrev if_user : Family → Value → Value
if_user Family.relational v = v
if_user Family.snowflake v = v
if_user _ v = undefined

abbrev if_other : Family → Value → Value
if_other Family.other v = v
if_other _ v = undefined

if_user-family_by :
    (r s n b : Bool) (v : Value)
    → (n ≡ true → s ≡ false)
    → if_user (family_by r s n b) v ≡ (if r || n then v else undefined)
if_user-family_by true s n b v alone = refl
if_user-family_by false true true b v alone = absurd (cc (alone refl))
if_user-family_by false true false b v alone = refl
if_user-family_by false false true b v alone = refl
if_user-family_by false false false true v alone = refl
if_user-family_by false false false false v alone = refl

if_other-family_by :
    (r s n b : Bool) (v : Value)
    → if_other (family_by r s n b) v ≡ (if (r || n) || (s || b) then undefined else v)
if_other-family_by true s n b v = refl
if_other-family_by false true true b v = refl
if_other-family_by false true false b v = refl
if_other-family_by false false true b v = refl
if_other-family_by false false false true v = refl
if_other-family_by false false false false v = refl

family_of-family_by :
    (t : Text)
    → family_of t
      ≡ family_by
          (one_of t relational_types)
          (one_of t storage_types)
          (text_eq t (text "snowflake"))
          (text_eq t (text "bigquery"))
unfolding family_of
family_of-family_by t =
    chosen (one_of t relational_types) (one_of t storage_types) (text_eq t (text "snowflake"))
      (text_eq t (text "bigquery"))
  where
    chosen :
        (r s n b : Bool)
        → (if r
            then Family.relational
            else if s
            then Family.storage
            else if n
            then Family.snowflake
            else if b
            then Family.bigquery
            else Family.other)
          ≡ family_by r s n b
    chosen true s n b = refl
    chosen false true n b = refl
    chosen false false true b = refl
    chosen false false false true = refl
    chosen false false false false = refl

if_user-family_of :
    (t : Text) (v : Value) → if_user (family_of t) v ≡ (if with_user t then v else undefined)
if_user-family_of t v =
    ap (λ f. if_user f v) (family_of-family_by t)
    ∙ if_user-family_by (one_of t relational_types) (one_of t storage_types)
        (text_eq t (text "snowflake")) (text_eq t (text "bigquery")) v (no_snowflake t)

if_other-family_of :
    (t : Text) (v : Value)
    → if_other (family_of t) v ≡ (if with_user t || with_neither t then undefined else v)
if_other-family_of t v =
    ap (λ f. if_other f v) (family_of-family_by t)
    ∙ if_other-family_by (one_of t relational_types) (one_of t storage_types)
        (text_eq t (text "snowflake")) (text_eq t (text "bigquery")) v

abbrev HasCredentials : Family → DataSourceForm → Fields → Type 0
HasCredentials family form config =
    (lookup "username" config ≡ if_user family (sent form.username))
    × (lookup "password" config ≡ if_user family (sent form.password))
    × (lookup "connection_string" config ≡ if_other family (sent form.connection_string))

config_of-HasCredentials :
    (parse_int : Text → Value) (form : DataSourceForm) (family : Family)
    → HasCredentials family form (config_of parse_int family form)
config_of-HasCredentials p form Family.relational = (ground arith, ground arith, ground arith)
config_of-HasCredentials p form Family.snowflake = (ground arith, ground arith, ground arith)
config_of-HasCredentials p form Family.storage = (ground arith, ground arith, ground arith)
config_of-HasCredentials p form Family.bigquery = (ground arith, ground arith, ground arith)
config_of-HasCredentials p form Family.other = (ground arith, ground arith, ground arith)

-- What is sent of a relational database or of Snowflake holds the user and the password that were
-- filled in, and no connection string; what is sent of the storages and of BigQuery holds none of the
-- three; and what is sent of any other type holds the connection string, but not the user and the
-- password, which the form of such a type asks for too.
pub create_body_credentials :
    (parse_int : Text → Value) (form : DataSourceForm)
    → let config = member "config" (create_body parse_int form) in
      (member "username" config ≡ (if with_user form.type then sent form.username else undefined))
      × (member "password" config ≡ (if with_user form.type then sent form.password else undefined))
      × (member "connection_string" config ≡ (
          if with_user form.type || with_neither form.type
          then undefined
          else sent form.connection_string))
unfolding create_body
create_body_credentials parse_int form =
    let t = form.type in
    let config = config_of parse_int (family_of t) form in
    let has = config_of-HasCredentials parse_int form (family_of t) in
    (
      member-unless_empty "username" config ∙ has.0 ∙ if_user-family_of t (sent form.username),
      member-unless_empty "password" config ∙ has.1 ∙ if_user-family_of t (sent form.password),
      member-unless_empty "connection_string" config
          ∙ has.2
          ∙ if_other-family_of t (sent form.connection_string),
    )

-- The pages that are opened, the regions that are shown, and the time that is waited in all.
abbrev pub pushes : List Effect → List Text
pushes [] = []
pushes (Effect.push path ∷ effects) = path ∷ pushes effects
pushes (_ ∷ effects) = pushes effects

abbrev pub regions : List Effect → List Text
regions [] = []
regions (Effect.show_region region ∷ effects) = region ∷ regions effects
regions (_ ∷ effects) = regions effects

abbrev pub waited : List Effect → ℕ
waited [] = 0
waited (Effect.wait ms ∷ effects) = ms + waited effects
waited (_ ∷ effects) = waited effects

abbrev if_found : Text → List Text
if_found region = if truthy_text region then region ∷ [] else []

-- The region that is found: in the answer, or in the data source as it is read again.
abbrev pub found : Created → Option Text → List Text
found created answer =
    if truthy_text created.region
    then created.region ∷ []
    else elim answer [ none ↦ [] | some region ↦ if_found region ]

-- Where the data source was created, the list of data sources is opened exactly once, whatever becomes of
-- the request that reads it again, and after 5.5 seconds at most besides the time of this request; a
-- region is shown exactly if the answer has one, or else the data source as it is read again.
pub after_create_opens :
    (token : Option Text) (created : Created) (answer : Option Text)
    → let effects = after_create token (some created) answer in
      (pushes effects ≡ text "/data-sources" ∷ [])
      × (regions effects ≡ found created answer)
      × (waited effects ≤ 5500)
unfolding after_create
after_create_opens token created answer = (ground arith, ground arith, ground arith)
