-- ===== src/Frontend/Pages/Residency.antt =====
-- app/(app)/data-map/residency/page.tsx: the data sources by region, the rules, and what the page
-- does when the service has answered. A text that an answer lacks is the empty text, and a list that
-- it lacks is `none`; a body that is no object throws when it is read. A region or a country named like
-- a member of `Object.prototype` is left aside.
pub mod Regions
pub mod Cards
use trust_vault.Prelude.{
  ℕ, ◌+◌, ◌-◌, Bool, true, false, not, ◌||◌, List, [], ◌∷◌, ◌++◌, Option, none, some, get_or, Text,
  text, text_eq, one_of, truthy_text, includes, length, filter, split_on, trim, starts_with,
  get_elem?, if◌then◌else◌, map,
}
use trust_vault.Sdk.Value.{Value, Fields, Items, str, obj, arr, field, end, cons, nil}
use trust_vault.Frontend.Pages.Residency.Regions.{Meta, region_meta}

-- The cookie `accessToken` as `authHeaders` finds it in `document.cookie`.
abbrev found_token : List Text → Text
found_token [] = []
found_token (c ∷ cookies) =
    if starts_with (text "accessToken=") (trim c)
    then get_or (get_elem? (split_on 61 (trim c)) 1) []
    else found_token cookies

unfoldable pub auth_headers : Text → Text
unfolding text split_on trim
auth_headers cookie = text "Bearer " ++ found_token (split_on 59 cookie)

pub record Datasource : Type 0 where
  pub id : Text
  pub name : Text
  pub region : Text
  pub country : Text

pub record Violation : Type 0 where
  pub datasource_region : Text
  pub region : Text

pub record Rule : Type 0 where
  pub id : Text
  pub name : Text

pub record Stats : Type 0 where
  pub total_datasources : ℕ
  pub violations : ℕ
  pub residency_rules : ℕ
  pub untagged_sources : ℕ

pub record RegionCard : Type 0 where
  pub region_id : Text
  pub meta : Meta
  pub country : Text
  pub ds_list : List Datasource

abbrev pub has_card : Text → List RegionCard → Bool
has_card id [] = false
has_card id (c ∷ cards) = text_eq c.region_id id || has_card id cards

abbrev pub new_card : Datasource → RegionCard
new_card ds = record {
  region_id = ds.region;
  meta = region_meta ds.region ds.country;
  country = ds.country;
  ds_list = [];
}

-- `regionMap.get(id)!.dsList.push(ds)`
abbrev pub push_source : Text → Datasource → List RegionCard → List RegionCard
push_source id ds [] = []
push_source id ds (c ∷ cards) =
    if text_eq c.region_id id
    then record c { ds_list = c.ds_list ++ (ds ∷ []) } ∷ cards
    else c ∷ push_source id ds cards

abbrev pub ensure_card : Datasource → List RegionCard → List RegionCard
ensure_card ds cards = if has_card ds.region cards then cards else cards ++ (new_card ds ∷ [])

abbrev pub add_source : Datasource → List RegionCard → List RegionCard
add_source ds cards =
    if truthy_text ds.region then push_source ds.region ds (ensure_card ds cards) else cards

unfoldable pub add_sources : List RegionCard → List Datasource → List RegionCard
add_sources cards [] = cards
add_sources cards (ds ∷ datasources) = add_sources (add_source ds cards) datasources

-- The entries of `regionMap`, in the order in which they were set.
unfoldable pub region_cards : List Datasource → List RegionCard
unfolding add_sources
region_cards datasources = add_sources [] datasources

pub record ActiveRegion : Type 0 where
  pub card : RegionCard
  pub count : ℕ
  pub violation_count : ℕ

abbrev pub concerns : Text → Violation → Bool
concerns region v = text_eq v.datasource_region region || text_eq v.region region

unfoldable pub active_regions : List Violation → List Datasource → List ActiveRegion
unfolding region_cards
active_regions violations datasources =
    map
      (λ (card : RegionCard). record {
        card = card;
        count = length card.ds_list;
        violation_count = length (filter (concerns card.region_id) violations);
      })
      (region_cards datasources)

abbrev pub untagged_sources : List Datasource → List Datasource
untagged_sources datasources = filter (λ ds. not (truthy_text ds.region)) datasources

pub data Kind : Type 0 where
  success error : Kind

pub record Note : Type 0 where
  pub kind : Kind
  pub msg : Text

pub record NewRule : Type 0 where
  pub name : Text
  pub regulation : Text
  pub allowed_regions : List Text
  pub data_types : List Text

pub record Target : Type 0 where
  pub id : Text
  pub name : Text

-- `note_timers` counts the timers of `showNote` that have not fired.
pub record ResidencyPage : Type 0 where
  pub rules : List Rule
  pub violations : List Violation
  pub datasources : List Datasource
  pub stats : Stats
  pub loading : Bool
  pub show_create_rule : Bool
  pub notification : Option Note
  pub note_timers : ℕ
  pub new_rule : NewRule
  pub tag_target : Option Target
  pub tag_region : Text
  pub tag_country : Text

abbrev pub empty_rule : NewRule
empty_rule = record { name = []; regulation = text "GDPR"; allowed_regions = []; data_types = [] }

unfoldable pub initial_page : ResidencyPage
initial_page = record {
  rules = [];
  violations = [];
  datasources = [];
  stats = record {
    total_datasources = 0;
    violations = 0;
    residency_rules = 0;
    untagged_sources = 0;
  };
  loading = false;
  show_create_rule = false;
  notification = none;
  note_timers = 0;
  new_rule = empty_rule;
  tag_target = none;
  tag_region = [];
  tag_country = [];
}

unfoldable pub show_note : Kind → Text → ResidencyPage → ResidencyPage
show_note kind msg page = record page {
  notification = some (record { kind = kind; msg = msg });
  note_timers = page.note_timers + 1;
}

-- What `loadAll` reads: `none` for the body of an answer that is not ok.
pub data SourcesBody : Type 0 where
  listed : List Datasource → SourcesBody
  wrapped : Option (List Datasource) → SourcesBody

pub record StatsBody : Type 0 where
  pub total_datasources : Option ℕ
  pub violations : Option ℕ
  pub residency_rules : Option ℕ
  pub untagged_sources : Option ℕ

pub record Loaded : Type 0 where
  pub rules : Option (Option (List Rule))
  pub violations : Option (Option (List Violation))
  pub datasources : Option SourcesBody
  pub stats : Option StatsBody

-- `(ok ? body : {}).key || []`
abbrev list_of {ℓ} : {A : Type ℓ} → Option (Option (List A)) → List A
list_of none = []
list_of (some xs) = get_or xs []

abbrev pub sources_of : Option SourcesBody → List Datasource
sources_of none = []
sources_of (some (SourcesBody.listed xs)) = xs
sources_of (some (SourcesBody.wrapped xs)) = get_or xs []

abbrev stats_of : Option StatsBody → Stats
stats_of none = record {
  total_datasources = 0;
  violations = 0;
  residency_rules = 0;
  untagged_sources = 0;
}
stats_of (some s) = record {
  total_datasources = get_or s.total_datasources 0;
  violations = get_or s.violations 0;
  residency_rules = get_or s.residency_rules 0;
  untagged_sources = get_or s.untagged_sources 0;
}

-- `loadAll` up to its `await`, and from there; `none` is a request or a body that throws.
unfoldable pub begin_load : ResidencyPage → ResidencyPage
begin_load page = record page { loading = true }

unfoldable pub end_load : Option Loaded → ResidencyPage → ResidencyPage
end_load none page = record page { loading = false }
end_load (some answers) page = record page {
  rules = list_of answers.rules;
  violations = list_of answers.violations;
  datasources = sources_of answers.datasources;
  stats = stats_of answers.stats;
  loading = false;
}

-- How the service answered a request that changes something; a handler that throws ends there.
pub data Reply : Type 0 where
  ok refused thrown : Reply

-- The handlers of the rules and of the tag, from their answer on. Each calls `loadAll` last.
unfoldable pub create_rule : Reply → ResidencyPage → ResidencyPage
unfolding show_note begin_load text
create_rule Reply.ok page =
    begin_load (record (show_note Kind.success (text "Residency rule created") page) {
      show_create_rule = false;
      new_rule = empty_rule;
    })
create_rule Reply.refused page = show_note Kind.error (text "Failed to create rule") page
create_rule Reply.thrown page = page

unfoldable pub delete_rule : Reply → ResidencyPage → ResidencyPage
unfolding show_note begin_load text
delete_rule Reply.ok page = begin_load (show_note Kind.success (text "Rule deleted") page)
delete_rule _ page = page

-- The target of the request is the one of when it was sent.
abbrev tagged_msg : Target → Text → Text
tagged_msg target region = text "Tagged \"" ++ (target.name ++ (text "\" with region " ++ region))

unfoldable pub tag_region_fn : Target → Text → Reply → ResidencyPage → ResidencyPage
unfolding show_note begin_load text
tag_region_fn target region Reply.ok page =
    begin_load
      (record (show_note Kind.success (tagged_msg target region) page) { tag_target = none })
tag_region_fn target region Reply.refused page =
    show_note Kind.error (text "Failed to tag region") page
tag_region_fn target region Reply.thrown page = page

-- A timer of `showNote` fires.
unfoldable pub clear_note : ResidencyPage → ResidencyPage
clear_note page = record page { notification = none; note_timers = page.note_timers - 1 }

abbrev text_items : List Text → Items
text_items [] = nil
text_items (t ∷ ts) = cons (str t) (text_items ts)

-- The bodies that `createRule` and `tagRegionFn` send; the latter sends nothing without a target.
abbrev pub rule_body : NewRule → Value
rule_body rule = obj (
    field "name" (str rule.name) (
      field "regulation" (str rule.regulation) (
        field "allowed_regions" (arr (text_items rule.allowed_regions))
          (field "data_types" (arr (text_items rule.data_types)) end))))

abbrev pub tag_body : ResidencyPage → Option Value
tag_body page = elim page.tag_target [
  | none ↦ none
  | some target ↦
      some (obj (field "region" (str page.tag_region) (field "country" (str page.tag_country) end)))
]

abbrev pub toggled : Text → List Text → List Text
toggled rid regions =
    if one_of rid regions then filter (λ x. not (text_eq x rid)) regions else regions ++ (rid ∷ [])

unfoldable pub toggle_region : Text → ResidencyPage → ResidencyPage
toggle_region rid page = record page {
  new_rule = record page.new_rule { allowed_regions = toggled rid page.new_rule.allowed_regions };
}
