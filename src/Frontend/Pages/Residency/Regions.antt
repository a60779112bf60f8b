-- ===== src/Frontend/Pages/Residency/Regions.antt =====
-- The regions of app/(app)/data-map/residency/page.tsx, with their labels and flags.
use trust_vault.Prelude.{
  ◌+◌, ◌-◌, String, List, [], ◌∷◌, ◌++◌, Option, none, some, Text, text, text_eq, if◌then◌else◌,
}

pub record Meta : Type 0 where
  pub label : Text
  pub flag : Text

-- The flag of a country by its two letters: a regional indicator for each, as two code units.
unfoldable flag : Text → Text
flag [] = []
flag (letter ∷ letters) = 55356 ∷ (letter + 56806 - 65) ∷ flag letters

unfoldable meta : String → String → Meta
unfolding text flag
meta label country = record { label = text label; flag = flag (text country) }

pub record Region : Type 0 where
  pub id : Text
  pub meta : Meta

unfoldable region : String → String → String → Region
unfolding text meta
region id label country = record { id = text id; meta = meta label country }

-- REGION_META, in its order.
unfoldable pub region_metas : List Region
unfolding region
region_metas =
    region "ap-south-1" "Asia Pacific (Mumbai) — India" "IN"
    ∷ region "ap-south-2" "Asia Pacific (Hyderabad) — India" "IN"
    ∷ region "ap-southeast-1" "Asia Pacific (Singapore)" "SG"
    ∷ region "ap-southeast-2" "Asia Pacific (Sydney) — Australia" "AU"
    ∷ region "ap-northeast-1" "Asia Pacific (Tokyo) — Japan" "JP"
    ∷ region "ap-northeast-2" "Asia Pacific (Seoul) — South Korea" "KR"
    ∷ region "ap-east-1" "Asia Pacific (Hong Kong)" "HK"
    ∷ region "me-south-1" "Middle East (UAE/Bahrain)" "AE"
    ∷ region "me-central-1" "Middle East (UAE)" "AE"
    ∷ region "af-south-1" "Africa (Cape Town) — South Africa" "ZA"
    ∷ region "eu-west-1" "Europe (Ireland)" "IE"
    ∷ region "eu-west-2" "Europe (London) — UK" "GB"
    ∷ region "eu-west-3" "Europe (Paris) — France" "FR"
    ∷ region "eu-central-1" "Europe (Frankfurt) — Germany" "DE"
    ∷ region "eu-north-1" "Europe (Stockholm) — Sweden" "SE"
    ∷ region "eu-south-1" "Europe (Milan) — Italy" "IT"
    ∷ region "us-east-1" "US East (N. Virginia)" "US"
    ∷ region "us-east-2" "US East (Ohio)" "US"
    ∷ region "us-west-1" "US West (N. California)" "US"
    ∷ region "us-west-2" "US West (Oregon)" "US"
    ∷ region "ca-central-1" "Canada (Central)" "CA"
    ∷ region "sa-east-1" "South America (São Paulo) — Brazil" "BR"
    ∷ []

-- `REGION_META[id]`
abbrev pub known_meta : Text → List Region → Option Meta
known_meta id [] = none
known_meta id (r ∷ regions) = if text_eq r.id id then some r.meta else known_meta id regions

pub record CountryFlag : Type 0 where
  pub name : Text
  pub flag : Text

unfoldable country_flag : String → String → CountryFlag
unfolding text flag
country_flag name country = record { name = text name; flag = flag (text country) }

unfoldable country_flags : List CountryFlag
unfolding country_flag
country_flags =
    country_flag "India" "IN"
    ∷ country_flag "Germany" "DE"
    ∷ country_flag "France" "FR"
    ∷ country_flag "UK" "GB"
    ∷ country_flag "United Kingdom" "GB"
    ∷ country_flag "USA" "US"
    ∷ country_flag "United States" "US"
    ∷ country_flag "Canada" "CA"
    ∷ country_flag "Japan" "JP"
    ∷ country_flag "Australia" "AU"
    ∷ country_flag "Singapore" "SG"
    ∷ country_flag "Brazil" "BR"
    ∷ []

-- A globe.
abbrev globe : Text
globe = 55356 ∷ 57104 ∷ []

abbrev flag_of_country : Text → List CountryFlag → Text
flag_of_country country [] = globe
flag_of_country country (c ∷ flags) =
    if text_eq c.name country then c.flag else flag_of_country country flags

-- A country that is absent is the empty text.
abbrev derived_meta : Text → Text → Meta
derived_meta id [] = record { label = id; flag = globe }
derived_meta id (c ∷ country) = record {
  label = id ++ (text " (" ++ ((c ∷ country) ++ text ")"));
  flag = flag_of_country (c ∷ country) country_flags;
}

unfoldable pub region_meta : Text → Text → Meta
unfolding region_metas country_flags text
region_meta id country = elim (known_meta id region_metas) [
  | none ↦ derived_meta id country
  | some meta ↦ meta
]
