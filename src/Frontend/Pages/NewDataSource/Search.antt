-- ===== src/Frontend/Pages/NewDataSource/Search.antt =====
-- The search in the kinds of data sources.
use trust_vault.Prelude.{
  ◌≡◌, refl, ap, ◌∙◌, sym, Bool, true, false, List, [], ◌∷◌, ◌++◌, filter, Text, All, arith,
  if◌then◌else◌,
}
use trust_vault.Frontend.Pages.NewDataSource.Categories.{SourceType, Category}
use trust_vault.Frontend.Pages.NewDataSource.{matches, has_types, searched, filtered}

abbrev pub types_of : List Category → List SourceType
types_of [] = []
types_of (c ∷ categories) = c.types ++ types_of categories

filter-append :
    (p : SourceType → Bool) (xs ys : List SourceType)
    → filter p (xs ++ ys) ≡ filter p xs ++ filter p ys
filter-append p [] ys = refl
filter-append p (x ∷ xs) ys = ground (arith, filter-append p xs ys)

kept_types :
    (label : Text) (types : List SourceType) (rest : List Category)
    → types_of (filter has_types (record { label = label; types = types } ∷ rest))
      ≡ types ++ types_of (filter has_types rest)
kept_types label [] rest = refl
kept_types label (t ∷ types) rest = refl

All-if :
    (c : Category) (rest : List Category) (b : Bool)
    → has_types c ≡ b
    → All (λ c. has_types c ≡ true) rest
    → All (λ c. has_types c ≡ true) (if b then c ∷ rest else rest)
All-if c rest true e h = (e, h)
All-if c rest false e h = h

filter-All :
    (categories : List Category) → All (λ c. has_types c ≡ true) (filter has_types categories)
filter-All [] = tt
filter-All (c ∷ categories) = All-if c _ (has_types c) refl (filter-All categories)

types_of-filtered :
    (to_lower : Text → Text) (query : Text) (categories : List Category)
    → types_of (filtered to_lower query categories)
      ≡ filter (matches to_lower query) (types_of categories)
unfolding filtered
types_of-filtered to_lower query [] = refl
types_of-filtered to_lower query (c ∷ categories) =
    kept_types c.label (filter (matches to_lower query) c.types)
      (searched to_lower query categories)
    ∙ ap (λ ts. filter (matches to_lower query) c.types ++ ts)
        (types_of-filtered to_lower query categories)
    ∙ sym (filter-append (matches to_lower query) c.types (types_of categories))

-- The search shows exactly the kinds that match, in their order, and no category without one.
pub filtered_lem :
    (to_lower : Text → Text) (query : Text) (categories : List Category)
    → (types_of (filtered to_lower query categories)
        ≡ filter (matches to_lower query) (types_of categories))
      × All (λ c. has_types c ≡ true) (filtered to_lower query categories)
unfolding filtered
filtered_lem to_lower query categories =
    (types_of-filtered to_lower query categories, filter-All (searched to_lower query categories))
