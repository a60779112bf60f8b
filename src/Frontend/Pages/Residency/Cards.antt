-- ===== src/Frontend/Pages/Residency/Cards.antt =====
-- The cards of the regions.
use trust_vault.Prelude.{
  ℕ, ◌+◌, ◌≡◌, ap, refl, sym, ◌∙◌, true, false, ◌&&◌, List, [], ◌∷◌, ◌++◌, map, Option, none, some,
  Text, text_eq, text_eq_iff, text_eq_refl, truthy_text, length, length-append, filter, arith,
  if◌then◌else◌, Bool-cases, inl, inr,
}
use trust_vault.Frontend.Pages.Residency.{
  Datasource, RegionCard, Violation, ActiveRegion, has_card, new_card, push_source, add_source,
  add_sources, region_cards, active_regions, untagged_sources, concerns,
}
use mathlib.Core.List.{append-nil, append_assoc}

-- The card of a region, as `regionMap.get` finds it.
abbrev pub card_of : Text → List RegionCard → Option RegionCard
card_of id [] = none
card_of id (c ∷ cards) = if text_eq c.region_id id then some c else card_of id cards

-- The data sources that have the region.
abbrev pub in_region : Text → List Datasource → List Datasource
in_region id datasources = filter (λ ds. truthy_text ds.region && text_eq ds.region id) datasources

-- A card with more data sources; a new one takes its texts from the first of them.
abbrev pub extended : Option RegionCard → List Datasource → Option RegionCard
extended none [] = none
extended none (ds ∷ more) = some (record (new_card ds) { ds_list = ds ∷ more })
extended (some c) more = some (record c { ds_list = c.ds_list ++ more })

extended_nothing : (o : Option RegionCard) → extended o [] ≡ o
extended_nothing none = refl
extended_nothing (some c) = ap (λ xs. some (record c { ds_list = xs })) (append-nil c.ds_list)

extended_twice :
    (o : Option RegionCard) (ds : Datasource) (more : List Datasource)
    → extended (extended o (ds ∷ [])) more ≡ extended o (ds ∷ more)
extended_twice none ds more = refl
extended_twice (some c) ds more =
    ap (λ xs. some (record c { ds_list = xs })) (append_assoc c.ds_list (ds ∷ []) more)

text_eq_same : (s t u : Text) → text_eq s t ≡ true → text_eq s u ≡ text_eq t u
text_eq_same s t u e = ap (λ x. text_eq x u) ((text_eq_iff s t).0 e)

text_eq_other : (s t u : Text) → text_eq s t ≡ false → text_eq t u ≡ true → text_eq s u ≡ false
text_eq_other s t u e f = sym (ap (text_eq s) ((text_eq_iff t u).0 f)) ∙ e

has_card-push_source :
    (id : Text) (ds : Datasource) (r : Text) (cards : List RegionCard)
    → has_card id cards ≡ true
    → card_of r (push_source id ds cards)
      ≡ (if text_eq id r then extended (card_of r cards) (ds ∷ []) else card_of r cards)
has_card-push_source id ds r [] h = ground (arith, h)
has_card-push_source id ds r (c ∷ cards) h = elim (Bool-cases (text_eq c.region_id id)) [
  | inl e ↦ ground (arith, e, text_eq_same c.region_id id r e)
  | inr e ↦
      let rest = has_card-push_source id ds r cards (ground (arith, e, h)) in
      elim (Bool-cases (text_eq id r)) [
        | inl f ↦ ground (arith, e, f, rest, text_eq_other c.region_id id r e f)
        | inr f ↦ ground (arith, e, f, rest)
      ]
]

card_of-append :
    (r : Text) (cards : List RegionCard) (c : RegionCard)
    → has_card c.region_id cards ≡ false
    → card_of r (cards ++ (c ∷ [])) ≡ (if text_eq c.region_id r then some c else card_of r cards)
card_of-append r [] c h = refl
card_of-append r (d ∷ cards) c h =
    let rest = card_of-append r cards c (ground (arith, h)) in
    elim (Bool-cases (text_eq c.region_id r)) [
      | inl f ↦
          ground (arith, f, rest, text_eq_other d.region_id c.region_id r (ground (arith, h)) f)
      | inr f ↦ ground (arith, f, rest)
    ]

has_card-append :
    (id : Text) (cards : List RegionCard) (c : RegionCard)
    → text_eq c.region_id id ≡ true
    → has_card id (cards ++ (c ∷ [])) ≡ true
has_card-append id [] c e = ground (arith, e)
has_card-append id (d ∷ cards) c e = ground (arith, has_card-append id cards c e)

no_card :
    (id r : Text) (cards : List RegionCard)
    → has_card id cards ≡ false
    → text_eq id r ≡ true
    → card_of r cards ≡ none
no_card id r [] h e = refl
no_card id r (c ∷ cards) h e = ground (
  arith,
  no_card id r cards (ground (arith, h)) e,
  text_eq_other c.region_id id r (ground (arith, h)) e,
)

card_of-add_source :
    (r : Text) (ds : Datasource) (cards : List RegionCard)
    → card_of r (add_source ds cards) ≡ extended (card_of r cards) (in_region r (ds ∷ []))
card_of-add_source r ds cards = elim (Bool-cases (truthy_text ds.region)) [
  | inr t ↦ rw t (sym (extended_nothing (card_of r cards)))
  | inl t ↦ elim (Bool-cases (has_card ds.region cards)) [
    | inl h ↦ elim (Bool-cases (text_eq ds.region r)) [
      | inl e ↦ ground (arith, t, h, e, has_card-push_source ds.region ds r cards h)
      | inr e ↦ ground (
        arith,
        t,
        h,
        e,
        has_card-push_source ds.region ds r cards h,
        extended_nothing (card_of r cards),
      )
    ]
    | inr h ↦
        let own = has_card-append ds.region cards (new_card ds) (text_eq_refl ds.region) in
        let put = has_card-push_source ds.region ds r (cards ++ (new_card ds ∷ [])) own in
        let new = card_of-append r cards (new_card ds) h in
        elim (Bool-cases (text_eq ds.region r)) [
          | inl e ↦ ground (arith, t, h, e, put, new, no_card ds.region r cards h e)
          | inr e ↦ ground (arith, t, h, e, put, new, extended_nothing (card_of r cards))
        ]
  ]
]

in_region-append :
    (r : Text) (ds : Datasource) (more : List Datasource) (o : Option RegionCard)
    → extended (extended o (in_region r (ds ∷ []))) (in_region r more)
      ≡ extended o (in_region r (ds ∷ more))
in_region-append r ds more o = elim (Bool-cases (truthy_text ds.region && text_eq ds.region r)) [
  | inl e ↦ rw e (extended_twice o ds (in_region r more))
  | inr e ↦ rw e (ap (λ p. extended p (in_region r more)) (extended_nothing o))
]

card_of-add_sources :
    (r : Text) (cards : List RegionCard) (datasources : List Datasource)
    → card_of r (add_sources cards datasources)
      ≡ extended (card_of r cards) (in_region r datasources)
unfolding add_sources
card_of-add_sources r cards [] = sym (extended_nothing (card_of r cards))
card_of-add_sources r cards (ds ∷ datasources) =
    card_of-add_sources r (add_source ds cards) datasources
    ∙ ap (λ o. extended o (in_region r datasources)) (card_of-add_source r ds cards)
    ∙ in_region-append r ds datasources (card_of r cards)

-- The sum of the counts that the cards show.
abbrev pub total : List ActiveRegion → ℕ
total [] = 0
total (a ∷ regions) = a.count + total regions

abbrev shown : List RegionCard → ℕ
shown [] = 0
shown (c ∷ cards) = length c.ds_list + shown cards

shown-push_source :
    (id : Text) (ds : Datasource) (cards : List RegionCard)
    → has_card id cards ≡ true
    → shown (push_source id ds cards) ≡ shown cards + 1
shown-push_source id ds [] h = ground (arith, h)
shown-push_source id ds (c ∷ cards) h = elim (Bool-cases (text_eq c.region_id id)) [
  | inl e ↦ ground (arith, e, length-append c.ds_list (ds ∷ []))
  | inr e ↦ ground (arith, e, shown-push_source id ds cards (ground (arith, e, h)))
]

shown-append :
    (cards : List RegionCard) (ds : Datasource) → shown (cards ++ (new_card ds ∷ [])) ≡ shown cards
shown-append [] ds = refl
shown-append (c ∷ cards) ds = ap (λ n. length c.ds_list + n) (shown-append cards ds)

shown-add_source :
    (ds : Datasource) (cards : List RegionCard)
    → shown (add_source ds cards) ≡ shown cards + (if truthy_text ds.region then 1 else 0)
shown-add_source ds cards = elim (Bool-cases (truthy_text ds.region)) [
  | inr t ↦ ground (arith, t)
  | inl t ↦ elim (Bool-cases (has_card ds.region cards)) [
    | inl h ↦ ground (arith, t, h, shown-push_source ds.region ds cards h)
    | inr h ↦
        let own = has_card-append ds.region cards (new_card ds) (text_eq_refl ds.region) in
        ground (
          arith,
          t,
          h,
          shown-push_source ds.region ds (cards ++ (new_card ds ∷ [])) own,
          shown-append cards ds,
        )
  ]
]

shown-add_sources :
    (cards : List RegionCard) (datasources : List Datasource)
    → shown (add_sources cards datasources) + length (untagged_sources datasources)
      ≡ shown cards + length datasources
unfolding add_sources
shown-add_sources cards [] = omega arith
shown-add_sources cards (ds ∷ datasources) =
    ground (arith, shown-add_sources (add_source ds cards) datasources, shown-add_source ds cards)

total-shown :
    (violations : List Violation) (cards : List RegionCard)
    → total (
        map
          (λ (card : RegionCard). record {
            card = card;
            count = length card.ds_list;
            violation_count = length (filter (concerns card.region_id) violations);
          })
          cards)
      ≡ shown cards
total-shown violations [] = refl
total-shown violations (c ∷ cards) = ap (λ n. length c.ds_list + n) (total-shown violations cards)

-- Each region has a card exactly if a data source has this region, and the card lists all of them in
-- their order, with the texts from the first; and the counts of all cards and the sources without a
-- region add up to the number of data sources.
pub region_cards_partition :
    (violations : List Violation) (datasources : List Datasource)
    → ((r : Text) → card_of r (region_cards datasources) ≡ extended none (in_region r datasources))
      × (total (active_regions violations datasources) + length (untagged_sources datasources)
          ≡ length datasources)
unfolding region_cards active_regions
region_cards_partition violations datasources = (
  λ r. card_of-add_sources r [] datasources,
  ground (
    arith,
    total-shown violations (add_sources [] datasources),
    shown-add_sources [] datasources,
  ),
)
