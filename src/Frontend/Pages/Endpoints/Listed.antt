-- ===== src/Frontend/Pages/Endpoints/Listed.antt =====
-- Which endpoints the page lists.
use trust_vault.Prelude.{
  ◌≡◌, refl, ap, ◌∙◌, sym, Bool, true, false, not, ◌&&◌, ◌||◌, List, [], ◌∷◌, Text, text_eq,
  text_eq_iff, filter, map, All, Bool-cases, inl, inr, arith,
}
use trust_vault.Frontend.Pages.Endpoints.{
  Endpoint, EndpointsPage, Outcome, notify, clear_notification, replace, without, begin_scan,
  end_scan, end_delete,
}

-- What happens to the page while it shows a list that it has loaded.
pub data Action : Type 0 where
  scan_began : Text → Action
  scan_ended : Text → Outcome Endpoint → Action
  deleted : Text → Outcome Unit → Action
  cleared : Action

abbrev pub step : Action → EndpointsPage → EndpointsPage
step (Action.scan_began id) page = begin_scan id page
step (Action.scan_ended id outcome) page = end_scan id outcome page
step (Action.deleted id outcome) page = end_delete id outcome page
step Action.cleared page = clear_notification page

abbrev pub run : List Action → EndpointsPage → EndpointsPage
run [] page = page
run (a ∷ actions) page = run actions (step a page)

-- A scan that is answered with an endpoint is answered with the one that was scanned.
abbrev pub IsAnswered : Action → Type 0
IsAnswered (Action.scan_ended id (Outcome.ok updated)) = text_eq updated.id id ≡ true
IsAnswered _ = Unit

abbrev pub ids : List Endpoint → List Text
ids endpoints = map (λ (ep : Endpoint). ep.id) endpoints

-- Whether one of the actions is the accepted deletion of the id.
abbrev pub deletes : Text → Action → Bool
deletes id (Action.deleted other (Outcome.ok _)) = text_eq id other
deletes id _ = false

abbrev pub is_deleted : List Action → Text → Bool
is_deleted [] id = false
is_deleted (a ∷ actions) id = deletes id a || is_deleted actions id

ids-replace :
    (id : Text) (updated : Endpoint) (endpoints : List Endpoint)
    → text_eq updated.id id ≡ true
    → ids (replace id updated endpoints) ≡ ids endpoints
ids-replace id updated [] e = refl
ids-replace id updated (ep ∷ endpoints) e = elim (Bool-cases (text_eq ep.id id)) [
  | inl f ↦ ground (
    arith,
    f,
    ids-replace id updated endpoints e,
    (text_eq_iff updated.id id).0 e,
    (text_eq_iff ep.id id).0 f,
  )
  | inr f ↦ ground (arith, f, ids-replace id updated endpoints e)
]

ids-without :
    (id : Text) (endpoints : List Endpoint)
    → ids (without id endpoints) ≡ filter (λ t. not (text_eq t id)) (ids endpoints)
ids-without id [] = refl
ids-without id (ep ∷ endpoints) = ground (arith, ids-without id endpoints)

filter_same :
    (p q : Text → Bool) (xs : List Text) → ((x : Text) → p x ≡ q x) → filter p xs ≡ filter q xs
filter_same p q [] h = refl
filter_same p q (x ∷ xs) h = ground (arith, h x, filter_same p q xs h)

filter_twice :
    (p q : Text → Bool) (xs : List Text) → filter q (filter p xs) ≡ filter (λ x. p x && q x) xs
filter_twice p q [] = refl
filter_twice p q (x ∷ xs) = ground (arith, filter_twice p q xs)

filter_all : (xs : List Text) → filter (λ x. true) xs ≡ xs
filter_all [] = refl
filter_all (x ∷ xs) = ap (λ ys. x ∷ ys) (filter_all xs)

ids-step :
    (a : Action) (page : EndpointsPage)
    → IsAnswered a
    → ids (step a page).endpoints ≡ filter (λ id. not (deletes id a)) (ids page.endpoints)
unfolding begin_scan end_scan end_delete clear_notification notify
ids-step (Action.scan_began id) page h = sym (filter_all (ids page.endpoints))
ids-step (Action.scan_ended id (Outcome.ok updated)) page h =
    ids-replace id updated page.endpoints h ∙ sym (filter_all (ids page.endpoints))
ids-step (Action.scan_ended id (Outcome.refused s)) page h = sym (filter_all (ids page.endpoints))
ids-step (Action.scan_ended id (Outcome.thrown m)) page h = sym (filter_all (ids page.endpoints))
ids-step (Action.deleted id (Outcome.ok _)) page h = ids-without id page.endpoints
ids-step (Action.deleted id (Outcome.refused s)) page h = sym (filter_all (ids page.endpoints))
ids-step (Action.deleted id (Outcome.thrown m)) page h = sym (filter_all (ids page.endpoints))
ids-step Action.cleared page h = sym (filter_all (ids page.endpoints))

-- In whatever order scans begin and end and deletions are answered, the page lists the endpoints that it
-- has loaded without those whose deletion the service has accepted, in their order, if each scan that is
-- answered with an endpoint is answered with the one that was scanned.
pub ids-run :
    (actions : List Action) (page : EndpointsPage)
    → All IsAnswered actions
    → ids (run actions page).endpoints
      ≡ filter (λ id. not (is_deleted actions id)) (ids page.endpoints)
ids-run [] page h = sym (filter_all (ids page.endpoints))
ids-run (a ∷ actions) page h =
    ids-run actions (step a page) h.1
    ∙ ap (filter (λ id. not (is_deleted actions id))) (ids-step a page h.0)
    ∙ filter_twice (λ id. not (deletes id a)) (λ id. not (is_deleted actions id))
        (ids page.endpoints)
    ∙ filter_same (λ id. not (deletes id a) && not (is_deleted actions id))
        (λ id. not (is_deleted (a ∷ actions) id)) (ids page.endpoints) (λ id. ground arith)
