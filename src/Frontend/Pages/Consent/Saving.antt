-- ===== src/Frontend/Pages/Consent/Saving.antt =====
-- Whose preferences are saved, and for whom.
use trust_vault.Prelude.{
  ◌≡◌, refl, ap, ap₂, ◌∙◌, List, [], ◌∷◌, Option, none, some, get_or, Text, arith, if◌then◌else◌,
  String, str_eq, not, truthy_text, Bool-cases, inl, inr, eq_iff,
}
use trust_vault.Sdk.Value.{Value, Fields, end, lookup, lookup-put, bool, truthy}
use trust_vault.Frontend.Pages.Consent.{
  PreferenceCenter, Purpose, flip_shown, initial_center, set_subject_id, begin_lookup, end_lookup,
  toggle, save_request, save_of, end_save, clear_saved, Save, flip,
}

-- What happens to the preferences: the subject is typed, a lookup begins or is answered, a preference is
-- clicked, and a save is answered or its timer fires.
pub data Action : Type 0 where
  typed : Text → Action
  began : Action
  answered : Option (Option Fields) → Action
  clicked : Purpose → Action
  saved cleared : Action

unfoldable pub step : Action → PreferenceCenter → PreferenceCenter
unfolding begin_lookup end_lookup toggle
step (Action.typed id) center = set_subject_id id center
step Action.began center = begin_lookup center
step (Action.answered prefs) center = end_lookup prefs center
step (Action.clicked purpose) center = toggle purpose center
step Action.saved center = end_save center
step Action.cleared center = clear_saved center

abbrev pub run : List Action → PreferenceCenter → PreferenceCenter
run [] center = center
run (a ∷ actions) center = run actions (step a center)

-- The subject that was typed last.
abbrev pub last_typed : Text → List Action → Text
last_typed id [] = id
last_typed id (Action.typed other ∷ actions) = last_typed other actions
last_typed id (_ ∷ actions) = last_typed id actions

-- What a click makes of the value of a key: the click on 'necessary' does nothing, and the click on
-- another preference puts the opposite of its own value.
abbrev pub after_click : String → Purpose → Value → Value
after_click key Purpose.necessary v = v
after_click key Purpose.analytics v = if str_eq "analytics" key then bool (not (truthy v)) else v
after_click key Purpose.marketing v = if str_eq "marketing" key then bool (not (truthy v)) else v
after_click key Purpose.personalization v =
    if str_eq "personalization" key then bool (not (truthy v)) else v

abbrev clicked_on : String → Purpose → Option Value → Option Value
clicked_on key purpose none = none
clicked_on key purpose (some v) = some (after_click key purpose v)

-- The value of a key in the lookup that was answered last, whatever its subject was, with the clicks
-- since; before a lookup was answered there is none, and a click does nothing.
abbrev pub shown_value : String → Option Value → List Action → Option Value
shown_value key v [] = v
shown_value key v (Action.answered (some found) ∷ actions) =
    shown_value key (some (lookup key (get_or found end))) actions
shown_value key v (Action.clicked purpose ∷ actions) =
    shown_value key (clicked_on key purpose v) actions
shown_value key v (_ ∷ actions) = shown_value key v actions

-- What a save sends: for whom, and the value of a key.
abbrev pub sent_for : Option Save → Option Text
sent_for none = none
sent_for (some save) = some save.subject

abbrev pub sent_value : String → Option Save → Option Value
sent_value key none = none
sent_value key (some save) = some (lookup key save.body)

-- Nothing is sent without a subject, and nothing before a lookup was answered.
abbrev pub unless_blank : {A : Type 0} → Text → Option A → Option A
unless_blank subject v = if truthy_text subject then v else none

abbrev pub for_subject : {A : Type 0} → Text → Option A → Option Text
for_subject subject none = none
for_subject subject (some v) = if truthy_text subject then some subject else none

abbrev value_in : String → Option Fields → Option Value
value_in key none = none
value_in key (some prefs) = some (lookup key prefs)

abbrev IsAt : String → Text → Option Value → PreferenceCenter → Type 0
IsAt key id v center = (center.subject_id ≡ id) × (value_in key center.prefs ≡ v)

begin_lookup_keeps :
    (center : PreferenceCenter)
    → ((begin_lookup center).subject_id ≡ center.subject_id)
      × ((begin_lookup center).prefs ≡ center.prefs)
unfolding begin_lookup
begin_lookup_keeps center = (ground arith, ground arith)

lookup-flip :
    (name key : String) (prefs : Fields)
    → lookup key (flip name prefs)
      ≡ (if str_eq name key then bool (not (truthy (lookup key prefs))) else lookup key prefs)
lookup-flip name key prefs =
    lookup-put name key (bool (not (truthy (lookup name prefs)))) prefs
    ∙ elim (Bool-cases (str_eq name key)) [
      | inl e ↦ rw e (ap (λ k. bool (not (truthy (lookup k prefs)))) ((eq_iff name key).0 e))
      | inr e ↦ rw e refl
    ]

value_in-flip_shown :
    (key : String) (purpose : Purpose) (prefs : Option Fields)
    → value_in key (flip_shown purpose prefs) ≡ clicked_on key purpose (value_in key prefs)
value_in-flip_shown key purpose none = refl
value_in-flip_shown key Purpose.necessary (some prefs) = refl
value_in-flip_shown key Purpose.analytics (some prefs) = ap some (lookup-flip "analytics" key prefs)
value_in-flip_shown key Purpose.marketing (some prefs) = ap some (lookup-flip "marketing" key prefs)
value_in-flip_shown key Purpose.personalization (some prefs) =
    ap some (lookup-flip "personalization" key prefs)

run-IsAt :
    (key : String) (actions : List Action) (center : PreferenceCenter)
    → IsAt key
        (last_typed center.subject_id actions)
        (shown_value key (value_in key center.prefs) actions)
        (run actions center)
unfolding step begin_lookup end_lookup toggle
run-IsAt key [] center = (refl, refl)
run-IsAt key (Action.typed id ∷ actions) center = run-IsAt key actions (set_subject_id id center)
run-IsAt key (Action.began ∷ actions) center =
    let rest = run-IsAt key actions (begin_lookup center) in
    let kept = begin_lookup_keeps center in
    (
      rest.0 ∙ ap (λ id. last_typed id actions) kept.0,
      rest.1 ∙ ap (λ prefs. shown_value key (value_in key prefs) actions) kept.1,
    )
run-IsAt key (Action.answered none ∷ actions) center = run-IsAt key actions (end_lookup none center)
run-IsAt key (Action.answered (some prefs) ∷ actions) center =
    run-IsAt key actions (end_lookup (some prefs) center)
run-IsAt key (Action.clicked purpose ∷ actions) center =
    let rest = run-IsAt key actions (toggle purpose center) in
    (
      rest.0,
      rest.1 ∙ ap (λ v. shown_value key v actions) (value_in-flip_shown key purpose center.prefs),
    )
run-IsAt key (Action.saved ∷ actions) center = run-IsAt key actions (end_save center)
run-IsAt key (Action.cleared ∷ actions) center = run-IsAt key actions (clear_saved center)

sent_of :
    (key : String) (subject : Text) (prefs : Option Fields)
    → (sent_for (save_of subject prefs) ≡ for_subject subject (value_in key prefs))
      × (sent_value key (save_of subject prefs) ≡ unless_blank subject (value_in key prefs))
sent_of key [] none = (refl, refl)
sent_of key (c ∷ subject) none = (refl, refl)
sent_of key [] (some prefs) = (refl, refl)
sent_of key (c ∷ subject) (some prefs) = (refl, refl)

-- After any sequence of events, a save sends, for each key, the value in the preferences of the lookup
-- that was answered last, with the clicks since, whether these were looked up for the subject that was
-- typed last or for another; it sends them for the subject that was typed last, and it sends nothing if
-- this is empty or no lookup was answered. Each click negates the value of its own preference, and that
-- of 'necessary' does nothing.
pub save_request-run :
    (key : String) (actions : List Action)
    → let save = save_request (run actions initial_center) in
      let subject = last_typed [] actions in
      (sent_for save ≡ for_subject subject (shown_value key none actions))
      × (sent_value key save ≡ unless_blank subject (shown_value key none actions))
unfolding save_request
save_request-run key actions =
    let center = run actions initial_center in
    let here = run-IsAt key actions initial_center in
    let sent = sent_of key center.subject_id center.prefs in
    (sent.0 ∙ ap₂ for_subject here.0 here.1, sent.1 ∙ ap₂ unless_blank here.0 here.1)
