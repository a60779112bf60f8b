-- ===== src/Frontend/Pages/Consent.antt =====
-- app/(app)/privacy/consent/page.tsx: the preferences of a subject, the configuration of the consent
-- widget, its code, and the forms that record and withdraw consent. `encodeURIComponent` is a parameter.
-- The preferences that the service has stored are an object.
pub mod Saving
use trust_vault.Prelude.{
  ℕ, ◌+◌, ◌-◌, Bool, true, false, not, List, [], ◌∷◌, ◌++◌, Option, none, some, get_or, String,
  Text, text, truthy_text, trim, if◌then◌else◌,
}
use trust_vault.Sdk.Value.{Value, Fields, bool, str, obj, field, end, lookup, put, member, truthy}

-- `authHeaders`, by what `localStorage` holds.
unfoldable pub auth_headers : Option Text → Text
unfolding text
auth_headers none = text "Bearer null"
auth_headers (some token) = text "Bearer " ++ token

-- `timers` counts those of a save that have not fired.
pub record PreferenceCenter : Type 0 where
  pub subject_id : Text
  pub prefs : Option Fields
  pub loading : Bool
  pub saved : Bool
  pub timers : ℕ

abbrev pub initial_center : PreferenceCenter
initial_center = record {
  subject_id = [];
  prefs = none;
  loading = false;
  saved = false;
  timers = 0;
}

abbrev pub set_subject_id : Text → PreferenceCenter → PreferenceCenter
set_subject_id id center = record center { subject_id = id }

-- The path of the preferences of a subject.
abbrev pub preferences_path : (Text → Text) → Text → Text
preferences_path encode id = text "/consent/preferences/" ++ encode id

-- `lookupPrefs` up to its `await`: the path that is read, if any.
unfoldable pub lookup_request : (Text → Text) → PreferenceCenter → Option Text
unfolding trim
lookup_request encode center =
    if truthy_text (trim center.subject_id)
    then some (preferences_path encode center.subject_id)
    else none

unfoldable pub begin_lookup : PreferenceCenter → PreferenceCenter
unfolding trim
begin_lookup center =
    if truthy_text (trim center.subject_id) then record center { loading = true } else center

-- And from there: `none` is a request that throws or is refused, and `some none` an answer without
-- preferences.
unfoldable pub end_lookup : Option (Option Fields) → PreferenceCenter → PreferenceCenter
end_lookup none center = record center { loading = false }
end_lookup (some prefs) center = record center { prefs = some (get_or prefs end); loading = false }

-- The preferences that are shown; the first is locked.
pub data Purpose : Type 0 where
  necessary analytics marketing personalization : Purpose

abbrev pub key_of : Purpose → String
key_of Purpose.necessary = "necessary"
key_of Purpose.analytics = "analytics"
key_of Purpose.marketing = "marketing"
key_of Purpose.personalization = "personalization"

abbrev pub locked : Purpose → Bool
locked Purpose.necessary = true
locked _ = false

-- `{ ...p, [key]: !p[key] }`
abbrev pub flip : String → Fields → Fields
flip key prefs = put key (bool (not (truthy (lookup key prefs)))) prefs

abbrev pub flip_shown : Purpose → Option Fields → Option Fields
flip_shown purpose none = none
flip_shown purpose (some prefs) =
    if locked purpose then some prefs else some (flip (key_of purpose) prefs)

unfoldable pub toggle : Purpose → PreferenceCenter → PreferenceCenter
toggle purpose center = record center { prefs = flip_shown purpose center.prefs }

-- What `savePrefs` sends: the subject whose path it is, and the body.
pub record Save : Type 0 where
  pub subject : Text
  pub body : Fields

abbrev pub save_of : Text → Option Fields → Option Save
save_of subject none = none
save_of subject (some prefs) =
    if truthy_text subject then some (record { subject = subject; body = prefs }) else none

unfoldable pub save_request : PreferenceCenter → Option Save
save_request center = save_of center.subject_id center.prefs

-- `savePrefs` from the answer on, whatever its status is; a request that throws ends there.
abbrev pub end_save : PreferenceCenter → PreferenceCenter
end_save center = record center { saved = true; timers = center.timers + 1 }

abbrev pub clear_saved : PreferenceCenter → PreferenceCenter
clear_saved center = record center { saved = false; timers = center.timers - 1 }

pub record WidgetConfig : Type 0 where
  pub primary_color : Text
  pub background_color : Text
  pub text_color : Text
  pub banner_title : Text
  pub banner_text : Text
  pub accept_label : Text
  pub reject_label : Text

pub record WidgetTab : Type 0 where
  pub config : WidgetConfig
  pub loading : Bool
  pub saved : Bool

unfoldable pub initial_widget : WidgetTab
unfolding text
initial_widget = record {
  config = record {
    primary_color = text "#6366f1";
    background_color = text "#ffffff";
    text_color = text "#111827";
    banner_title = text "We value your privacy";
    banner_text = text "We use cookies and similar technologies to improve your experience.";
    accept_label = text "Accept All";
    reject_label = text "Reject Non-Essential";
  };
  loading = false;
  saved = false;
}

-- The effect that loads the configuration; `none` is an answer that is refused or has none.
unfoldable pub load_widget : Option WidgetConfig → WidgetTab → WidgetTab
load_widget none tab = tab
load_widget (some config) tab =
    if truthy_text config.primary_color then record tab { config = config } else tab

-- `save` up to its `await`, and from there, whatever the status is.
unfoldable pub begin_save_widget : WidgetTab → WidgetTab
begin_save_widget tab = record tab { loading = true }

unfoldable pub end_save_widget : WidgetTab → WidgetTab
end_save_widget tab = record tab { loading = false; saved = true }

-- The code of the widget: the one that the service gives, if any.
unfoldable pub full_embed : Text → Text → Text
unfolding text
full_embed base code =
    if truthy_text code
    then code
    else text "<script src=\""
      ++ (base ++ text "/consent/widget.js?tenant=YOUR_TENANT_ID\"></script>")

pub record ConsentForms : Type 0 where
  pub subject_id : Text
  pub purpose : Text
  pub withdraw_id : Text

-- What the forms send, and what is left of them, by whether the service accepted.
abbrev pub record_body : ConsentForms → Value
record_body forms =
    obj (field "subject_id" (str forms.subject_id) (field "purpose" (str forms.purpose) end))

unfoldable pub recorded : Bool → ConsentForms → ConsentForms
recorded true forms = record forms { subject_id = []; purpose = [] }
recorded false forms = forms

-- What `handleWithdraw` sends, if anything.
unfoldable pub withdraw_request : ConsentForms → Option Text
unfolding trim
withdraw_request forms =
    if truthy_text (trim forms.withdraw_id) then some forms.withdraw_id else none

unfoldable pub withdrawn : Bool → ConsentForms → ConsentForms
withdrawn true forms = record forms { withdraw_id = [] }
withdrawn false forms = forms
