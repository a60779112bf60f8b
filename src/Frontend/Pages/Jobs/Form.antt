-- ===== src/Frontend/Pages/Jobs/Form.antt =====
-- What the form of a job sends.
use trust_vault.Prelude.{
  ◌≡◌, refl, ap, true, false, some, Text, text, text_eq, text_eq_iff, text_eq_refl, arith,
  Bool-cases, inl, inr, if◌then◌else◌,
}
use trust_vault.Sdk.Value.{Value, obj, end, str, member, truthy}
use trust_vault.Frontend.Pages.Jobs.{
  Job, Sent, is_preset, custom, load_form, chosen_schedule, handle_submit, schedule_presets,
}

custom_is_no_preset : is_preset custom ≡ false
unfolding schedule_presets text
custom_is_no_preset = refl

no_preset : (s : Text) → is_preset s ≡ true → text_eq s custom ≡ false
no_preset s p = elim (Bool-cases (text_eq s custom)) [
  | inl e ↦ ground (arith, p, custom_is_no_preset, ap is_preset ((text_eq_iff s custom).0 e))
  | inr e ↦ e
]

-- A job that is opened in the form and sent without a change is sent to its own address, with its name,
-- its type, its schedule, whether this is a preset or not, and its configuration, or an empty one.
pub handle_submit-load_form :
    (job : Job)
    → (body : Value) × (handle_submit (some job) (load_form (some job)) ≡ Sent.updated job.id body)
      × (member "name" body ≡ str job.name)
      × (member "type" body ≡ str job.type)
      × (member "schedule" body ≡ str job.schedule)
      × (member "config" body ≡ (if truthy job.config then job.config else obj end))
unfolding handle_submit load_form
handle_submit-load_form job = (_, refl, refl, refl, ap str schedule, refl)
  where
    schedule : chosen_schedule (load_form (some job)) ≡ job.schedule
    schedule = elim (Bool-cases (is_preset job.schedule)) [
      | inl p ↦ ground (arith, p, no_preset job.schedule p)
      | inr p ↦ ground (arith, p, text_eq_refl custom)
    ]
