-- ===== src/Frontend/ScanPage/Progress.antt =====
-- When the page stops showing a scan, and which ends it tells of.
use trust_vault.Prelude.{
  ◌≡◌, refl, sym, ap, ap₂, ◌∙◌, Bool, true, false, not, ◌&&◌, ◌||◌, List, [], ◌∷◌, ◌++◌, All, Text,
  text_eq, text_eq_iff, truthy_text, arith, if◌then◌else◌, Bool-cases, inl, inr, text,
}
use trust_vault.Frontend.Hooks.Shape.{Toast, success, error}
use trust_vault.Frontend.ScanPage.{
  ScanPage, scanning, is_scanning, end_toasts, status_effects, observe, begin_scan, end_scan,
}
use trust_vault.Sdk.Value.{str}

abbrev pub observe_all : List Text → ScanPage → ScanPage
observe_all [] page = page
observe_all (s ∷ statuses) page = observe_all statuses (observe s page)

abbrev pub last_of : Text → List Text → Text
last_of s [] = s
last_of s (t ∷ statuses) = last_of t statuses

abbrev pub all_same : Text → List Text → Bool
all_same s [] = true
all_same s (t ∷ statuses) = text_eq s t && all_same s statuses

abbrev pub IsLoaded : Text → Type 0
IsLoaded status = truthy_text status ≡ true

observe_same : (s : Text) (page : ScanPage) → text_eq page.status s ≡ true → observe s page ≡ page
unfolding observe
observe_same s page e = rw (e, observe) refl

observe_other :
    (s : Text) (page : ScanPage)
    → text_eq page.status s ≡ false
    → observe s page ≡ status_effects (record page { status = s })
unfolding observe
observe_other s page e = rw (e, observe) refl

last_of_same :
    (s : Text) (statuses : List Text) → all_same s statuses ≡ true → last_of s statuses ≡ s
last_of_same s [] h = refl
last_of_same s (t ∷ statuses) h = elim (Bool-cases (text_eq s t)) [
  | inl e ↦
      let q = (text_eq_iff s t).0 e in
      sym (ap (λ u. last_of u statuses) q) ∙ last_of_same s statuses (ground (arith, e))
  | inr e ↦ ground (arith, e)
]

last_of-scanning :
    (s : Text) (statuses : List Text)
    → all_same s statuses ≡ true
    → text_eq (last_of s statuses) scanning ≡ text_eq s scanning
last_of-scanning s statuses h = ap (λ t. text_eq t scanning) (last_of_same s statuses h)

-- What the page shows after some statuses, by the status that it started from.
observe_all_shows :
    (statuses : List Text) (page : ScanPage)
    → All IsLoaded statuses
    → page.is_pending ≡ false
    → is_scanning (observe_all statuses page) ≡ (
        if all_same page.status statuses
        then page.local_scanning || text_eq page.status scanning
        else text_eq (last_of page.status statuses) scanning)
unfolding observe status_effects
observe_all_shows [] page h p = ground arith
observe_all_shows (s ∷ statuses) page h p = elim (Bool-cases (text_eq page.status s)) [
  | inl e ↦
      ap (λ q. is_scanning (observe_all statuses q)) (observe_same s page e)
      ∙ observe_all_shows statuses page h.1 p
      ∙ ground (
        arith,
        e,
        ap (λ t. text_eq (last_of t statuses) scanning) ((text_eq_iff page.status s).0 e),
      )
  | inr e ↦
      ap (λ q. is_scanning (observe_all statuses q)) (observe_other s page e)
      ∙ observe_all_shows statuses (status_effects (record page { status = s })) h.1 p
      ∙ ground (arith, e, h.0, last_of-scanning s statuses)
]

-- A scan that the service has accepted on a page with a status that is not 'scanning': whatever
-- statuses are read then, the page shows a scan exactly as long as they are all the status of before,
-- or if the last of them is 'scanning'. A scan that ends before its status was read once is shown for
-- ever, then, while the status stays the same.
pub end_scan_shows :
    (page : ScanPage) (statuses : List Text)
    → text_eq page.status scanning ≡ false
    → All IsLoaded statuses
    → is_scanning (observe_all statuses (end_scan true (begin_scan page)))
      ≡ (all_same page.status statuses || text_eq (last_of page.status statuses) scanning)
unfolding end_scan begin_scan
end_scan_shows page statuses other loaded =
    observe_all_shows statuses (end_scan true (begin_scan page)) loaded refl ∙ ground arith

-- What an end is told of with: success for 'connected', failure for 'error'.
abbrev pub toast_for : Text → List Toast
toast_for status =
    if text_eq status (text "error")
    then error (str (text "Scan failed - check connection settings")) ∷ []
    else if text_eq status (text "connected")
    then success (str (text "Scan completed successfully - connection verified")) ∷ []
    else []

not_connected : (s : Text) → text_eq s (text "error") ≡ true → text_eq s (text "connected") ≡ false
unfolding text
not_connected s e = ap (λ u. text_eq u (text "connected")) ((text_eq_iff s (text "error")).0 e)

end_toasts-toast_for : (status : Text) → end_toasts status ≡ toast_for status
end_toasts-toast_for status = elim (Bool-cases (text_eq status (text "error"))) [
  | inl e ↦ ground (arith, e, not_connected status e)
  | inr e ↦ ground (arith, e)
]

-- The toasts of the ends in a sequence of statuses, the latest first.
abbrev pub end_between : Text → Text → List Toast
end_between s t = if text_eq s scanning && not (text_eq t scanning) then toast_for t else []

abbrev pub ends : Text → List Text → List Toast → List Toast
ends s [] toasts = toasts
ends s (t ∷ statuses) toasts = ends t statuses (end_between s t ++ toasts)

end_between_same :
    (s t : Text) (toasts : List Toast) → text_eq s t ≡ true → end_between s t ++ toasts ≡ toasts
end_between_same s t toasts e =
    ground (arith, e, ap (λ u. text_eq u scanning) ((text_eq_iff s t).0 e))

-- Whatever statuses are read after those that the effects have seen, the page tells of an end exactly
-- where a status other than 'scanning' follows 'scanning', in their order: of success for 'connected',
-- of failure for 'error', and of nothing for any other.
pub observe_all_toasts :
    (statuses : List Text) (page : ScanPage)
    → page.prev_status ≡ page.status
    → (observe_all statuses page).toasts ≡ ends page.status statuses page.toasts
unfolding status_effects
observe_all_toasts [] page seen = refl
observe_all_toasts (s ∷ statuses) page seen = elim (Bool-cases (text_eq page.status s)) [
  | inl e ↦
      ap (λ q. (observe_all statuses q).toasts) (observe_same s page e)
      ∙ observe_all_toasts statuses page seen
      ∙ ap₂ (λ t toasts. ends t statuses toasts) ((text_eq_iff page.status s).0 e)
          (sym (end_between_same page.status s page.toasts e))
  | inr e ↦
      ap (λ q. (observe_all statuses q).toasts) (observe_other s page e)
      ∙ observe_all_toasts statuses (status_effects (record page { status = s })) refl
      ∙ ap (ends s statuses)
          (ground (arith, ap (λ t. text_eq t scanning) seen, end_toasts-toast_for s))
]
