-- ===== src/Sdk/Auth/Key.antt =====
-- Which keys are accepted, and what the mask of a key shows.
use trust_vault.Prelude.{
  ℕ, ◌+◌, ◌-◌, ◌≤◌, ◌<◌, sym, ◌∙◌, zero, suc, ◌≡◌, refl, ◌↔◌, ap, true, [], ◌∷◌, ◌++◌, Text, text,
  length, take, drop, length-append, starts_with, slice, slice_last, arith, truthy_text, ==_iff,
}
use mathlib.Core.Path.{ap₂}
use mathlib.Core.List.{append_assoc}
use trust_vault.Sdk.Effect.{ok}
use trust_vault.Sdk.Auth.{validate_api_key, mask_api_key, api_key_prefix}

starts_with_iff : (p s : Text) → (starts_with p s ≡ true) ↔ ((r : Text) × (s ≡ p ++ r))
starts_with_iff [] s = (λ _. (s, refl), λ _. refl)
starts_with_iff (a ∷ p) [] = (λ h. cc, λ h. cc (h.1))
starts_with_iff (a ∷ p) (b ∷ s) = (
  λ h.
      let (r, e) = (starts_with_iff p s).0 (ground arith) in
      let same : a ≡ b = (==_iff a b).0 (ground arith) in (r, cc),
  λ h.
      let (r, e) = h in
      let rest : s ≡ p ++ r = cc in
      let same : a ≡ b = cc in ground (arith, ==_iff a b, (starts_with_iff p s).1 (r, rest)),
)

is_accepted :
    (k : Text)
    → validate_api_key k ≡ ok tt
    → (starts_with api_key_prefix k ≡ true) × (32 ≤ length k)
unfolding validate_api_key
is_accepted k h = (ground arith, ground arith)

accepts :
    (k : Text) → starts_with api_key_prefix k ≡ true → 32 ≤ length k → validate_api_key k ≡ ok tt
unfolding validate_api_key
accepts k p l = ground arith

length-prefix : (r : Text) → length (api_key_prefix ++ r) ≡ length r + 3
unfolding text
length-prefix r = omega arith

-- A key is accepted exactly when it is "sl_" followed by at least 29 further code units.
validate_api_key_iff :
    (k : Text)
    → (validate_api_key k ≡ ok tt) ↔ ((r : Text) × (k ≡ text "sl_" ++ r) × (29 ≤ length r))
validate_api_key_iff k = (
  λ h.
      let (p, l) = is_accepted k h in
      let (r, e) = (starts_with_iff api_key_prefix k).0 p in
      (r, e, omega (arith, length-prefix r, ap length e)),
  λ h.
      let (r, e, l) = h in
      accepts k ((starts_with_iff api_key_prefix k).1 (r, e))
        (omega (arith, length-prefix r, ap length e)),
)

take-append_length : (h t : Text) (n : ℕ) → length h ≡ n → take n (h ++ t) ≡ h
take-append_length [] t zero e = refl
take-append_length [] t (suc n) e = absurd (omega arith)
take-append_length (x ∷ h) t zero e = absurd (omega arith)
take-append_length (x ∷ h) t (suc n) e = ap (λ s. x ∷ s) (take-append_length h t n (omega arith))

drop-append_length : (h t : Text) (n : ℕ) → length h ≡ n → drop n (h ++ t) ≡ t
drop-append_length [] t zero e = refl
drop-append_length [] t (suc n) e = absurd (omega arith)
drop-append_length (x ∷ h) t zero e = absurd (omega arith)
drop-append_length (x ∷ h) t (suc n) e = drop-append_length h t n (omega arith)

truthy-append : (s t : Text) → 0 < length s → truthy_text (s ++ t) ≡ true
truthy-append [] t l = absurd (omega arith)
truthy-append (x ∷ s) t l = refl

mask_long :
    (k : Text)
    → truthy_text k ≡ true
    → 12 ≤ length k
    → mask_api_key k ≡ slice 0 6 k ++ (text "..." ++ slice_last 4 k)
unfolding mask_api_key
mask_long k p l = ground arith

-- The mask of a key of at least 12 code units is its first six, "..." and its last four: what stands
-- between them, and how long that is, does not show.
mask_api_key_hides :
    (h m t : Text)
    → length h ≡ 6
    → length t ≡ 4
    → 2 ≤ length m
    → mask_api_key (h ++ (m ++ t)) ≡ h ++ (text "..." ++ t)
mask_api_key_hides h m t p q r =
    let total : length (h ++ (m ++ t)) ≡ length (h ++ m) + 4 =
      omega (arith, length-append h (m ++ t), length-append m t, length-append h m) in
    let at_end : length (h ++ m) ≡ length (h ++ (m ++ t)) - 4 = omega arith in
    mask_long (h ++ (m ++ t)) (truthy-append h (m ++ t) (omega arith))
      (omega (arith, length-append h (m ++ t), length-append m t))
    ∙ ap₂ (λ a b. a ++ (text "..." ++ b)) (take-append_length h (m ++ t) 6 p)
        (ap (drop (length (h ++ (m ++ t)) - 4)) (sym (append_assoc h m t))
          ∙ drop-append_length (h ++ m) t (length (h ++ (m ++ t)) - 4) at_end)
