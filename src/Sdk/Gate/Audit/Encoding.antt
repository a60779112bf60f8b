-- ===== src/Sdk/Gate/Audit/Encoding.antt =====
-- No filter value can add a parameter to the query string.
use mathlib.Core.Path.{subst}
use trust_vault.Prelude.{
  count, ℕ, ◌+◌, ◌-◌, ◌/◌, ◌%◌, ◌<◌, ◌≡◌, refl, ◌⊎◌, ==_iff, inl, inr, String, Bool, true, false,
  ◌&&◌, List, [], ◌∷◌, ◌++◌, Text, text, All, length, arith, ◌==◌, Bool-cases,
}
use trust_vault.Sdk.Gate.Audit.{
  is_unreserved, is_high, is_low, hex_digit, form_byte, form_bytes, three_bytes, unit_bytes,
  pair_bytes, utf8, encode, Params, pair, to_query,
}

-- What an encoded text consists of: unreserved characters, '%' and '+'.
abbrev pub IsFormSafe : ℕ → Type 0
IsFormSafe c = (is_unreserved c ≡ true) ⊎ (c ≡ b'%') ⊎ (c ≡ b'+')

All-append {ℓ κ} :
    {A : Type ℓ} (IsGood : A → Type κ) (before after : List A)
    → All IsGood before
    → All IsGood after
    → All IsGood (before ++ after)
All-append IsGood [] after p q = q
All-append IsGood (a ∷ before) after (good, p) q = (good, All-append IsGood before after p q)

hex_digit-is_unreserved : (n : ℕ) → n < 16 → is_unreserved (hex_digit n) ≡ true
hex_digit-is_unreserved n h = ground arith

form_byte-IsFormSafe : (c : ℕ) → c < 256 → All IsFormSafe (form_byte c)
unfolding form_byte
form_byte-IsFormSafe c h = elim (Bool-cases (is_unreserved c)) [
  | inl u ↦ rw u (inl u, tt)
  | inr u ↦ elim (Bool-cases (c == 32)) [
    | inl b ↦ rw (u, b) (inr (inr refl), tt)
    | inr b ↦
        rw (u, b)
          (
            inr (inl refl),
            (
              inl (hex_digit-is_unreserved (c / 16) (omega arith)),
              (inl (hex_digit-is_unreserved (c % 16) (omega arith)), tt),
            ),
          )
  ]
]

abbrev pub IsByte : ℕ → Type 0
IsByte c = c < 256

form_bytes-IsFormSafe : (cs : List ℕ) → All IsByte cs → All IsFormSafe (form_bytes cs)
form_bytes-IsFormSafe [] h = tt
form_bytes-IsFormSafe (c ∷ cs) h =
    All-append IsFormSafe (form_byte c) (form_bytes cs) (form_byte-IsFormSafe c h.0)
      (form_bytes-IsFormSafe cs h.1)

-- A UTF-16 code unit.
abbrev pub IsUnit : ℕ → Type 0
IsUnit c = c < 65536

unit_bytes-IsByte : (c : ℕ) → IsUnit c → All IsByte (unit_bytes c)
unfolding unit_bytes three_bytes
unit_bytes-IsByte c h = ground arith

pair_bytes-IsByte : (c d : ℕ) → (is_high c && is_low d) ≡ true → All IsByte (pair_bytes c d)
unfolding pair_bytes
pair_bytes-IsByte c d h =
    let high : c < 0xdc00 = ground arith in let low : d < 0xe000 = ground arith in omega arith

either-IsByte :
    (b : Bool) (p q : List ℕ)
    → (b ≡ true → All IsByte p)
    → All IsByte q
    → All IsByte (elim b [ true ↦ p | false ↦ q ])
either-IsByte true p q hp hq = hp refl
either-IsByte false p q hp hq = hq

pub utf8-IsByte : (s : Text) → All IsUnit s → All IsByte (utf8 s)
unfolding utf8
utf8-IsByte [] h = tt
utf8-IsByte (c ∷ []) h = unit_bytes-IsByte c h.0
utf8-IsByte (c ∷ d ∷ s) h =
    either-IsByte (is_high c && is_low d) (pair_bytes c d ++ utf8 s) (unit_bytes c ++ utf8 (d ∷ s))
      (λ e.
        All-append IsByte (pair_bytes c d) (utf8 s) (pair_bytes-IsByte c d e) (utf8-IsByte s h.1.1))
      (All-append IsByte (unit_bytes c) (utf8 (d ∷ s)) (unit_bytes-IsByte c h.0)
        (utf8-IsByte (d ∷ s) h.1))

encode-IsFormSafe : (s : Text) → All IsUnit s → All IsFormSafe (encode s)
unfolding encode
encode-IsFormSafe s h = form_bytes-IsFormSafe (utf8 s) (utf8-IsByte s h)

count-append : (a : ℕ) (s t : Text) → count a (s ++ t) ≡ count a s + count a t
count-append a [] t = omega arith
count-append a (c ∷ s) t = ground (arith, count-append a s t)

count-IsFormSafe : (a : ℕ) (s : Text) → (IsFormSafe a → ⊥) → All IsFormSafe s → count a s ≡ 0
count-IsFormSafe a [] no_a h = refl
count-IsFormSafe a (c ∷ s) no_a h = elim (Bool-cases (c == a)) [
  | inl e ↦ absurd (no_a (subst IsFormSafe ((==_iff c a).0 e) h.0))
  | inr e ↦ rw e (count-IsFormSafe a s no_a h.1)
]

pub count-encode : (a : ℕ) (s : Text) → (IsFormSafe a → ⊥) → All IsUnit s → count a (encode s) ≡ 0
count-encode a s no_a h = count-IsFormSafe a (encode s) no_a (encode-IsFormSafe s h)

not_safe_amp : IsFormSafe b'&' → ⊥
not_safe_amp h = ground arith

pub not_safe_eq : IsFormSafe b'=' → ⊥
not_safe_eq h = ground arith

-- Keys and values are texts of code units.
abbrev pub AreUnits : Params → Type 0
AreUnits [] = Unit
AreUnits ((k, v) ∷ ps) = All IsUnit (text k) × All IsUnit v × AreUnits ps

pub pair_counts :
    (k : String) (v : Text)
    → All IsUnit (text k)
    → All IsUnit v
    → (count b'=' (pair (k, v)) ≡ 1) × (count b'&' (pair (k, v)) ≡ 0)
unfolding text
pair_counts k v hk hv = (
  omega (
    arith,
    count-append b'=' (encode (text k)) (text "=" ++ encode v),
    count-encode b'=' (text k) not_safe_eq hk,
    count-encode b'=' v not_safe_eq hv,
  ),
  omega (
    arith,
    count-append b'&' (encode (text k)) (text "=" ++ encode v),
    count-encode b'&' (text k) not_safe_amp hk,
    count-encode b'&' v not_safe_amp hv,
  ),
)

-- A query string of n parameters has n times '=' and n - 1 times '&': no key and no value, whatever
-- its code units, can add a parameter or end one.
to_query_counts :
    (ps : Params)
    → AreUnits ps
    → (count b'=' (to_query ps) ≡ length ps) × (count b'&' (to_query ps) ≡ length ps - 1)
unfolding to_query text
to_query_counts [] h = (refl, refl)
to_query_counts ((k, v) ∷ []) h = pair_counts k v h.0 h.1
to_query_counts ((k, v) ∷ q ∷ ps) h =
    let (eq, amp) = pair_counts k v h.0 h.1 in
    let (eqs, amps) = to_query_counts (q ∷ ps) h.2 in
    (
      omega (arith, count-append b'=' (pair (k, v)) (text "&" ++ to_query (q ∷ ps))),
      omega (arith, count-append b'&' (pair (k, v)) (text "&" ++ to_query (q ∷ ps))),
    )
