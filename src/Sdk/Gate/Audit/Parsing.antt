-- ===== src/Sdk/Gate/Audit/Parsing.antt =====
-- A query string read back by the rules of application/x-www-form-urlencoded.
use trust_vault.Prelude.{
  count, split_on_before, split_on_alone, split_on, ℕ, ◌+◌, ◌-◌, ◌*◌, ◌/◌, ◌%◌, ◌<◌, ◌≡◌, refl, ap,
  ap₂, String, ◌∙◌, inl, inr, Bool, true, false, ◌&&◌, ◌||◌, List, [], ◌∷◌, ◌++◌, Text, text, map,
  All, arith, leb, ◌==◌, if◌then◌else◌, Bool-cases,
}
use trust_vault.Sdk.Gate.Audit.{
  is_unreserved, hex_digit, form_byte, form_bytes, utf8, encode, Params, pair, to_query,
}
use trust_vault.Sdk.Gate.Audit.Encoding.{
  IsUnit, AreUnits, IsByte, count-encode, not_safe_eq, utf8-IsByte, pair_counts,
}

-- What stands before the first '=', and what behind it.
pub cut : Text → Text × Text
cut [] = ([], [])
cut (c ∷ s) = let (a, b) = cut s in if c == b'=' then ([], s) else (c ∷ a, b)

abbrev is_hex : ℕ → Bool
is_hex c = leb b'0' c && leb c b'9' || leb b'A' c && leb c b'F' || leb b'a' c && leb c b'f'

abbrev hex_value : ℕ → ℕ
hex_value c = if leb c b'9' then c - 48 else if leb c b'F' then c - 55 else c - 87

abbrev plain : ℕ → ℕ
plain c = if c == b'+' then 32 else c

pub decode : Text → List ℕ
decode [] = []
decode (c ∷ []) = plain c ∷ []
decode (c ∷ a ∷ []) = plain c ∷ decode (a ∷ [])
decode (c ∷ a ∷ b ∷ s) = elim (c == b'%' && is_hex a && is_hex b) [
  | true ↦ (hex_value a * 16 + hex_value b) ∷ decode s
  | false ↦ plain c ∷ decode (a ∷ b ∷ s)
]

-- The pairs of names and values, as bytes; an empty piece is no pair.
abbrev with_piece : Text → List (List ℕ × List ℕ) → List (List ℕ × List ℕ)
with_piece [] pairs = pairs
with_piece (c ∷ s) pairs = let (a, b) = cut (c ∷ s) in (decode a, decode b) ∷ pairs

abbrev read_pieces : List Text → List (List ℕ × List ℕ)
read_pieces [] = []
read_pieces (p ∷ ps) = with_piece p (read_pieces ps)

unfoldable pub parse_query : Text → List (List ℕ × List ℕ)
unfolding split_on cut decode
parse_query s = read_pieces (split_on b'&' s)

decode-plain : (c : ℕ) (s : Text) → (c == b'%') ≡ false → decode (c ∷ s) ≡ plain c ∷ decode s
unfolding decode
decode-plain c [] h = refl
decode-plain c (a ∷ []) h = refl
decode-plain c (a ∷ b ∷ s) h = rw (h, decode) refl

decode_hex :
    (a b : ℕ) (s : Text)
    → is_hex a ≡ true
    → is_hex b ≡ true
    → decode (b'%' ∷ a ∷ b ∷ s) ≡ (hex_value a * 16 + hex_value b) ∷ decode s
unfolding decode
decode_hex a b s ha hb = rw (ha, hb, decode) refl

hex_digit-is_hex : (n : ℕ) → n < 16 → is_hex (hex_digit n) ≡ true
hex_digit-is_hex n h = ground arith

hex_value-hex_digit : (n : ℕ) → n < 16 → hex_value (hex_digit n) ≡ n
hex_value-hex_digit n h = ground arith

unreserved_plain : (c : ℕ) → is_unreserved c ≡ true → ((c == b'%') ≡ false) × (plain c ≡ c)
unreserved_plain c h = ground arith

decode-form_byte : (c : ℕ) (s : Text) → c < 256 → decode (form_byte c ++ s) ≡ c ∷ decode s
unfolding form_byte
decode-form_byte c s h = elim (Bool-cases (is_unreserved c)) [
  | inl u ↦
      let (no_percent, same) = unreserved_plain c u in
      rw u (decode-plain c s no_percent ∙ ap (λ d. d ∷ decode s) same)
  | inr u ↦ elim (Bool-cases (c == 32)) [
    | inl b ↦ rw (u, b) (decode-plain b'+' s refl ∙ ap (λ d. d ∷ decode s) (ground arith))
    | inr b ↦
        rw (u, b)
          (decode_hex (hex_digit (c / 16)) (hex_digit (c % 16)) s
              (hex_digit-is_hex (c / 16) (omega arith)) (hex_digit-is_hex (c % 16) (omega arith))
            ∙ ap (λ d. d ∷ decode s)
                (omega (
                  arith,
                  hex_value-hex_digit (c / 16) (omega arith),
                  hex_value-hex_digit (c % 16) (omega arith),
                )))
  ]
]

decode-form_bytes : (cs : List ℕ) → All IsByte cs → decode (form_bytes cs) ≡ cs
unfolding decode
decode-form_bytes [] h = refl
decode-form_bytes (c ∷ cs) h =
    decode-form_byte c (form_bytes cs) h.0 ∙ ap (λ ds. c ∷ ds) (decode-form_bytes cs h.1)

decode-encode : (s : Text) → All IsUnit s → decode (encode s) ≡ utf8 s
unfolding encode
decode-encode s h = decode-form_bytes (utf8 s) (utf8-IsByte s h)

cut_at : (a b : Text) → count b'=' a ≡ 0 → cut (a ++ (b'=' ∷ b)) ≡ (a, b)
unfolding cut
cut_at [] b h = refl
cut_at (c ∷ a) b h = ground (arith, cut_at a b)

with_piece_at :
    (a b : Text) (pairs : List (List ℕ × List ℕ))
    → count b'=' a ≡ 0
    → with_piece (a ++ (b'=' ∷ b)) pairs ≡ (decode a, decode b) ∷ pairs
unfolding cut
with_piece_at [] b pairs h = refl
with_piece_at (c ∷ a) b pairs h =
    ap (λ halves. (decode halves.0, decode halves.1) ∷ pairs) (cut_at (c ∷ a) b h)

abbrev pub bytes : String × Text → List ℕ × List ℕ
bytes (k, v) = (utf8 (text k), utf8 v)

with_piece-pair :
    (k : String) (v : Text) (pairs : List (List ℕ × List ℕ))
    → All IsUnit (text k)
    → All IsUnit v
    → with_piece (pair (k, v)) pairs ≡ bytes (k, v) ∷ pairs
unfolding text
with_piece-pair k v pairs hk hv =
    with_piece_at (encode (text k)) (encode v) pairs (count-encode b'=' (text k) not_safe_eq hk)
    ∙ ap₂ (λ a b. (a, b) ∷ pairs) (decode-encode (text k) hk) (decode-encode v hv)

read_pieces-pair : (ps : Params) → AreUnits ps → read_pieces (map pair ps) ≡ map bytes ps
read_pieces-pair [] h = refl
read_pieces-pair ((k, v) ∷ ps) h =
    with_piece-pair k v (read_pieces (map pair ps)) h.0 h.1
    ∙ ap (λ rest. bytes (k, v) ∷ rest) (read_pieces-pair ps h.2)

split_on-to_query :
    (p : String × Text) (ps : Params)
    → AreUnits (p ∷ ps)
    → split_on b'&' (to_query (p ∷ ps)) ≡ map pair (p ∷ ps)
unfolding to_query text
split_on-to_query (k, v) [] h = split_on_alone b'&' (pair (k, v)) (pair_counts k v h.0 h.1).1
split_on-to_query (k, v) (q ∷ ps) h =
    split_on_before b'&' (pair (k, v)) (to_query (q ∷ ps)) (pair_counts k v h.0 h.1).1
    ∙ ap (λ rest. pair (k, v) ∷ rest) (split_on-to_query q ps h.2)

-- A query string read back gives the parameters that were written.
pub parse_query-to_query : (ps : Params) → AreUnits ps → parse_query (to_query ps) ≡ map bytes ps
unfolding parse_query to_query
parse_query-to_query [] h = refl
parse_query-to_query (p ∷ ps) h =
    ap read_pieces (split_on-to_query p ps h) ∙ read_pieces-pair (p ∷ ps) h
