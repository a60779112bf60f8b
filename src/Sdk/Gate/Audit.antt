-- ===== src/Sdk/Gate/Audit.antt =====
-- gate.ts: the query string of `getAuditEvents`, with the URLSearchParams serialiser that it uses.
pub mod Encoding
pub mod Parsing
pub mod Asked
use trust_vault.Prelude.{
  ℕ, ◌+◌, ◌-◌, ◌*◌, ◌/◌, ◌%◌, String, Bool, true, false, ◌&&◌, ◌||◌, Option, none, some, List, [],
  ◌∷◌, ◌++◌, map, Text, text, decimal, truthy_text, ltb, leb, ◌==◌, if◌then◌else◌,
}
use trust_vault.Sdk.Types.{AuditEventType, AuditQueryOptions}

-- The UTF-8 bytes of code units; a surrogate that has no partner becomes U+FFFD.
abbrev is_high : ℕ → Bool
is_high c = leb 0xd800 c && ltb c 0xdc00

abbrev is_low : ℕ → Bool
is_low c = leb 0xdc00 c && ltb c 0xe000

three_bytes : ℕ → List ℕ
three_bytes c = (0xe0 + c / 4096) ∷ (0x80 + c / 64 % 64) ∷ (0x80 + c % 64) ∷ []

unit_bytes : ℕ → List ℕ
unfolding three_bytes
unit_bytes c =
    if ltb c 0x80
    then c ∷ []
    else if ltb c 0x800
    then (0xc0 + c / 64) ∷ (0x80 + c % 64) ∷ []
    else if is_high c || is_low c
    then three_bytes 0xfffd
    else three_bytes c

pair_bytes : ℕ → ℕ → List ℕ
pair_bytes c d =
    let p = 0x10000 + (c - 0xd800) * 1024 + (d - 0xdc00) in
    (0xf0 + p / 262144) ∷ (0x80 + p / 4096 % 64) ∷ (0x80 + p / 64 % 64) ∷ (0x80 + p % 64) ∷ []

pub utf8 : Text → List ℕ
unfolding unit_bytes pair_bytes
utf8 [] = []
utf8 (c ∷ []) = unit_bytes c
utf8 (c ∷ d ∷ s) = elim (is_high c && is_low d) [
  | true ↦ pair_bytes c d ++ utf8 s
  | false ↦ unit_bytes c ++ utf8 (d ∷ s)
]

-- The application/x-www-form-urlencoded byte serialiser.
abbrev pub is_unreserved : ℕ → Bool
is_unreserved c =
    leb b'0' c && leb c b'9'
    || leb b'A' c && leb c b'Z'
    || leb b'a' c && leb c b'z'
    || c == b'*'
    || c == b'-'
    || c == b'.'
    || c == b'_'

abbrev hex_digit : ℕ → ℕ
hex_digit n = if ltb n 10 then 48 + n else 55 + n

form_byte : ℕ → Text
form_byte c =
    if is_unreserved c
    then c ∷ []
    else if c == 32
    then b'+' ∷ []
    else b'%' ∷ hex_digit (c / 16) ∷ hex_digit (c % 16) ∷ []

abbrev form_bytes : List ℕ → Text
form_bytes [] = []
form_bytes (c ∷ cs) = form_byte c ++ form_bytes cs

unfoldable pub encode : Text → Text
unfolding utf8 form_byte
encode s = form_bytes (utf8 s)

abbrev pub Params : Type 0
Params = List (String × Text)

-- `params.toString()`
abbrev pair : String × Text → Text
pair (k, v) = encode (text k) ++ (text "=" ++ encode v)

pub to_query : Params → Text
to_query [] = []
to_query (p ∷ []) = pair p
to_query (p ∷ ps) = pair p ++ (text "&" ++ to_query ps)

pub event_type_name : AuditEventType → String
event_type_name AuditEventType.query = "query"
event_type_name AuditEventType.intercept = "intercept"
event_type_name AuditEventType.embed = "embed"
event_type_name AuditEventType.classify = "classify"

-- `if (value) { params.set(key, value) }`; each key is set once.
abbrev pub when_text : String → Option Text → Params → Params
when_text k none ps = ps
when_text k (some v) ps = if truthy_text v then (k, v) ∷ ps else ps

abbrev pub when_number : String → Option ℕ → Params → Params
when_number k none ps = ps
when_number k (some n) ps = if n == 0 then ps else (k, decimal n) ∷ ps

-- A date is truthy whatever its text.
abbrev pub when_date : String → Option Text → Params → Params
when_date k none ps = ps
when_date k (some v) ps = (k, v) ∷ ps

abbrev pub when_event : String → Option AuditEventType → Params → Params
when_event k none ps = ps
when_event k (some e) ps = (k, text (event_type_name e)) ∷ ps

unfoldable pub audit_params : AuditQueryOptions → Params
unfolding event_type_name
audit_params o = when_date "startDate" o.start_date (
    when_date "endDate" o.end_date (
      when_text "userId" o.user_id (
        when_event "eventType" o.event_type (
          when_text "policyId" o.policy_id
            (when_number "limit" o.limit (when_number "offset" o.offset []))))))

-- `queryString ? '/api/v1/audit?' + queryString : '/api/v1/audit'`
abbrev pub with_query : Text → Text
with_query [] = text "/api/v1/audit"
with_query (c ∷ s) = text "/api/v1/audit?" ++ (c ∷ s)

unfoldable pub audit_path : Option AuditQueryOptions → Text
unfolding audit_params to_query
audit_path none = with_query []
audit_path (some o) = with_query (to_query (audit_params o))
