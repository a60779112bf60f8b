-- ===== src/Sdk/Gate/Audit/Asked.antt =====
-- The query string of `getAuditEvents`, by what the options ask for.
use trust_vault.Prelude.{
  ℕ, String, [], ◌∷◌, ◌++◌, Text, text, Option, none, some, zero, suc, decimal,
}
use trust_vault.Sdk.Types.{AuditEventType, AuditQueryOptions}
use trust_vault.Sdk.Gate.Audit.{Params}

-- What the options ask for: each key once, in this order. An empty text and a zero are not given.
abbrev text_asked : String → Option Text → Params
text_asked key none = []
text_asked key (some []) = []
text_asked key (some (c ∷ v)) = (key, c ∷ v) ∷ []

abbrev date_asked : String → Option Text → Params
date_asked key none = []
date_asked key (some date) = (key, date) ∷ []

abbrev event_asked : Option AuditEventType → Params
event_asked none = []
event_asked (some AuditEventType.query) = ("eventType", text "query") ∷ []
event_asked (some AuditEventType.intercept) = ("eventType", text "intercept") ∷ []
event_asked (some AuditEventType.embed) = ("eventType", text "embed") ∷ []
event_asked (some AuditEventType.classify) = ("eventType", text "classify") ∷ []

abbrev number_asked : String → Option ℕ → Params
number_asked key none = []
number_asked key (some zero) = []
number_asked key (some (suc n)) = (key, decimal (suc n)) ∷ []

abbrev pub asked : AuditQueryOptions → Params
asked o =
    date_asked "startDate" o.start_date
    ++ (date_asked "endDate" o.end_date
        ++ (text_asked "userId" o.user_id
            ++ (event_asked o.event_type
                ++ (text_asked "policyId" o.policy_id
                    ++ (number_asked "limit" o.limit ++ number_asked "offset" o.offset)))))
