-- ===== src/Sdk/Tests/Routes.antt =====
-- Tests of the Express middleware and of the route handler.
use trust_vault.Prelude.{◌+◌, pos, ◌≡◌, refl, true, none, some, [], ◌∷◌, text}
use trust_vault.Sdk.Value.{undefined, str, obj, end, field, truthy}
use trust_vault.Sdk.Effect.{ok, attached}
use trust_vault.Sdk.Effect.Trace.{nexts, sends}
use trust_vault.Sdk.Express.{
  Request, Host, GateHandlerOptions, default_get_query, empty_context, intercept_text,
  secure_lens_middleware,
}
use trust_vault.Sdk.Express.Admission.{settled, secure_lens_middleware_once}
use trust_vault.Sdk.Express.Admission.Passing.{
  plain_options, admitted, secure_lens_middleware_admits,
}
use trust_vault.Sdk.Express.Route.{create_gate_handler}
use trust_vault.Sdk.Express.Route.Replies.{create_gate_handler_once}
use trust_vault.Sdk.Tests.{env_of, unavailable, accepted, client_of, wire}
use trust_vault.Sdk.Types.{amount}

abbrev host : Host
host = record { next = λ w. none; send = λ w s b. none }

abbrev chat : Request
chat = record { body = obj (field "message" (str (text "hi")) end); query = obj end }

has_message : truthy (default_get_query chat) ≡ true
unfolding default_get_query text
has_message = refl

-- The gate refuses the query.
secure_lens_middleware_admits_example :
    let options = plain_options (client_of (pos 0)) none none in
    let (r, w1) =
      intercept_text
        (env_of accepted)
        wire
        host
        options
        none
        (default_get_query chat)
        (attached empty_context ∷ []) in
    nexts (secure_lens_middleware (env_of accepted) wire host options chat []).1 ≡ 0 + admitted r
secure_lens_middleware_admits_example =
    secure_lens_middleware_admits (env_of accepted) wire host (λ v. refl) (λ v s b. refl)
      (client_of (pos 0)) none none chat [] has_message

-- The gate cannot be reached.
secure_lens_middleware_once_example :
    let (r, w') =
      secure_lens_middleware
        (env_of unavailable)
        wire
        host
        (plain_options (client_of (pos 0)) none none)
        chat
        [] in
    (r ≡ ok tt) × (settled w' ≡ 0 + 1)
secure_lens_middleware_once_example =
    secure_lens_middleware_once (env_of unavailable) wire host
      (plain_options (client_of (pos 0)) none none) chat [] (λ v. refl) (λ v s b. refl) refl refl tt
      tt tt

abbrev route_options : GateHandlerOptions
route_options = record {
  client = client_of (pos 0);
  llm_provider = none;
  model = none;
  context_source = none;
  top_k = some (amount (record { units = 5; places = 0 }));
  policies = none;
  get_user_context = none;
  get_query = none;
  format_response = none;
}

create_gate_handler_once_example :
    let (r, w') =
      create_gate_handler
        (env_of unavailable)
        wire
        host
        (λ result. undefined)
        route_options
        (record { body = obj (field "query" (str (text "hi")) end); query = undefined })
        [] in
    (r ≡ ok tt) × (sends w' ≡ 0 + 1)
create_gate_handler_once_example =
    create_gate_handler_once (env_of unavailable) wire host (λ result. undefined) (λ v s b. refl)
      route_options (record { body = obj (field "query" (str (text "hi")) end); query = undefined })
      [] tt tt tt
