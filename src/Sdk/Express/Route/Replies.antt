-- ===== src/Sdk/Express/Route/Replies.antt =====
-- Every request to the route is answered, once.
use trust_vault.Prelude.{ℕ, ◌+◌, ◌≡◌, refl, inl, inr, Option, none, some, arith, Bool-cases}
use trust_vault.Sdk.Value.{Value, str, truthy}
use trust_vault.Sdk.Types.{UserContext, GateQueryResponse}
use trust_vault.Sdk.Errors.{Thrown, sdk, js, nullish}
use trust_vault.Sdk.Effect.{Env, World, ok, Io, continue}
use trust_vault.Sdk.Effect.Trace.{sends, IsQuiet}
use trust_vault.Sdk.Gate.Calls.{Wire}
use trust_vault.Sdk.Gate.Calls.Quiet.{query-IsQuiet}
use trust_vault.Sdk.Express.{Request, Host, GateHandlerOptions, respond}
use trust_vault.Sdk.Express.Counting.{AreQuiet, Once, Once-continue, Once-recover, respond_sends}
use trust_vault.Sdk.Express.Route.{
  on_route_error, ask, route_query, route_user, formatted, serve, create_gate_handler,
}

module _ (env : Env) (wire : Wire) (host : Host) (shown : GateQueryResponse → Value)
    (sends_all : (v : World) (s : Option ℕ) (b : Value) → host.send v s b ≡ none) where
  ask-IsQuiet :
      (options : GateHandlerOptions) (user : Option UserContext) (v : Value) (w : World)
      → IsQuiet w (ask env wire host shown options user v w).1
  unfolding ask
  ask-IsQuiet options user (str q) w = query-IsQuiet env wire options.client _ w
  ask-IsQuiet options user _ w = (refl, refl)

  route_query-IsQuiet :
      (f : Option (Request → Io Value)) (request : Request) (w : World)
      → AreQuiet f
      → IsQuiet w (route_query env wire host shown f request w).1
  unfolding route_query
  route_query-IsQuiet none request w q = (refl, refl)
  route_query-IsQuiet (some f) request w q = q request w

  route_user-IsQuiet :
      (f : Option (Request → Io UserContext)) (request : Request) (w : World)
      → AreQuiet f
      → IsQuiet w (route_user env wire host shown f request w).1
  unfolding route_user
  route_user-IsQuiet none request w q = (refl, refl)
  route_user-IsQuiet (some f) request w q = ground (arith, q request w)

  formatted-IsQuiet :
      (f : Option (GateQueryResponse → Io Value)) (result : GateQueryResponse) (w : World)
      → AreQuiet f
      → IsQuiet w (formatted env wire host shown f result w).1
  unfolding formatted
  formatted-IsQuiet none result w q = (refl, refl)
  formatted-IsQuiet (some f) result w q = q result w

  on_route_error_once :
      (e : Thrown) (v : World)
      → ((on_route_error host e v).0 ≡ ok tt) × (sends (on_route_error host e v).1 ≡ sends v + 1)
  unfolding on_route_error
  on_route_error_once (js e) v = rw (respond_sends host sends_all _ _ v) (refl, refl)
  on_route_error_once (nullish t) v = rw (respond_sends host sends_all _ _ v) (refl, refl)
  on_route_error_once (sdk e) v = rw (respond_sends host sends_all _ _ v) (refl, refl)

  respond-Once :
      (s : Option ℕ) (b : Value) (v : World) (n : ℕ)
      → sends v ≡ n
      → Once sends n (respond host s b v)
  respond-Once s b v n h = rw (respond_sends host sends_all s b v) (omega arith)

  serve-Once :
      (options : GateHandlerOptions) (request : Request) (q : Value) (w : World) (n : ℕ)
      → AreQuiet options.get_user_context
      → AreQuiet options.format_response
      → sends w ≡ n
      → Once sends n (serve env wire host shown options request q w)
  unfolding serve
  serve-Once options request q w n quiet_user quiet_format h = elim (Bool-cases (truthy q)) [
    | inr e ↦ rw e (respond-Once _ _ w n h)
    | inl e ↦ rw e (
        let x = route_user env wire host shown options.get_user_context request w in
        Once-continue sends x.0 x.1 _ n
          (omega (arith, route_user-IsQuiet options.get_user_context request w quiet_user))
          λ user v hv.
            let y = ask env wire host shown options user q v in
            Once-continue sends y.0 y.1 _ n (omega (arith, ask-IsQuiet options user q v))
              λ result u hu.
                let z = formatted env wire host shown options.format_response result u in
                Once-continue sends z.0 z.1 _ n
                  (omega (arith, formatted-IsQuiet options.format_response result u quiet_format))
                  λ body t ht. respond-Once none body t n ht)
  ]

  -- The route handler never throws and sends exactly one response, whatever the gate answers or the
  -- callbacks throw, if Express's `send` does not throw and the callbacks send nothing and call
  -- no `next`.
  pub create_gate_handler_once :
      (options : GateHandlerOptions) (request : Request) (w : World)
      → AreQuiet options.get_query
      → AreQuiet options.get_user_context
      → AreQuiet options.format_response
      → let (r, w') = create_gate_handler env wire host shown options request w in
        (r ≡ ok tt) × (sends w' ≡ sends w + 1)
  unfolding create_gate_handler
  create_gate_handler_once options request w quiet_query quiet_user quiet_format =
      let x = route_query env wire host shown options.get_query request w in
      let served =
        Once-continue sends x.0 x.1 (serve env wire host shown options request) (sends w)
          (omega (arith, route_query-IsQuiet options.get_query request w quiet_query))
          (λ q v h. serve-Once options request q v (sends w) quiet_user quiet_format h) in
      let y = continue x.0 (serve env wire host shown options request) x.1 in
      Once-recover sends y.0 y.1 (on_route_error host) (sends w) served
        λ e v h. let (a, b) = on_route_error_once e v in (a, omega arith)
