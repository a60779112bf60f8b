-- ===== src/Sdk/Express/Admission.antt =====
-- What the middleware does with a request: it passes it on or answers it.
pub mod Passing
use trust_vault.Prelude.{
  ℕ, ◌+◌, ◌≡◌, refl, inl, inr, Bool, true, false, Option, none, some, get_or, arith, ◌∷◌,
  Bool-cases, if◌then◌else◌,
}
use trust_vault.Sdk.Value.{Value, str, truthy}
use trust_vault.Sdk.Types.{UserContext, GateInterceptResponse}
use trust_vault.Sdk.Errors.{Thrown, sdk, js, nullish}
use trust_vault.Sdk.Effect.{
  Env, World, Result, ok, throw, Io, ◌>>=◌, ◌>>◌, continue, attached, emit, json_wrapped,
  called_next,
}
use trust_vault.Sdk.Effect.Trace.{nexts, sends, IsQuiet}
use trust_vault.Sdk.Gate.Calls.{Wire}
use trust_vault.Sdk.Gate.Calls.Quiet.{intercept-IsQuiet}
use trust_vault.Sdk.Express.{
  Request, Host, SecureLensMiddlewareOptions, call_next, respond, default_get_query,
  default_on_error, default_on_blocked, empty_context, with_answer, intercept_text, user_of,
  query_of, blocked_by, failed_by, judge, screen, proceed, skipped, handle, secure_lens_middleware,
}
use trust_vault.Sdk.Express.Counting.{AreQuiet, Once, Once-continue, Once-recover, respond_sends}

-- How often a request was passed on or answered.
abbrev pub settled : World → ℕ
settled w = nexts w + sends w

-- A skip test that is not given, or that only looks at the request.
abbrev pub OnlyLooks : Option (Request → Io Bool) → Type 0
OnlyLooks none = Unit
OnlyLooks (some f) = (q : Request) (w : World) → (b : Bool) × (f q w ≡ (ok b, w))

module _ (env : Env) (wire : Wire) (host : Host) where
  intercept_text-IsQuiet :
      (options : SecureLensMiddlewareOptions) (user : Option UserContext) (v : Value) (w : World)
      → IsQuiet w (intercept_text env wire host options user v w).1
  unfolding intercept_text
  intercept_text-IsQuiet options user (str q) w = intercept-IsQuiet env wire options.client _ w
  intercept_text-IsQuiet options user _ w = (refl, refl)

  user_of-IsQuiet :
      (f : Option (Request → Io UserContext)) (request : Request) (w : World)
      → AreQuiet f
      → IsQuiet w (user_of env wire host f request w).1
  unfolding user_of
  user_of-IsQuiet none request w q = (refl, refl)
  user_of-IsQuiet (some f) request w q = ground (arith, q request w)

  query_of-IsQuiet :
      (f : Option (Request → Io Value)) (request : Request) (w : World)
      → AreQuiet f
      → IsQuiet w (query_of env wire host f request w).1
  unfolding query_of
  query_of-IsQuiet none request w q = (refl, refl)
  query_of-IsQuiet (some f) request w q = q request w

  skipped_looks :
      (f : Option (Request → Io Bool)) (request : Request) (w : World)
      → OnlyLooks f
      → (b : Bool) × (skipped env wire host f request w ≡ (ok b, w))
  unfolding skipped
  skipped_looks none request w l = (false, refl)
  skipped_looks (some f) request w l = l request w

  -- A screening that goes on, or throws, has settled nothing; one that stops has settled it.
  abbrev Screened : ℕ → Result Bool × World → Type 0
  Screened n (ok true, w) = settled w ≡ n
  Screened n (ok false, w) = settled w ≡ n + 1
  Screened n (throw e, w) = settled w ≡ n

  Screened-continue :
      {A : Type 0} (r : Result A) (w : World) (k : A → Io Bool) (n : ℕ)
      → settled w ≡ n
      → ((a : A) (v : World) → settled v ≡ n → Screened n (k a v))
      → Screened n (continue r k w)
  Screened-continue (ok a) w k n h c = c a w h
  Screened-continue (throw e) w k n h c = h

  module _ (nexts_all : (v : World) → host.next v ≡ none)
      (sends_all : (v : World) (s : Option ℕ) (b : Value) → host.send v s b ≡ none) where
    call_next_calls : (v : World) → call_next host v ≡ (ok tt, called_next ∷ v)
    call_next_calls v = rw (nexts_all v) refl

    blocked_by_once :
        (f : Option (GateInterceptResponse → Request → Io (Unit {0})))
        (result : GateInterceptResponse) (request : Request) (v : World)
        → f ≡ none
        → let (r, u) = blocked_by env wire host f result request v in
          (r ≡ ok tt) × (nexts u ≡ nexts v) × (sends u ≡ sends v + 1)
    unfolding blocked_by default_on_blocked
    blocked_by_once none result request v h =
        rw (respond_sends host sends_all _ _ v) (refl, refl, refl)
    blocked_by_once (some f) result request v h = absurd (cc)

    failed_by_once :
        (f : Option (Thrown → Request → Io (Unit {0}))) (request : Request) (e : Thrown) (v : World)
        → f ≡ none
        → let (r, u) = failed_by env wire host f request e v in
          (r ≡ ok tt) × (nexts u ≡ nexts v) × (sends u ≡ sends v + 1)
    unfolding failed_by default_on_error
    failed_by_once none request (sdk e) v h =
        rw (respond_sends host sends_all _ _ v) (refl, refl, refl)
    failed_by_once none request (js e) v h =
        rw (respond_sends host sends_all _ _ v) (refl, refl, refl)
    failed_by_once none request (nullish t) v h =
        rw (respond_sends host sends_all _ _ v) (refl, refl, refl)
    failed_by_once (some f) request e v h = absurd (cc)

    module _ (options : SecureLensMiddlewareOptions) (plain_block : options.on_blocked ≡ none)
        (plain_error : options.on_error ≡ none) where
      refusal_screens :
          (r : Result (Unit {0})) (v : World) (n : ℕ)
          → r ≡ ok tt
          → settled v ≡ n + 1
          → Screened n (continue r (λ u w. (ok false, w)) v)
      refusal_screens (ok u) v n e h = h
      refusal_screens (throw x) v n e h = absurd (cc)

      judge_screens :
          (user : Option UserContext) (request : Request) (result : GateInterceptResponse)
          (w : World) (n : ℕ)
          → settled w ≡ n
          → Screened n (judge env wire host options user request result w)
      unfolding judge
      judge_screens user request result w n h = elim (Bool-cases result.allowed) [
        | inl e ↦ rw e h
        | inr e ↦
            let v = attached (with_answer user result) ∷ w in
            let x = blocked_by env wire host options.on_blocked result request v in
            let (a, b, c) = blocked_by_once options.on_blocked result request v plain_block in
            simp e (refusal_screens x.0 x.1 n a (omega arith))
      ]

      asked_screens :
          (user : Option UserContext) (request : Request) (q : Value) (w : World) (n : ℕ)
          → settled w ≡ n
          → Screened n (
              (intercept_text env wire host options user q
                  >>= judge env wire host options user request)
                w)
      asked_screens user request q w n h =
          let y = intercept_text env wire host options user q w in
          Screened-continue y.0 y.1 (judge env wire host options user request) n
            (omega (arith, intercept_text-IsQuiet options user q w))
            (λ result v hv. judge_screens user request result v n hv)

      screen_screens :
          (user : Option UserContext) (request : Request) (w : World) (n : ℕ)
          → AreQuiet options.get_query
          → settled w ≡ n
          → Screened n (screen env wire host options user request w)
      unfolding screen
      screen_screens user request w n quiet h =
          elim (Bool-cases (get_or options.intercept_requests false)) [
            | inr e ↦ rw e h
            | inl e ↦ rw e (
                let x = query_of env wire host options.get_query request w in
                Screened-continue x.0 x.1 _ n
                  (omega (arith, query_of-IsQuiet options.get_query request w quiet))
                  λ q v hv. elim (Bool-cases (truthy q)) [
                    | inl t ↦ rw t (asked_screens user request q v n hv)
                    | inr t ↦ rw t hv
                  ])
          ]

      proceed-Once :
          (n : ℕ) (r : Result Bool) (w : World)
          → Screened n (r, w)
          → Once settled n (continue r (proceed env wire host options) w)
      unfolding proceed
      proceed-Once n (throw e) w h = h
      proceed-Once n (ok false) w h = h
      proceed-Once n (ok true) w h = elim (Bool-cases (get_or options.audit_responses false)) [
        | inl e ↦ rw (e, call_next_calls (json_wrapped ∷ w)) (omega arith)
        | inr e ↦ rw (e, call_next_calls w) (omega arith)
      ]

      handle_once :
          (request : Request) (w : World)
          → AreQuiet options.get_user_context
          → AreQuiet options.get_query
          → let (r, w') = handle env wire host options request w in
            (r ≡ ok tt) × (settled w' ≡ settled w + 1)
      unfolding handle
      handle_once request w quiet_user quiet_query =
          let v = attached empty_context ∷ w in
          let n = settled w in
          let x = user_of env wire host options.get_user_context request v in
          let rest = λ (user : Option UserContext).
            screen env wire host options user request >>= proceed env wire host options in
          let once =
            Once-continue settled x.0 x.1 rest n
              (omega (arith, user_of-IsQuiet options.get_user_context request v quiet_user))
              λ user u hu.
                let y = screen env wire host options user request u in
                proceed-Once n y.0 y.1 (screen_screens user request u n quiet_query hu) in
          let z = continue x.0 rest x.1 in
          Once-recover settled z.0 z.1 (failed_by env wire host options.on_error request) n once
            λ e u hu.
              let (a, b, c) = failed_by_once options.on_error request e u plain_error in
              (a, omega arith)

  -- With the default error and block handlers the middleware never throws, and it does exactly one
  -- thing with a request: it calls `next` once or sends one response. The other callbacks do neither,
  -- the skip test only looks at the request and does not throw, nor do Express's own functions.
  pub secure_lens_middleware_once :
      (options : SecureLensMiddlewareOptions) (request : Request) (w : World)
      → ((v : World) → host.next v ≡ none)
      → ((v : World) (s : Option ℕ) (b : Value) → host.send v s b ≡ none)
      → options.on_blocked ≡ none
      → options.on_error ≡ none
      → OnlyLooks options.skip
      → AreQuiet options.get_user_context
      → AreQuiet options.get_query
      → let (r, w') = secure_lens_middleware env wire host options request w in
        (r ≡ ok tt) × (settled w' ≡ settled w + 1)
  unfolding secure_lens_middleware
  secure_lens_middleware_once options request w nexts_all sends_all plain_block plain_error looks
        quiet_user quiet_query =
      let (b, e) = skipped_looks options.skip request w looks in
      rw e (elim (Bool-cases b) [
        | inl t ↦ rw (t, call_next_calls nexts_all sends_all w) (refl, omega arith)
        | inr t ↦ rw t (
            handle_once nexts_all sends_all options plain_block plain_error request w quiet_user
              quiet_query)
      ])
