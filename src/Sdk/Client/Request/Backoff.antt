-- ===== src/Sdk/Client/Request/Backoff.antt =====
-- How often a request is sent, how long the client waits between, and which error it gives up with.
use native.Mathlib.Nat.{pow-suc}
use mathlib.Core.Path.{subst}
use trust_vault.Prelude.{
  ℕ, zero, suc, ◌+◌, ◌*◌, ◌^◌, ◌≤◌, pos, negsuc, ◌≡◌, refl, ap, ◌⊎◌, inl, inr, Bool, true, false,
  not, ◌||◌, String, Option, none, some, ◌++◌, Text, text, arith, Bool-cases,
}
use trust_vault.Sdk.Value.{Value}
use trust_vault.Sdk.Types.{RequestOptions}
use trust_vault.Sdk.Errors.{Thrown, sdk, no_options, secure_lens_error, is_retryable_error}
use trust_vault.Sdk.Effect.{Env, Result, ok, throw, World, Io, ◌>>◌}
use trust_vault.Sdk.Effect.Trace.{OneFetch, fetches, total_slept}
use trust_vault.Sdk.Client.Config.{SecureLensClient}
use trust_vault.Sdk.Client.Execute.{execute_request, timeout_of}
use trust_vault.Sdk.Client.Execute.Failures.{execute_request-OneFetch}
use trust_vault.Sdk.Client.Request.{
  backoff, settle, retry_loop, request, is_last, rounds, note_retry,
}

-- The pause before an attempt, and the pauses before all attempts up to it.
abbrev pub pause : ℕ → ℕ
pause zero = 0
pause (suc n) = 1000 * 2 ^ n

abbrev pub paused : ℕ → ℕ
paused zero = 0
paused (suc n) = paused n + 1000 * 2 ^ n

paused_closed : (n : ℕ) → paused n + 1000 ≡ 1000 * 2 ^ n
paused_closed zero = refl
paused_closed (suc n) = omega (arith, paused_closed n, pow-suc 2 n)

-- The loop has ended: by a value, or by an error that is not retried.
abbrev pub IsSettled : Result Value → Type 0
IsSettled (ok v) = Unit
IsSettled (throw e) = is_retryable_error e ≡ false

module _ (client : SecureLensClient) where
  backoff_trace :
      (a : ℕ) (w : World)
      → let (r, w') = backoff client a w in
        (r ≡ ok tt) × (fetches w' ≡ fetches w) × (total_slept w' ≡ total_slept w + pause a)
  backoff_trace zero w = ground arith
  backoff_trace (suc n) w = ground arith

  -- From attempt `a` on with `m` more allowed: `k` repetitions, with the pauses before each.
  abbrev Paced : ℕ → ℕ → World → Result Value × World → Type 0
  Paced m a w (r, w') =
      (k : ℕ) × (k ≤ m)
      × (fetches w' ≡ fetches w + k + 1)
      × (total_slept w' + paused a ≡ total_slept w + pause a + paused (a + k))
      × ((k ≡ m) ⊎ IsSettled r)

  -- One more repetition before those of `x`, whose history starts where attempt `a` has failed.
  Paced-again :
      (m a : ℕ) (w w1 : World) (x : Result Value × World)
      → fetches w1 ≡ fetches w + 1
      → total_slept w1 ≡ total_slept w + pause a
      → Paced m (suc a) w1 x
      → Paced (suc m) a w x
  Paced-again m a w w1 x f t (k, le, more, slept_more, last) = (
    suc k,
    omega arith,
    omega arith,
    (let same : paused (suc a + k) ≡ paused (a + suc k) = ap paused (omega arith) in omega arith),
    ground arith,
  )

  Paced-stop :
      (m a : ℕ) (w w1 : World) (r : Result Value)
      → fetches w1 ≡ fetches w + 1
      → total_slept w1 ≡ total_slept w + pause a
      → ((0 ≡ m) ⊎ IsSettled r)
      → Paced m a w (r, w1)
  Paced-stop m a w w1 r f t last = (
    0,
    omega arith,
    omega arith,
    (let same : paused (a + 0) ≡ paused a = ap paused (omega arith) in omega arith),
    last,
  )

  -- Whether the loop stops at an error, on attempt `a`.
  abbrev stops : ℕ → Thrown → Bool
  stops a x = not (is_retryable_error x) || is_last client.retries a

  settle_gives_up :
      (a : ℕ) (w : World) (next : Thrown → Io Value) (x : Thrown)
      → stops a x ≡ true
      → settle client a next (throw x) w ≡ (throw x, w)
  settle_gives_up a w next x h = rw h

  settle_repeats :
      (a : ℕ) (w : World) (next : Thrown → Io Value) (x : Thrown)
      → stops a x ≡ false
      → (v : World) × (settle client a next (throw x) w ≡ next x v)
        × (fetches v ≡ fetches w)
        × (total_slept v ≡ total_slept w)
  settle_repeats a w next x h =
      ((note_retry client x w).1, ground arith, ground arith, ground arith)

  module _ (retries : ℕ) (limit : client.retries ≡ pos retries) where
    stops_last :
        (a m : ℕ) (x : Thrown) → a + m ≡ retries → stops a x ≡ true → (0 ≡ m) ⊎ IsSettled (throw x)
    stops_last a m x e h = ground arith

    repeats_more :
        (a m : ℕ) (x : Thrown) → a + m ≡ retries → stops a x ≡ false → (p : ℕ) × (m ≡ suc p)
    repeats_more a zero x e h = absurd (ground arith)
    repeats_more a (suc p) x e h = (p, refl)

    settle-Paced :
        (m a : ℕ) (w w1 : World) (next : Thrown → Io Value) (r : Result Value)
        → ((e : Thrown) (v : World) (p : ℕ) → m ≡ suc p → Paced p (suc a) v (next e v))
        → a + m ≡ retries
        → fetches w1 ≡ fetches w + 1
        → total_slept w1 ≡ total_slept w + pause a
        → Paced m a w (settle client a next r w1)
    settle-Paced m a w w1 next (ok v) ih e f t = Paced-stop m a w w1 (ok v) f t (inr tt)
    settle-Paced m a w w1 next (throw x) ih e f t = elim (Bool-cases (stops a x)) [
      | inl h ↦
          rw (settle_gives_up a w1 next x h)
            (Paced-stop m a w w1 (throw x) f t (stops_last a m x e h))
      | inr h ↦
          let (p, more) = repeats_more a m x e h in
          let (v, same, same_fetches, same_slept) = settle_repeats a w1 next x h in
          rw (more, same)
            (Paced-again p a w v (next x v) (omega arith) (omega arith) (ih x v p more))
    ]

  module _ (run : Io Value) (one : (w : World) → OneFetch w (run w).1) where
    attempt_trace :
        (a : ℕ) (w : World)
        → let w1 = (backoff client a >> run) w in
          (fetches w1.1 ≡ fetches w + 1) × (total_slept w1.1 ≡ total_slept w + pause a)
    attempt_trace zero w = ground (arith, one w)
    attempt_trace (suc n) w =
        let v = (backoff client (suc n) w).1 in ground (arith, one v, backoff_trace (suc n) w)

    module _ (retries : ℕ) (limit : client.retries ≡ pos retries) where
      retry_loop-Paced :
          (m a : ℕ) (last : Option Thrown) (w : World)
          → a + m ≡ retries
          → Paced m a w (retry_loop client run (suc m) a last w)
      unfolding retry_loop
      retry_loop-Paced zero a last w e =
          let x = (backoff client a >> run) w in
          let (f, t) = attempt_trace a w in
          settle-Paced retries limit zero a w x.1 _ x.0 (λ _ _ p z. absurd (omega arith)) e f t
      retry_loop-Paced (suc m) a last w e =
          let x = (backoff client a >> run) w in
          let (f, t) = attempt_trace a w in
          settle-Paced retries limit (suc m) a w x.1 _ x.0
            (λ err v p z.
              let same : p ≡ m = omega arith in
              rw same (
                subst (λ n. Paced m n v (retry_loop client run (suc m) (a + 1) (some err) v))
                  {y = suc a} (omega arith)
                  (retry_loop-Paced m (a + 1) (some err) v (omega arith))))
            e f t

      loop_paced :
          (n : ℕ) (w : World)
          → n ≡ suc retries
          → let (r, w') = retry_loop client run n 0 none w in
            (k : ℕ) × (k ≤ retries)
            × (fetches w' ≡ fetches w + k + 1)
            × (total_slept w' + 1000 ≡ total_slept w + 1000 * 2 ^ k)
            × ((k ≡ retries) ⊎ IsSettled r)
      loop_paced n w e =
          let (k, le, f, t, last) = retry_loop-Paced retries 0 none w (omega arith) in
          let same : paused (0 + k) ≡ paused k = ap paused (omega arith) in
          rw e (k, le, f, omega (arith, paused_closed k), last)

-- A request with `retries` retries is sent k + 1 times for a k of at most `retries`; the client
-- sleeps 1000 * (2 ^ k - 1) ms in all; and it stops before the last retry only with a value or with
-- an error that is not retryable.
pub request_paced :
    (env : Env) (client : SecureLensClient) (method : String) (path : Text) (body : Value)
    (options : Option RequestOptions) (retries : ℕ) (w : World)
    → client.retries ≡ pos retries
    → let (r, w') = request env client method path body options w in
      (k : ℕ) × (k ≤ retries)
      × (fetches w' ≡ fetches w + k + 1)
      × (total_slept w' + 1000 ≡ total_slept w + 1000 * 2 ^ k)
      × ((k ≡ retries) ⊎ IsSettled r)
unfolding request
request_paced env client method path body options retries w limit =
    let url = client.base_url ++ path in
    let timeout = timeout_of client options in
    loop_paced client (execute_request env client method url body timeout options)
      (execute_request-OneFetch env client method url body timeout options) retries limit
      (rounds client.retries) w (rw limit refl)

-- With a negative number of retries nothing is sent, and the request fails with 'UNKNOWN_ERROR'.
pub request_negative :
    (env : Env) (client : SecureLensClient) (method : String) (path : Text) (body : Value)
    (options : Option RequestOptions) (n : ℕ) (w : World)
    → client.retries ≡ negsuc n
    → request env client method path body options w
      ≡ (throw (sdk (secure_lens_error (text "Request failed") "UNKNOWN_ERROR" none no_options)), w)
unfolding request
request_negative env client method path body options n w limit = rw limit
