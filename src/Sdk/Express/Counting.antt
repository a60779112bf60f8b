-- ===== src/Sdk/Express/Counting.antt =====
-- How a block of statements adds to a count over the history: not at all if it throws, and one if it
-- does not.
use trust_vault.Prelude.{ℕ, ◌+◌, ◌≡◌, refl, Option, none, some, ◌∷◌}
use trust_vault.Sdk.Value.{Value}
use trust_vault.Sdk.Errors.{Thrown}
use trust_vault.Sdk.Effect.{World, Result, ok, throw, Io, continue, recover, sent}
use trust_vault.Sdk.Express.{Host, respond}
use trust_vault.Sdk.Effect.Trace.{IsQuiet}

-- A callback that is not given, or that calls no `next` and sends no response.
abbrev pub AreQuiet : {A B : Type 0} → Option (A → Io B) → Type 0
AreQuiet none = Unit
AreQuiet {A} (some f) = (a : A) (w : World) → IsQuiet w (f a w).1

module _ (f : World → ℕ) where
  abbrev pub Once : ℕ → Result (Unit {0}) × World → Type 0
  Once n (ok u, w) = f w ≡ n + 1
  Once n (throw e, w) = f w ≡ n

  pub Once-continue :
      {A : Type 0} (r : Result A) (w : World) (k : A → Io (Unit {0})) (n : ℕ)
      → f w ≡ n
      → ((a : A) (v : World) → f v ≡ n → Once n (k a v))
      → Once n (continue r k w)
  Once-continue (ok a) w k n h c = c a w h
  Once-continue (throw e) w k n h c = h

  pub Once-recover :
      (r : Result (Unit {0})) (w : World) (handler : Thrown → Io (Unit {0})) (n : ℕ)
      → Once n (r, w)
      → ((e : Thrown) (v : World)
          → f v ≡ n
          → ((handler e v).0 ≡ ok tt) × (f (handler e v).1 ≡ n + 1))
      → ((recover r handler w).0 ≡ ok tt) × (f (recover r handler w).1 ≡ n + 1)
  Once-recover (ok u) w handler n h c = (refl, h)
  Once-recover (throw e) w handler n h c = c e w h

module _ (host : Host)
    (sends_all : (v : World) (s : Option ℕ) (b : Value) → host.send v s b ≡ none) where
  pub respond_sends :
      (s : Option ℕ) (b : Value) (v : World) → respond host s b v ≡ (ok tt, sent s b ∷ v)
  respond_sends s b v = rw (sends_all v s b) refl
