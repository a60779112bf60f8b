-- ===== src/Sdk/Langchain/Interleaved/Ownership.antt =====
-- langchain.ts, interleaved: every context belongs to one run, and holds what was found for it.
use trust_vault.Prelude.{
  map-All, ℕ, suc, ◌==◌, ==_iff, ◌<◌, ◌≤◌, ◌≡◌, sym, Bool, true, false, some, List, [], ◌∷◌, ◌++◌,
  All, Text, text_eq_iff, arith, if◌then◌else◌,
}
use mathlib.Core.Path.{subst}
use mathlib.Core.List.{append-nil, append_assoc}
use trust_vault.Sdk.Types.{Classification}
use trust_vault.Sdk.Langchain.Contexts.{
  RunContext, get_context, get_context-set_context, get_context-delete_context,
}
use trust_vault.Sdk.Langchain.Interleaved.{
  Pending, intercepting, classifying_response, classifying_batch, Handler, put, allocate, modify,
  wait, set_run, forget_run,
}
use trust_vault.Sdk.Langchain.Interleaved.Steps.{Findings, collected, without}

-- Every address in use is owned by one run, which alone may lead to it.
abbrev pub IsOwned : (ℕ → Text) → ℕ → Text → ℕ → Type 0
IsOwned owner next run_id a = (a < next) × (owner a ≡ run_id)

abbrev pub IsExpected : (ℕ → Text) → ℕ → Pending → Type 0
IsExpected owner next (intercepting run_id a) = IsOwned owner next run_id a
IsExpected owner next (classifying_response run_id a) = IsOwned owner next run_id a
IsExpected owner next (classifying_batch a) = a < next

pub record Kept (owner : ℕ → Text) (h : Handler) (found : Findings) : Type 0 where
  pub runs : (k : Text) (a : ℕ) → get_context k h.contexts ≡ some a → IsOwned owner h.next k a
  pub waits : All (IsExpected owner h.next) h.pending
  pub shows : (a : ℕ) → a < h.next → (h.heap a).classifications ≡ collected a found
  pub unused : (a : ℕ) → h.next ≤ a → collected a found ≡ []

abbrev pub own : ℕ → Text → (ℕ → Text) → ℕ → Text
own a k owner b = if b == a then k else owner b

module _ {A : Type 0} where
  pick :
      (P : A → Type 0) (before : List A) (x : A) (after : List A)
      → All P (before ++ (x ∷ after))
      → P x × All P (before ++ after)
  pick P [] x after h = h
  pick P (y ∷ before) x after h = let (p, rest) = pick P before x after h.1 in (p, (h.0, rest))

collected-append :
    (a : ℕ) (found : Findings) (b : ℕ) (cs : List Classification)
    → collected a (found ++ ((b, cs) ∷ []))
      ≡ (if b == a then collected a found ++ cs else collected a found)
unfolding collected
collected-append a [] b cs = grind (arith, append-nil)
collected-append a ((c, ds) ∷ found) b cs =
    grind (arith, append_assoc, collected-append a found b cs)

IsOwned-own :
    (owner : ℕ → Text) (n : ℕ) (k j : Text) (a : ℕ)
    → IsOwned owner n j a
    → IsOwned (own n k owner) (suc n) j a
IsOwned-own owner n k j a (bound, same) = ground (arith, ==_iff a n)

IsExpected-own :
    (owner : ℕ → Text) (n : ℕ) (k : Text) (p : Pending)
    → IsExpected owner n p
    → IsExpected (own n k owner) (suc n) p
IsExpected-own owner n k (intercepting j a) h = IsOwned-own owner n k j a h
IsExpected-own owner n k (classifying_response j a) h = IsOwned-own owner n k j a h
IsExpected-own owner n k (classifying_batch a) h = omega arith

module _ {owner : ℕ → Text} {h : Handler} {found : Findings} (kept : Kept owner h found) where
  pub allocate-Kept :
      (k : Text) (c : RunContext)
      → c.classifications ≡ []
      → Kept (own h.next k owner) (allocate c h) found
  unfolding put
  allocate-Kept k c fresh = record {
    runs = λ j a e. IsOwned-own owner h.next k j a (kept.runs j a e);
    waits =
        map-All (IsExpected owner h.next) (IsExpected (own h.next k owner) (suc h.next)) h.pending
          (IsExpected-own owner h.next k) kept.waits;
    shows = λ a bound. ground (arith, ==_iff a h.next, fresh, kept.shows a, kept.unused a);
    unused = λ a bound. kept.unused a (omega arith);
  }

  pub wait-Kept : (p : Pending) → IsExpected owner h.next p → Kept owner (wait p h) found
  wait-Kept p expected = record {
    runs = kept.runs;
    waits = (expected, kept.waits);
    shows = kept.shows;
    unused = kept.unused;
  }

  pub set_run-Kept :
      (k : Text) (a : ℕ) → IsOwned owner h.next k a → Kept owner (set_run k a h) found
  set_run-Kept k a owned = record {
    runs = λ j b e.
        ground (arith, get_context-set_context k j a h.contexts, text_eq_iff k j, kept.runs j b);
    waits = kept.waits;
    shows = kept.shows;
    unused = kept.unused;
  }

  pub forget_run-Kept : (k : Text) → Kept owner (forget_run k h) found
  forget_run-Kept k = record {
    runs = λ j b e.
        ground (arith, get_context-delete_context k j h.contexts, text_eq_iff k j, kept.runs j b);
    waits = kept.waits;
    shows = kept.shows;
    unused = kept.unused;
  }

  -- A part that resumes is no longer pending, and what it was promised holds.
  pub resume-Kept :
      (before : List Pending) (p : Pending) (after : List Pending)
      → h.pending ≡ before ++ (p ∷ after)
      → IsExpected owner h.next p × Kept owner (without h (before ++ after)) found
  resume-Kept before p after e =
      let (expected, others) =
        pick (IsExpected owner h.next) before p after
          (subst (All (IsExpected owner h.next)) e kept.waits) in
      (
        expected,
        record { runs = kept.runs; waits = others; shows = kept.shows; unused = kept.unused },
      )

  pub modify-Kept :
      (a : ℕ) (f : RunContext → RunContext) (cs : List Classification)
      → a < h.next
      → ((c : RunContext) → (f c).classifications ≡ c.classifications ++ cs)
      → Kept owner (modify a f h) (found ++ ((a, cs) ∷ []))
  unfolding put
  modify-Kept a f cs bound adds = record {
    runs = kept.runs;
    waits = kept.waits;
    shows = λ b below.
        ground (arith, ==_iff b a, collected-append b found a cs, adds (h.heap a), kept.shows b);
    unused = λ b above. ground (arith, ==_iff a b, collected-append b found a cs, kept.unused b);
  }

pub quiet-Kept :
    {owner : ℕ → Text} {h : Handler} {found : Findings}
    → Kept owner h found
    → Kept owner h (found ++ [])
quiet-Kept {owner} {h} {found} kept = subst (Kept owner h) (sym (append-nil found)) kept

pub either-Kept :
    {owner : ℕ → Text} {g h : Handler} {found : Findings} (b : Bool)
    → Kept owner g found
    → Kept owner h found
    → Kept owner (if b then g else h) found
either-Kept true kg kh = kg
either-Kept false kg kh = kh

abbrev pub IsSound : Handler → Findings → Type 0
IsSound h found = (owner : ℕ → Text) × Kept owner h found

pub either-IsSound :
    {g h : Handler} {found : Findings} (b : Bool)
    → IsSound g found
    → IsSound h found
    → IsSound (if b then g else h) found
either-IsSound true sg sh = sg
either-IsSound false sg sh = sh

-- A new context is owned by the run that it is made for.
pub IsOwned-next : (owner : ℕ → Text) (n : ℕ) (k : Text) → IsOwned (own n k owner) (suc n) k n
IsOwned-next owner n k = ground (arith, ==_iff n n)
