-- ===== src/Sdk/Langchain/Contexts.antt =====
-- langchain.ts: the map from run ids to the contexts of runs.
use trust_vault.Prelude.{
  ℕ, ◌≡◌, refl, Option, none, some, List, [], ◌∷◌, Text, text_eq, text_eq_iff, arith, if◌then◌else◌,
}
use trust_vault.Sdk.Value.{Value}
use trust_vault.Sdk.Types.{Classification, AppliedPolicy, GateInterceptResponse}

pub record RunContext : Type 0 where
  pub query : Value
  pub intercept_result : Option GateInterceptResponse
  pub classifications : List Classification
  pub applied_policies : List AppliedPolicy
  pub start_time : ℕ

-- The context that a handler makes for a new run.
abbrev pub new_context : Value → ℕ → RunContext
new_context query now = record {
  query = query;
  intercept_result = none;
  classifications = [];
  applied_policies = [];
  start_time = now;
}

-- A map as its entries; a key that is set stays where it stands.
abbrev pub ByRun : Type 0 → Type 0
ByRun A = List (Text × A)

abbrev pub Contexts : Type 0
Contexts = ByRun RunContext

unfoldable pub get_context : {A : Type 0} → Text → ByRun A → Option A
get_context k [] = none
get_context k ((j, c) ∷ m) = if text_eq j k then some c else get_context k m

unfoldable pub set_context : {A : Type 0} → Text → A → ByRun A → ByRun A
set_context k c [] = (k, c) ∷ []
set_context k c ((j, d) ∷ m) = if text_eq j k then (j, c) ∷ m else (j, d) ∷ set_context k c m

unfoldable pub delete_context : {A : Type 0} → Text → ByRun A → ByRun A
delete_context k [] = []
delete_context k ((j, d) ∷ m) =
    let rest = delete_context k m in if text_eq j k then rest else (j, d) ∷ rest

module _ {A : Type 0} where
  pub get_context-set_context :
      (k j : Text) (c : A) (m : ByRun A)
      → get_context j (set_context k c m) ≡ (if text_eq k j then some c else get_context j m)
  unfolding get_context set_context
  get_context-set_context k j c [] = refl
  get_context-set_context k j c ((i, d) ∷ m) =
      ground
        (arith, text_eq_iff k j, text_eq_iff i k, text_eq_iff i j, get_context-set_context k j c m)

  pub get_context-delete_context :
      (k j : Text) (m : ByRun A)
      → get_context j (delete_context k m) ≡ (if text_eq k j then none else get_context j m)
  unfolding get_context delete_context
  get_context-delete_context k j [] = ground arith
  get_context-delete_context k j ((i, d) ∷ m) =
      ground
        (arith, text_eq_iff k j, text_eq_iff i k, text_eq_iff i j, get_context-delete_context k j m)

pub ruleset context_laws = (get_context-set_context, get_context-delete_context)
