-- ===== src/Frontend/Hooks/Client.antt =====
-- The query library's client, as far as the hooks use it, and how a mutation ends.
use trust_vault.Prelude.{Bool, true, false, ◌&&◌, ◌||◌, ◌≡◌, List, [], ◌∷◌, ◌++◌, Text, text_eq}
use trust_vault.Sdk.Value.{Value}
use trust_vault.Frontend.Session.{Session, AxiosError, on_response_error}
use trust_vault.Frontend.Hooks.Shape.{word, Key, Toast, Mutation}

-- Whether a key begins with the strings that are invalidated.
abbrev pub matches : List Text → Key → Bool
matches [] key = true
matches (t ∷ ts) (word u ∷ key) = text_eq t u && matches ts key
matches _ _ = false

-- What the program relies on: `invalidateQueries({ queryKey })` marks the queries as stale whose key
-- begins with `queryKey`, and no other.
pub record QueryClient : Type 1 where
  pub State : Type 0
  pub is_stale : Key → State → Bool
  pub invalidate : List Text → State → State
  pub is_stale-invalidate :
      (p : List Text) (key : Key) (state : State)
      → is_stale key (invalidate p state) ≡ (matches p key || is_stale key state)

-- What a mutation's request comes to.
pub data Reply : Type 0 where
  answered : Value → Reply
  failed : AxiosError → Reply

module _ (client : QueryClient) where
  open client use {State, invalidate}

  abbrev pub invalidate_all : List (List Text) → State → State
  invalidate_all [] state = state
  invalidate_all (p ∷ ps) state = invalidate_all ps (invalidate p state)

  -- The application: the session, the query client's state and the toasts shown, the latest first.
  pub record App : Type 0 where
    pub session : Session
    pub queries : State
    pub toasts : List Toast

  -- `onSuccess` or, behind the interceptor of lib/api.ts, `onError`.
  unfoldable pub settle : Mutation → Reply → App → App
  unfolding on_response_error
  settle m (answered v) app = record app {
    queries = invalidate_all m.invalidates app.queries;
    toasts = m.on_success v ++ app.toasts;
  }
  settle m (failed e) app = record app {
    session = on_response_error e app.session;
    toasts = m.on_error e.response ++ app.toasts;
  }
