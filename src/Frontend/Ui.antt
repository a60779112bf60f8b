-- ===== src/Frontend/Ui.antt =====
-- store/ui.ts. What the library keeps of it in local storage is not modelled.
use trust_vault.Prelude.{ℕ, Bool, true, not}
use trust_vault.Sdk.Value.{Fields, end}

pub record UiState : Type 0 where
  pub sidebar_open : Bool
  pub active_filters : Fields
  pub current_page : ℕ
  pub page_size : ℕ

abbrev pub initial_ui : UiState
initial_ui = record { sidebar_open = true; active_filters = end; current_page = 1; page_size = 20 }

unfoldable pub set_sidebar_open : Bool → UiState → UiState
set_sidebar_open is_open state = record state { sidebar_open = is_open }

unfoldable pub toggle_sidebar : UiState → UiState
toggle_sidebar state = record state { sidebar_open = not state.sidebar_open }

unfoldable pub set_active_filters : Fields → UiState → UiState
set_active_filters filters state = record state { active_filters = filters }

unfoldable pub clear_filters : UiState → UiState
clear_filters state = record state { active_filters = end; current_page = 1 }

unfoldable pub set_current_page : ℕ → UiState → UiState
set_current_page page state = record state { current_page = page }

unfoldable pub set_page_size : ℕ → UiState → UiState
set_page_size size state = record state { page_size = size }
