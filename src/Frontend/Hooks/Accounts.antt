-- ===== src/Frontend/Hooks/Accounts.antt =====
-- hooks/use-auth.ts: users, profiles, API keys and invitations; login and logout are in Session.
use trust_vault.Prelude.{[], ◌∷◌, Text, text}
use trust_vault.Sdk.Value.{Value, undefined}
use trust_vault.Frontend.Hooks.Shape.{
  Query, query, Mutation, mutation, name, fixed, param, done, error_or,
}

abbrev pub use_current_user : Query
use_current_user = record (query (name "currentUser" ∷ []) (fixed "auth" ∷ fixed "me" ∷ [])) {
  retry = 0;
}

abbrev pub use_users : Query
use_users = query (name "users" ∷ []) (fixed "users" ∷ [])

abbrev pub use_create_user : Value → Mutation
use_create_user body = record (mutation "POST" (fixed "users" ∷ []) body) {
  invalidates = (text "users" ∷ []) ∷ [];
  on_success = done "User created successfully";
  on_error = error_or "Failed to create user";
}

abbrev pub use_delete_user : Text → Mutation
use_delete_user id = record (mutation "DELETE" (fixed "users" ∷ param id ∷ []) undefined) {
  invalidates = (text "users" ∷ []) ∷ [];
  on_success = done "User deleted successfully";
  on_error = error_or "Failed to delete user";
}

abbrev pub use_update_profile : Value → Mutation
use_update_profile body = record (mutation "PUT" (fixed "auth" ∷ fixed "me" ∷ []) body) {
  invalidates = (text "currentUser" ∷ []) ∷ [];
  on_success = done "Profile updated";
  on_error = error_or "Failed to update profile";
}

abbrev pub use_api_keys : Query
use_api_keys = query (name "api-keys" ∷ []) (fixed "auth" ∷ fixed "api-keys" ∷ [])

abbrev pub use_create_api_key : Value → Mutation
use_create_api_key body = record (mutation "POST" (fixed "auth" ∷ fixed "api-keys" ∷ []) body) {
  invalidates = (text "api-keys" ∷ []) ∷ [];
  on_success = done "API key created";
  on_error = error_or "Failed to create API key";
}

abbrev pub use_delete_api_key : Text → Mutation
use_delete_api_key id =
    record (mutation "DELETE" (fixed "auth" ∷ fixed "api-keys" ∷ param id ∷ []) undefined) {
      invalidates = (text "api-keys" ∷ []) ∷ [];
      on_success = done "API key deleted";
      on_error = error_or "Failed to delete API key";
    }

abbrev pub use_invitations : Query
use_invitations = query (name "invitations" ∷ []) (fixed "invitations" ∷ [])

abbrev pub use_create_invitation : Value → Mutation
use_create_invitation body = record (mutation "POST" (fixed "invitations" ∷ []) body) {
  invalidates = (text "invitations" ∷ []) ∷ [];
  on_success = done "Invitation sent successfully";
  on_error = error_or "Failed to send invitation";
}

abbrev pub use_cancel_invitation : Text → Mutation
use_cancel_invitation id =
    record (mutation "DELETE" (fixed "invitations" ∷ param id ∷ []) undefined) {
      invalidates = (text "invitations" ∷ []) ∷ [];
      on_success = done "Invitation cancelled";
      on_error = error_or "Failed to cancel invitation";
    }

abbrev pub use_resend_invitation : Text → Mutation
use_resend_invitation id =
    record (mutation "POST" (fixed "invitations" ∷ param id ∷ fixed "resend" ∷ []) undefined) {
      invalidates = (text "invitations" ∷ []) ∷ [];
      on_success = done "Invitation resent";
      on_error = error_or "Failed to resend invitation";
    }
