-- ===== src/Sdk/Client.antt =====
-- client.ts: the HTTP client. One request is an exchange with a timer; `request` repeats it with
-- exponential back-off while the error is retryable and attempts are left.
pub mod Config
pub mod Execute
pub mod Request
pub use Config.{SecureLensClient, get_base_url, get_tenant_id}
unfoldable pub use Config.{new_client}
unfoldable pub use Execute.{parse_response, execute_request}
unfoldable pub use Request.{request, get, post, put_json, delete, health}
