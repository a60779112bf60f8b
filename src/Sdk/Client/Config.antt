-- ===== src/Sdk/Client/Config.antt =====
-- client.ts: the resolved configuration, the constructor and the debug log.
use trust_vault.Prelude.{ℕ, ℤ, pos, Bool, false, Option, get_or, Text, text}
use trust_vault.Sdk.Value.{Value, undefined, str, num, Fields, end, field, put, spread, truthy, obj}
use trust_vault.Sdk.Value
use trust_vault.Sdk.Types.{SecureLensConfig}
use trust_vault.Sdk.Effect.{logged, Io, ◌>>=◌, ◌>>◌, pure, lift, emit, when}
use trust_vault.Sdk.Auth.{AuthContext, create_auth_context, mask_api_key}

abbrev pub default_base_url : Text
default_base_url = text "https://api.securelens.ai"

abbrev pub default_timeout : ℕ
default_timeout = 30000

abbrev pub default_retries : ℤ
default_retries = pos 3

abbrev pub retry_delay_base : ℕ
retry_delay_base = 1000

pub record SecureLensClient : Type 0 where
  pub base_url : Text
  pub timeout : ℕ
  pub retries : ℤ
  pub debug : Bool
  pub api_key : Text
  pub tenant_id : Option Text
  pub auth : AuthContext

-- `log`; the timestamp that it prints is not recorded.
abbrev pub log : Text → Value → Io (Unit {0})
log message context = emit (logged message context)

-- The constructor.
unfoldable pub new_client : SecureLensConfig → Io SecureLensClient
new_client config = do
  auth ← lift (create_auth_context config.api_key config.tenant_id)
  let client : SecureLensClient = record {
    base_url = get_or config.base_url default_base_url;
    timeout = get_or config.timeout default_timeout;
    retries = get_or config.retries default_retries;
    debug = get_or config.debug false;
    api_key = config.api_key;
    tenant_id = config.tenant_id;
    auth = auth;
  }
  when client.debug (
      log (text "Client initialized") (
        obj (
          field "baseUrl" (str client.base_url) (
            field "apiKey" (str (mask_api_key config.api_key))
              (field "tenantId" (Value.opt str config.tenant_id) end)))))
  pure client

abbrev pub get_base_url : SecureLensClient → Text
get_base_url client = client.base_url

abbrev pub get_tenant_id : SecureLensClient → Option Text
get_tenant_id client = client.tenant_id
