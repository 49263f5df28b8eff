-- ===== src/Assembly.antt =====
-- app/factory.py, app/runtime.py and app/persistence/database.py: how an application is put together
-- from its settings, which connections that opens, and which its lifespan closes. `create_engine` of
-- SQLAlchemy is a parameter.
pub mod Closed
pub mod Starts
use github_webhook_monitor.Prelude.{
  ℕ, String, Bool, true, false, not, ◌&&◌, Option, none, some, List, [], ◌∷◌, ◌++◌, ◌==◌,
  startswith, if◌then◌else◌,
}
use github_webhook_monitor.Errors.{Result, ok, value_error, raise_if}
use github_webhook_monitor.Domain.Management.{ManagementScopePolicy}
use github_webhook_monitor.Storage.RecoveryActions.{in_memory_recovery_action_store}
use github_webhook_monitor.Services.Exec.{Exec, return, raise, pure, ◌>>=◌}
use github_webhook_monitor.Security.Algorithms.{parse_allowed_jwt_algorithms}
use github_webhook_monitor.Security.Oidc.{OidcJwtConfig}
use github_webhook_monitor.Config.{
  Settings, DeliveryStoreBackend, memory, postgresql, ManagementAuthMode, shared_token, oidc_jwt,
  scope_policy,
}

-- What has to be closed: the engine and the three HTTP clients.
pub data Resource : Type 0 where
  engine deliveries_client redelivery_client identity_client : Resource

-- The settings that pydantic bounds: positive numbers.
pub record Limits : Type 0 where
  pub max_events : ℕ
  pub database_connect_timeout_seconds : ℕ

-- Which of the optional arguments of `create_app` are given.
pub record Given : Type 0 where
  pub delivery_store : Bool
  pub recovery_action_store : Bool
  pub github_delivery_client : Bool
  pub github_redelivery_client : Bool
  pub management_identity_http_client : Bool

pub data Stores : Type 0 where
  given_stores : Stores
  given_with_memory_journal : (max_actions : ℕ) → Stores
  memory_stores : (max_events : ℕ) → Stores
  postgres_stores : (database_url : String) → (list_limit : ℕ) → Stores

pub record RuntimeResources : Type 0 where
  pub stores : Stores
  pub owns_engine : Bool

-- A client that the application uses, if there is one, and whether it has opened it.
pub record Client : Type 0 where
  pub is_there : Bool
  pub owned : Bool

pub record Authenticator : Type 0 where
  pub config : Option OidcJwtConfig
  pub owns_http_client : Bool

pub record App : Type 0 where
  pub resources : RuntimeResources
  pub deliveries : Client
  pub redelivery : Client
  pub authenticator : Authenticator
  pub management_scope_policy : ManagementScopePolicy

-- The connections that are open, the last one opened first.
abbrev pub Opened : Type 0
Opened = List Resource

abbrev pub open_one {ℓ} : {A : Type ℓ} → Resource → A → Exec Opened A
open_one r a opened = (ok a, r ∷ opened)

-- `management_auth_mode == "oidc_jwt"`
abbrev pub is_oidc : ManagementAuthMode → Bool
is_oidc shared_token = false
is_oidc oidc_jwt = true

module _ (create_engine : String → Result (Unit {0})) where
  unfoldable pub create_database_engine : String → (connect_timeout : ℕ) → Exec Opened (Unit {0})
  create_database_engine database_url connect_timeout = do
    scheme ← pure (raise_if (not (startswith database_url "postgresql+psycopg://")) value_error)
    positive ← pure (raise_if (connect_timeout == 0) value_error)
    created ← pure (create_engine database_url)
    open_one engine tt

  -- The branch for PostgreSQL; the store's constructor checks its limit.
  unfoldable pub postgres_resources : Limits → Option String → Exec Opened RuntimeResources
  postgres_resources limits none = raise value_error
  postgres_resources limits (some database_url) = do
    opened ← create_database_engine database_url limits.database_connect_timeout_seconds
    positive ← pure (raise_if (limits.max_events == 0) value_error)
    return (record { stores = postgres_stores database_url limits.max_events; owns_engine = true })

  unfoldable pub memory_resources : (ℕ → Stores) → Limits → Exec Opened RuntimeResources
  memory_resources stores limits = do
    journal ← pure (in_memory_recovery_action_store limits.max_events)
    return (record { stores = stores limits.max_events; owns_engine = false })

  abbrev pub resources_of : Settings → Limits → DeliveryStoreBackend → Exec Opened RuntimeResources
  resources_of settings limits memory = memory_resources memory_stores limits
  resources_of settings limits postgresql = postgres_resources limits settings.database_url

  unfoldable pub build_runtime_resources : Settings → Limits → Exec Opened RuntimeResources
  unfolding postgres_resources memory_resources
  build_runtime_resources settings limits =
      resources_of settings limits settings.delivery_store_backend

  unfoldable pub runtime_resources : Settings → Limits → Given → Exec Opened RuntimeResources
  unfolding build_runtime_resources
  runtime_resources settings limits given =
      if not given.delivery_store
      then build_runtime_resources settings limits
      else if given.recovery_action_store
      then return (record { stores = given_stores; owns_engine = false })
      else memory_resources given_with_memory_journal limits

  -- A client of GitHub: the given one, or one that is opened where its feature is enabled.
  unfoldable pub client : Resource → Bool → (is_given : Bool) → Option String → Exec Opened Client
  client resource enabled is_given none =
      if enabled && not is_given
      then raise value_error
      else return (record { is_there = is_given; owned = false })
  client resource enabled is_given (some token) =
      if enabled && not is_given
      then open_one resource (record { is_there = true; owned = true })
      else return (record { is_there = is_given; owned = false })

  -- whether the HTTP client for the identity provider had to be opened
  abbrev pub identity_http_client : (is_given : Bool) → Exec Opened Bool
  identity_http_client is_given = if is_given then return false else open_one identity_client true

  unfoldable pub oidc_authenticator :
      Settings → (is_given : Bool) → Option String → Option String → Exec Opened Authenticator
  oidc_authenticator settings is_given (some issuer) (some audience) = do
    owned ← identity_http_client is_given
    algorithms ← pure (parse_allowed_jwt_algorithms settings.management_oidc_allowed_algorithms)
    return (record {
      config =
          some (record { issuer = issuer; audience = audience; allowed_algorithms = algorithms });
      owns_http_client = owned;
    })
  oidc_authenticator settings is_given issuer audience = raise value_error

  unfoldable pub authenticator : Settings → (is_given : Bool) → Exec Opened Authenticator
  unfolding oidc_authenticator
  authenticator settings is_given =
      if settings.management_api_enabled && is_oidc settings.management_auth_mode
      then oidc_authenticator settings is_given settings.management_oidc_issuer
          settings.management_oidc_audience
      else return (record { config = none; owns_http_client = false })

  unfoldable pub create_app : Settings → Limits → Given → Exec Opened App
  unfolding runtime_resources client authenticator
  create_app settings limits given = do
    resources ← runtime_resources settings limits given
    deliveries ←
        client deliveries_client settings.github_reconciliation_enabled given.github_delivery_client
          settings.github_repository_webhook_token
    redelivery ←
        client redelivery_client settings.github_redelivery_enabled given.github_redelivery_client
          settings.github_repository_webhook_write_token
    identity ← authenticator settings given.management_identity_http_client
    return (record {
      resources = resources;
      deliveries = deliveries;
      redelivery = redelivery;
      authenticator = identity;
      management_scope_policy = scope_policy settings;
    })

abbrev close_if : Bool → Resource → List Resource
close_if true r = r ∷ []
close_if false r = []

-- The `finally` of the lifespan: what it closes, in order.
unfoldable pub closes : App → List Resource
closes app =
    close_if app.redelivery.owned redelivery_client
    ++ (close_if app.deliveries.owned deliveries_client
        ++ (close_if app.authenticator.owns_http_client identity_client
            ++ close_if app.resources.owns_engine engine))
