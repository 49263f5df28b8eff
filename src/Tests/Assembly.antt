-- ===== src/Tests/Assembly.antt =====
-- The assembly at concrete settings: the management API with a shared token, and reconciliation.
use github_webhook_monitor.Prelude.{
  str_eq, if◌then◌else◌, ◌⊎◌, String, Bool, true, false, none, some, [], ◌≡◌, refl, arith, length,
  keep, str_length,
}
use github_webhook_monitor.Errors.{argument_error, Exn, Result, ok, err, value_error}
use github_webhook_monitor.Domain.Url.{ParsedUrl}
use github_webhook_monitor.Storage.RecoveryActions.{in_memory_recovery_action_store}
use github_webhook_monitor.Config.{
  postgresql, Settings, memory, shared_token, check_database, check_token, check_management,
  check_github, validate_runtime_configuration, scope_policy,
}
use github_webhook_monitor.Assembly.{
  Resource, Limits, Given, App, create_app, closes, runtime_resources, build_runtime_resources,
  memory_resources, client, authenticator, memory_stores,
}
use github_webhook_monitor.Assembly.Closed.{create_app-closes}
use github_webhook_monitor.Assembly.Starts.{create_app-Runs}

abbrev settings : Settings
settings = record {
  delivery_store_backend = memory;
  database_url = none;
  management_api_enabled = true;
  management_auth_mode = shared_token;
  management_api_token = some "0123456789abcdef0123456789abcdef";
  management_oidc_issuer = none;
  management_oidc_audience = none;
  management_oidc_required_scope = none;
  management_oidc_full_management_scope = "webhook-monitor.manage";
  management_oidc_diagnostics_read_scope = "webhook-monitor.diagnostics.read";
  management_oidc_recovery_read_scope = "webhook-monitor.recovery.read";
  management_oidc_recovery_execute_scope = "webhook-monitor.recovery.execute";
  management_oidc_allowed_algorithms = "RS256";
  github_reconciliation_enabled = true;
  github_repository_webhook_token = some "read";
  github_redelivery_enabled = false;
  github_repository_webhook_write_token = none;
}

abbrev limits : Limits
limits = record { max_events = 50; database_connect_timeout_seconds = 5 }

abbrev nothing_given : Given
nothing_given = record {
  delivery_store = false;
  recovery_action_store = false;
  github_delivery_client = false;
  github_redelivery_client = false;
  management_identity_http_client = false;
}

abbrev create_engine : String → Result (Unit {0})
create_engine url =
    if str_eq url "postgresql+psycopg://host:port/db" then err argument_error else ok tt

abbrev no_url : String → Result ParsedUrl
no_url url = err value_error

abbrev app : App
app = record {
  resources = record { stores = memory_stores 50; owns_engine = false };
  deliveries = record { is_there = true; owned = true };
  redelivery = record { is_there = false; owned = false };
  authenticator = record { config = none; owns_http_client = false };
  management_scope_policy = record {
    full_management_scope = "webhook-monitor.manage";
    diagnostics_read_scope = "webhook-monitor.diagnostics.read";
    recovery_read_scope = "webhook-monitor.recovery.read";
    recovery_execute_scope = "webhook-monitor.recovery.execute";
  };
}

abbrev any_resource : Resource → Bool
any_resource r = true

create_app-closes_example :
    length (keep any_resource (closes app))
    ≡ length (keep any_resource (create_app create_engine settings limits nothing_given []).1)
unfolding create_app runtime_resources build_runtime_resources memory_resources client authenticator
    in_memory_recovery_action_store scope_policy
create_app-closes_example =
    create_app-closes create_engine settings limits nothing_given app any_resource refl

abbrev postgres_settings : Settings
postgres_settings = record settings {
  delivery_store_backend = postgresql;
  database_url = some "postgresql+psycopg://host:port/db";
}

create_app-Runs_example :
    ((created : App) × ((create_app create_engine postgres_settings limits nothing_given []).0
        ≡ ok created))
    ⊎ ((x : Exn) × ((url : String) × (postgres_settings.database_url ≡ some url)
          × (create_engine url ≡ err x))
        × ((create_app create_engine postgres_settings limits nothing_given []).0 ≡ err x))
unfolding validate_runtime_configuration check_database check_token check_management check_github
    str_length
create_app-Runs_example =
    create_app-Runs create_engine postgres_settings limits (omega arith) (omega arith) no_url
      postgres_settings nothing_given refl
