-- ===== src/Assembly/Starts.antt =====
-- Validated settings make an application.
use github_webhook_monitor.Prelude.{
  sym, subst, ap, ◌⊎◌, ℕ, ◌<◌, String, Bool, true, false, not, ◌&&◌, Option, none, some, is_some,
  List, [], ◌≡◌, refl, arith, Bool-cases, inl, inr, startswith, ◌==◌, leb, if◌then◌else◌,
}
use github_webhook_monitor.Errors.{err-injective, Exn, Result, ok, err, value_error, raise_if}
use github_webhook_monitor.Domain.Url.{ParsedUrl}
use github_webhook_monitor.Storage.Deque.{bounded}
use github_webhook_monitor.Storage.RecoveryActions.{
  InMemoryRecoveryActionStore, in_memory_recovery_action_store,
}
use github_webhook_monitor.Services.Exec.{Exec, pure, return, continue, ◌>>=◌}
use github_webhook_monitor.Security.Algorithms.{parse_allowed_jwt_algorithms}
use github_webhook_monitor.Config.{
  Settings, DeliveryStoreBackend, memory, postgresql, check_database,
  validate_runtime_configuration,
}
use github_webhook_monitor.Config.Database.{validated-database, database_url-known}
use github_webhook_monitor.Config.Valid.{
  Managed, disabled, by_token, by_jwt, validate_runtime_configuration-Managed,
}
use github_webhook_monitor.Assembly.{
  Resource, Limits, Given, Stores, given_with_memory_journal, Client, App, Opened, open_one,
  create_database_engine, postgres_resources, memory_resources, resources_of,
  build_runtime_resources, runtime_resources, client, identity_http_client, oidc_authenticator,
  authenticator, create_app,
}

-- What the settings have to give the assembly.
module _ (create_engine : String → Result (Unit {0})) (t : Settings) (limits : Limits)
    (positive_events : 0 < limits.max_events)
    (positive_timeout : 0 < limits.database_connect_timeout_seconds) where
  -- `create_engine` raises for the URL of the settings.
  abbrev Refused : Exn → Type 0
  Refused x = (url : String) × (t.database_url ≡ some url) × (create_engine url ≡ err x)

  abbrev RunsAs {ℓ} : {A : Type ℓ} → Result A → Type ℓ
  RunsAs {A = A} r = ((a : A) × (r ≡ ok a)) ⊎ ((x : Exn) × Refused x × (r ≡ err x))

  -- The step returns, whatever is open, or raises what `create_engine` raises.
  abbrev Runs {ℓ} : {A : Type ℓ} → Exec Opened A → Type ℓ
  Runs m = (w : Opened) → RunsAs (m w).0

  continue-Runs {ℓ κ} :
      {A : Type ℓ} {B : Type κ} (r : Result A) (w : Opened) (f : A → Exec Opened B)
      → RunsAs r
      → ((a : A) → Runs (f a))
      → RunsAs (continue r w f).0
  continue-Runs (ok a) w f h g = g a w
  continue-Runs (err x) w f (inl (a, e)) g = absurd (ground arith)
  continue-Runs (err x) w f (inr (y, why, e)) g = inr (y, why, ap err (err-injective e))

  bind-Runs {ℓ κ} :
      {A : Type ℓ} {B : Type κ} (m : Exec Opened A) (f : A → Exec Opened B)
      → Runs m
      → ((a : A) → Runs (f a))
      → Runs (m >>= f)
  bind-Runs m f h g w = continue-Runs (m w).0 (m w).1 f (h w) g

  journal_made :
      (journal : InMemoryRecoveryActionStore) × (in_memory_recovery_action_store limits.max_events
        ≡ ok journal)
  unfolding in_memory_recovery_action_store
  journal_made =
      let positive : leb limits.max_events 0 ≡ false = ground (arith, positive_events) in
      (record { actions = bounded limits.max_events }, rw positive refl)

  memory_resources-Runs :
      (stores : ℕ → Stores) → Runs (memory_resources create_engine stores limits)
  unfolding memory_resources
  memory_resources-Runs stores =
      bind-Runs (pure (in_memory_recovery_action_store limits.max_events)) _ (λ w. inl journal_made)
        (λ journal w. inl (_, refl))

  passed-Runs : (test : Bool) → test ≡ false → Runs (pure {W = Opened} (raise_if test value_error))
  passed-Runs test h w = inl (tt, rw h refl)

  engine_made :
      (url : String)
      → t.database_url ≡ some url
      → (r : Result (Unit {0})) → create_engine url ≡ r
      → RunsAs r
  engine_made url known (ok u) e = inl (u, refl)
  engine_made url known (err x) e = inr (x, (url, known, e), refl)

  create_database_engine-Runs :
      (url : String)
      → t.database_url ≡ some url
      → startswith url "postgresql+psycopg://" ≡ true
      → Runs (create_database_engine create_engine url limits.database_connect_timeout_seconds)
  unfolding create_database_engine
  create_database_engine-Runs url known scheme =
      let wrong = not (startswith url "postgresql+psycopg://") in
      let zero_timeout = limits.database_connect_timeout_seconds == 0 in
      bind-Runs (pure (raise_if wrong value_error)) _ (passed-Runs wrong (ground (arith, scheme)))
        (λ a.
          bind-Runs (pure (raise_if zero_timeout value_error)) _
            (passed-Runs zero_timeout (ground (arith, positive_timeout)))
            (λ b.
              bind-Runs (pure (create_engine url)) _
                (λ w. engine_made url known (create_engine url) refl) (λ c w. inl (_, refl))))

  postgres_resources-Runs :
      (url : String)
      → t.database_url ≡ some url
      → startswith url "postgresql+psycopg://" ≡ true
      → Runs (postgres_resources create_engine limits (some url))
  unfolding postgres_resources
  postgres_resources-Runs url known scheme =
      bind-Runs (create_database_engine create_engine url limits.database_connect_timeout_seconds) _
        (create_database_engine-Runs url known scheme)
        (λ a.
          bind-Runs (pure (raise_if (limits.max_events == 0) value_error)) _
            (passed-Runs (limits.max_events == 0) (ground (arith, positive_events)))
            (λ b w. inl (_, refl)))

  resources_of-Runs :
      (backend : DeliveryStoreBackend)
      → t.delivery_store_backend ≡ backend
      → check_database t ≡ ok tt
      → Runs (resources_of create_engine t limits backend)
  resources_of-Runs memory b d = memory_resources-Runs _
  resources_of-Runs postgresql b d =
      let (url, e, scheme) = database_url-known t b d in
      subst (λ u. Runs (postgres_resources create_engine limits u)) (sym e)
        (postgres_resources-Runs url e scheme)

  runtime_resources-Runs :
      (given : Given)
      → check_database t ≡ ok tt
      → Runs (runtime_resources create_engine t limits given)
  unfolding runtime_resources build_runtime_resources
  runtime_resources-Runs given d = elim (Bool-cases given.delivery_store) [
    | inr missing ↦ rw missing (resources_of-Runs t.delivery_store_backend refl d)
    | inl there ↦ elim (Bool-cases given.recovery_action_store) [
      | inl both ↦ rw (there, both) (λ w. inl (_, refl))
      | inr one ↦ rw (there, one) (memory_resources-Runs (λ n. given_with_memory_journal n))
    ]
  ]

  given_or_opened :
      (resource : Resource) (missing is_given : Bool)
      → Runs {A = Client} (
          if missing
          then open_one resource (record { is_there = true; owned = true })
          else return (record { is_there = is_given; owned = false }))
  given_or_opened resource true is_given w = inl (_, refl)
  given_or_opened resource false is_given w = inl (_, refl)

  client-Runs :
      (resource : Resource) (enabled is_given : Bool) (token : Option String)
      → (enabled ≡ true → is_some token ≡ true)
      → Runs (client create_engine resource enabled is_given token)
  unfolding client
  client-Runs resource true is_given none needed w = absurd (ground (arith, needed refl))
  client-Runs resource false is_given none needed w = inl (_, refl)
  client-Runs resource enabled is_given (some token) needed w =
      given_or_opened resource (enabled && not is_given) is_given w

  identity_http_client-Runs : (is_given : Bool) → Runs (identity_http_client create_engine is_given)
  identity_http_client-Runs true w = inl (_, refl)
  identity_http_client-Runs false w = inl (_, refl)

  oidc_authenticator-Runs :
      (is_given : Bool) (issuer audience : String) (algorithms : List String)
      → parse_allowed_jwt_algorithms t.management_oidc_allowed_algorithms ≡ ok algorithms
      → Runs (oidc_authenticator create_engine t is_given (some issuer) (some audience))
  unfolding oidc_authenticator
  oidc_authenticator-Runs is_given issuer audience algorithms parsed =
      bind-Runs (identity_http_client create_engine is_given) _ (identity_http_client-Runs is_given)
        (λ owned.
          bind-Runs (pure (parse_allowed_jwt_algorithms t.management_oidc_allowed_algorithms)) _
            (λ w. inl (algorithms, parsed)) (λ found w. inl (_, refl)))

  authenticator-Runs : (is_given : Bool) → Managed t → Runs (authenticator create_engine t is_given)
  unfolding authenticator
  authenticator-Runs is_given (disabled off) = rw off (λ w. inl (_, refl))
  authenticator-Runs is_given (by_token token mode set length) =
      elim (Bool-cases t.management_api_enabled) [
        | inl on ↦ rw (on, mode) (λ w. inl (_, refl))
        | inr off ↦ rw off (λ w. inl (_, refl))
      ]
  authenticator-Runs is_given (by_jwt issuer audience algorithms mode i a set mapping parsed) =
      elim (Bool-cases t.management_api_enabled) [
        | inl on ↦
            rw (on, mode, i, a) (oidc_authenticator-Runs is_given issuer audience algorithms parsed)
        | inr off ↦ rw off (λ w. inl (_, refl))
      ]

  -- With settings that pass the validation and positive numbers where pydantic wants them, creating an
  -- application returns one, whatever arguments are given; or SQLAlchemy's `create_engine` raises for
  -- the database URL of the settings, and creating the application raises that exception.
  pub create_app-Runs :
      (urlparse : String → Result ParsedUrl) (s : Settings) (given : Given)
      → validate_runtime_configuration urlparse s ≡ ok t
      → ((app : App) × ((create_app create_engine t limits given []).0 ≡ ok app))
        ⊎ ((x : Exn) × ((url : String) × (t.database_url ≡ some url) × (create_engine url ≡ err x))
            × ((create_app create_engine t limits given []).0 ≡ err x))
  unfolding create_app
  create_app-Runs urlparse s given h =
      let (github, managed) = validate_runtime_configuration-Managed urlparse s t h in
      let d = validated-database urlparse s t h in
      bind-Runs (runtime_resources create_engine t limits given) _ (runtime_resources-Runs given d)
        (λ resources.
          bind-Runs
            (client create_engine Resource.deliveries_client t.github_reconciliation_enabled
              given.github_delivery_client t.github_repository_webhook_token)
            _ (client-Runs _ _ _ _ github.reconciliation_token)
            (λ deliveries.
              bind-Runs
                (client create_engine Resource.redelivery_client t.github_redelivery_enabled
                  given.github_redelivery_client t.github_repository_webhook_write_token)
                _ (client-Runs _ _ _ _ github.redelivery_token)
                (λ redelivery.
                  bind-Runs (authenticator create_engine t given.management_identity_http_client) _
                    (authenticator-Runs _ managed) (λ identity w. inl (_, refl)))))
        []
