-- ===== src/Assembly/Closed.antt =====
-- What an application opens, its lifespan closes.
use github_webhook_monitor.Prelude.{
  ℕ, ◌+◌, String, Bool, true, false, not, ◌&&◌, Option, none, some, List, [], ◌∷◌, ◌++◌, ◌≡◌, refl,
  ap, ◌∙◌, sym, subst, arith, Bool-cases, inl, inr, keep, length, keep-append, length-append,
  startswith, ◌==◌,
}
use github_webhook_monitor.Errors.{Result, ok, value_error, raise_if, ok-injective}
use github_webhook_monitor.Storage.RecoveryActions.{in_memory_recovery_action_store}
use github_webhook_monitor.Services.Exec.{Exec, pure, return, bind-ran, ◌>>=◌}
use github_webhook_monitor.Security.Algorithms.{parse_allowed_jwt_algorithms}
use github_webhook_monitor.Config.{Settings, DeliveryStoreBackend, memory, postgresql}
use github_webhook_monitor.Assembly.{
  Resource, engine, deliveries_client, redelivery_client, identity_client, Limits, Given, Stores,
  given_with_memory_journal, RuntimeResources, Client, Authenticator, App, Opened, is_oidc,
  create_database_engine, postgres_resources, memory_resources, resources_of,
  build_runtime_resources, runtime_resources, client, identity_http_client, oidc_authenticator,
  authenticator, create_app, close_if, closes,
}

-- A step that returns has opened what the function names, and nothing else.
abbrev Opens {ℓ} : {A : Type ℓ} → (A → List Resource) → Exec Opened A → Type ℓ
Opens {A = A} f m = (w : Opened) (a : A) → (m w).0 ≡ ok a → (m w).1 ≡ f a ++ w

returned-Opens {ℓ} : {A : Type ℓ} (f : A → List Resource) (a : A) → f a ≡ [] → Opens f (return a)
returned-Opens f a e w b h = subst (λ x. w ≡ f x ++ w) (ok-injective h) (rw e refl)

pure-bind-Opens {ℓ κ} :
    {A : Type ℓ} {B : Type κ} (f : B → List Resource) (r : Result A) (k : A → Exec Opened B)
    → ((a : A) → Opens f (k a))
    → Opens f (pure r >>= k)
pure-bind-Opens f r k rest w b h =
    let (a, e, run) = bind-ran (pure r) k w h in
    ap (λ s. s.1) run ∙ rest a w b (ap (λ s. s.0) (sym run) ∙ h)

module _ (create_engine : String → Result (Unit {0})) where
  create_database_engine-Opens :
      (url : String) (timeout : ℕ)
      → Opens (λ u. engine ∷ []) (create_database_engine create_engine url timeout)
  unfolding create_database_engine
  create_database_engine-Opens url timeout =
      let one : Unit {0} → List Resource = λ u. engine ∷ [] in
      pure-bind-Opens one (raise_if (not (startswith url "postgresql+psycopg://")) value_error) _
        (λ a.
          pure-bind-Opens one (raise_if (timeout == 0) value_error) _
            (λ b. pure-bind-Opens one (create_engine url) _ (λ c w u h. refl)))

  abbrev engine_of : RuntimeResources → List Resource
  engine_of resources = close_if resources.owns_engine engine

  memory_resources-Opens :
      (stores : ℕ → Stores) (limits : Limits)
      → Opens engine_of (memory_resources create_engine stores limits)
  unfolding memory_resources
  memory_resources-Opens stores limits =
      pure-bind-Opens engine_of (in_memory_recovery_action_store limits.max_events) _
        (λ journal. returned-Opens engine_of _ refl)

  postgres_resources-Opens :
      (limits : Limits) (url : Option String)
      → Opens engine_of (postgres_resources create_engine limits url)
  unfolding postgres_resources
  postgres_resources-Opens limits none w a h = absurd (ground arith)
  postgres_resources-Opens limits (some url) w a h =
      let (u, e, run) =
        bind-ran (create_database_engine create_engine url limits.database_connect_timeout_seconds)
          _ w h in
      let opened = create_database_engine-Opens url limits.database_connect_timeout_seconds w u e in
      let now =
        (create_database_engine create_engine url limits.database_connect_timeout_seconds w).1 in
      let (v, f, run') =
        bind-ran (pure (raise_if (limits.max_events == 0) value_error)) _ now
          (ap (λ s. s.0) (sym run) ∙ h) in
      let same = ok-injective (sym (ap (λ s. s.0) (run ∙ run')) ∙ h) in
      subst (λ x. (postgres_resources create_engine limits (some url) w).1 ≡ engine_of x ++ w) same
        (ap (λ s. s.1) (run ∙ run') ∙ opened)

  resources_of-Opens :
      (settings : Settings) (limits : Limits) (backend : DeliveryStoreBackend)
      → Opens engine_of (resources_of create_engine settings limits backend)
  resources_of-Opens settings limits memory = memory_resources-Opens _ limits
  resources_of-Opens settings limits postgresql = postgres_resources-Opens limits _

  runtime_resources-Opens :
      (settings : Settings) (limits : Limits) (given : Given)
      → Opens engine_of (runtime_resources create_engine settings limits given)
  unfolding runtime_resources build_runtime_resources
  runtime_resources-Opens settings limits given = elim (Bool-cases given.delivery_store) [
    | inr missing ↦ rw missing (resources_of-Opens settings limits settings.delivery_store_backend)
    | inl there ↦ elim (Bool-cases given.recovery_action_store) [
      | inl both ↦ rw (there, both) (returned-Opens engine_of _ refl)
      | inr one ↦ rw (there, one) (memory_resources-Opens (λ n. given_with_memory_journal n) limits)
    ]
  ]

  client-Opens :
      (resource : Resource) (enabled is_given : Bool) (token : Option String)
      → Opens
          (λ c. close_if c.owned resource)
          (client create_engine resource enabled is_given token)
  unfolding client
  client-Opens resource enabled is_given none = elim (Bool-cases (enabled && not is_given)) [
    | inl needed ↦ rw needed (λ w a h. absurd (ground (arith, h)))
    | inr fine ↦ rw fine (returned-Opens (λ c. close_if c.owned resource) _ refl)
  ]
  client-Opens resource enabled is_given (some token) =
      elim (Bool-cases (enabled && not is_given)) [
        | inl needed ↦ rw needed (λ w a h. rw (sym (ok-injective h)) refl)
        | inr fine ↦ rw fine (returned-Opens (λ c. close_if c.owned resource) _ refl)
      ]

  abbrev identity_of : Authenticator → List Resource
  identity_of a = close_if a.owns_http_client identity_client

  identity_http_client-Opens :
      (is_given : Bool)
      → Opens
          (λ owned. close_if owned identity_client)
          (identity_http_client create_engine is_given)
  identity_http_client-Opens true w a h = rw (sym (ok-injective h)) refl
  identity_http_client-Opens false w a h = rw (sym (ok-injective h)) refl

  oidc_authenticator-Opens :
      (settings : Settings) (is_given : Bool) (issuer audience : Option String)
      → Opens identity_of (oidc_authenticator create_engine settings is_given issuer audience)
  unfolding oidc_authenticator
  oidc_authenticator-Opens settings is_given none audience w a h = absurd (ground arith)
  oidc_authenticator-Opens settings is_given (some issuer) none w a h = absurd (ground arith)
  oidc_authenticator-Opens settings is_given (some issuer) (some audience) w a h =
      let (owned, e, run) = bind-ran (identity_http_client create_engine is_given) _ w h in
      let opened = identity_http_client-Opens is_given w owned e in
      let now = (identity_http_client create_engine is_given w).1 in
      let algorithms = parse_allowed_jwt_algorithms settings.management_oidc_allowed_algorithms in
      let (parsed, f, run') = bind-ran (pure algorithms) _ now (ap (λ s. s.0) (sym run) ∙ h) in
      let same = ok-injective (sym (ap (λ s. s.0) (run ∙ run')) ∙ h) in
      subst
        (λ x.
          (oidc_authenticator create_engine settings is_given (some issuer) (some audience) w).1
          ≡ identity_of x ++ w)
        same (ap (λ s. s.1) (run ∙ run') ∙ opened)

  authenticator-Opens :
      (settings : Settings) (is_given : Bool)
      → Opens identity_of (authenticator create_engine settings is_given)
  unfolding authenticator
  authenticator-Opens settings is_given =
      elim (Bool-cases (settings.management_api_enabled && is_oidc settings.management_auth_mode)) [
        | inl used ↦ rw used (oidc_authenticator-Opens settings is_given _ _)
        | inr unused ↦ rw unused (returned-Opens identity_of _ refl)
      ]

  -- What is open when an application was created.
  abbrev opened_by : App → List Resource
  opened_by app =
      identity_of app.authenticator
      ++ (close_if app.redelivery.owned redelivery_client
          ++ (close_if app.deliveries.owned deliveries_client ++ (engine_of app.resources ++ [])))

  module _ (settings : Settings) (limits : Limits) (given : Given) where
    abbrev deliveries_step : Exec Opened Client
    deliveries_step =
        client create_engine deliveries_client settings.github_reconciliation_enabled
          given.github_delivery_client settings.github_repository_webhook_token

    abbrev redelivery_step : Exec Opened Client
    redelivery_step =
        client create_engine redelivery_client settings.github_redelivery_enabled
          given.github_redelivery_client settings.github_repository_webhook_write_token

    create_app-opened :
        (app : App)
        → (create_app create_engine settings limits given []).0 ≡ ok app
        → (create_app create_engine settings limits given []).1 ≡ opened_by app
    unfolding create_app
    create_app-opened app h =
        let (r, e1, run1) =
          bind-ran (runtime_resources create_engine settings limits given) _ [] h in
        let w1 = (runtime_resources create_engine settings limits given []).1 in
        let (d, e2, run2) = bind-ran deliveries_step _ w1 (ap (λ s. s.0) (sym run1) ∙ h) in
        let w2 = (deliveries_step w1).1 in
        let to2 = run1 ∙ run2 in
        let (c, e3, run3) = bind-ran redelivery_step _ w2 (ap (λ s. s.0) (sym to2) ∙ h) in
        let w3 = (redelivery_step w2).1 in
        let to3 = to2 ∙ run3 in
        let identity = authenticator create_engine settings given.management_identity_http_client in
        let (a, e4, run4) = bind-ran identity _ w3 (ap (λ s. s.0) (sym to3) ∙ h) in
        let all = to3 ∙ run4 in
        let same = ok-injective (sym (ap (λ s. s.0) all) ∙ h) in
        let runtime = runtime_resources-Opens settings limits given [] r e1 in
        let deliveries = client-Opens deliveries_client _ _ _ w1 d e2 in
        let redelivery = client-Opens redelivery_client _ _ _ w2 c e3 in
        let signed = authenticator-Opens settings given.management_identity_http_client w3 a e4 in
        subst (λ x. (create_app create_engine settings limits given []).1 ≡ opened_by x) same
          (ap (λ s. s.1) all
            ∙ signed
            ∙ ap (λ rest. identity_of a ++ rest)
                (redelivery
                  ∙ ap (λ rest. close_if c.owned redelivery_client ++ rest)
                      (deliveries
                        ∙ ap (λ rest. close_if d.owned deliveries_client ++ rest) runtime)))

    count-append :
        (p : Resource → Bool) (xs ys : List Resource)
        → length (keep p (xs ++ ys)) ≡ length (keep p xs) + length (keep p ys)
    count-append p xs ys = ap length (keep-append p xs ys) ∙ length-append (keep p xs) (keep p ys)

    closes_order :
        (app : App)
        → closes app
          ≡ close_if app.redelivery.owned redelivery_client
            ++ (close_if app.deliveries.owned deliveries_client
                ++ (identity_of app.authenticator ++ engine_of app.resources))
    unfolding closes
    closes_order app = refl

    -- The lifespan of an application closes what creating it has opened, and nothing else: of each
    -- kind of resource, as many.
    pub create_app-closes :
        (app : App) (p : Resource → Bool)
        → (create_app create_engine settings limits given []).0 ≡ ok app
        → length (keep p (closes app))
          ≡ length (keep p (create_app create_engine settings limits given []).1)
    create_app-closes app p h =
        let r = close_if app.redelivery.owned redelivery_client in
        let d = close_if app.deliveries.owned deliveries_client in
        let i = identity_of app.authenticator in
        let e = engine_of app.resources in
        rw (create_app-opened app h, closes_order app)
          (omega (
            arith,
            count-append p r (d ++ (i ++ e)),
            count-append p d (i ++ e),
            count-append p i e,
            count-append p i (r ++ (d ++ (e ++ []))),
            count-append p r (d ++ (e ++ [])),
            count-append p d (e ++ []),
            count-append p e [],
          ))
