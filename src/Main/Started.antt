-- ===== src/Main/Started.antt =====
-- When the manager is started.
use cluster_api_provider_vcl.Base.{ℕ, ◌≡◌, ◌∙◌, refl, ap, String, List}
use cluster_api_provider_vcl.Runtime.{Error, Result, ok, err, Exec, continue, lift, ◌>>=◌}
use cluster_api_provider_vcl.Runtime.Steady.{
  IsSteady, bind-IsSteady, lift-IsSteady, attempt-IsSteady,
}
use cluster_api_provider_vcl.Kube.Config.{KubeConfig, RestConfig}
use cluster_api_provider_vcl.KubeConfigHelper.{convert_to_raw_config}
use cluster_api_provider_vcl.Helm.Client.{System}
use cluster_api_provider_vcl.Helm.Secrets.Clients.{KubeClient}
use cluster_api_provider_vcl.Controllers.Setup.{
  VClusterReconciler, cluster_kind, setup_with_manager,
}
use cluster_api_provider_vcl.Main.{Libraries, reconciler_of, main}

module _ {W : Type 0} (m : Libraries W) (system : System W) (starts : W → ℕ) where
  -- The calls but `Start` start nothing.
  pub record IsQuiet : Type 0 where
    pub get_config : IsSteady starts m.get_config
    pub new_manager : (c : RestConfig) (o : _) → IsSteady starts (m.new_manager c o)
    pub new_logger : IsSteady starts m.new_logger
    pub new_discovery_client :
        (c : RestConfig) → IsSteady starts (m.registration.new_discovery_client c)
    pub server_resources : (g : String) → IsSteady starts (m.registration.server_resources g)
    pub complete : (r : VClusterReconciler W) → IsSteady starts (m.registration.complete r)
    pub add_healthz_check : (name : String) → IsSteady starts (m.add_healthz_check name)
    pub add_readyz_check : (name : String) → IsSteady starts (m.add_readyz_check name)

  -- The ends of the program, where so many starts were made before it: it exits, and no start was
  -- made; or it ends as `Start` does, after all that comes before it succeeded: the check of the
  -- readiness, that of the health, and the registration of the reconciler.
  pub data Ends (n : ℕ) (out : Result (Unit {0}) × W) : Type 0 where
    exits : (e : Error) (w : W) → out ≡ (err e, w) → starts w ≡ n → Ends n out
    starts_it :
        (client : KubeClient W) (config : RestConfig) (raw : KubeConfig) (w w' w'' w''' : W)
        → convert_to_raw_config m.raw_config config ≡ ok raw
        → setup_with_manager m.registration config (reconciler_of m system client raw) w
          ≡ (ok tt, w')
        → m.add_healthz_check "healthz" w' ≡ (ok tt, w'')
        → m.add_readyz_check "readyz" w'' ≡ (ok tt, w''')
        → starts w''' ≡ n
        → out ≡ m.start w'''
        → Ends n out

  -- A step that starts nothing, in front of steps that are known.
  module _ (n : ℕ) where
    continue-Ends :
        {A : Type 0} (r : Result A) (f : A → Exec W (Unit {0})) (w : W)
        → starts w ≡ n
        → ((a : A) → r ≡ ok a → Ends n (f a w))
        → Ends n (continue r f w)
    unfolding continue
    continue-Ends (ok a) f w h k = k a refl
    continue-Ends (err e) f w h k = exits e w refl h

    bind-Ends :
        {A : Type 0} (step : Exec W A) (f : A → Exec W (Unit {0})) (w : W)
        → IsSteady starts step
        → starts w ≡ n
        → ((a : A) (w' : W) → step w ≡ (ok a, w') → starts w' ≡ n → Ends n (f a w'))
        → Ends n ((step >>= f) w)
    unfolding ◌>>=◌
    bind-Ends step f w q h k =
        let (r, w') = step w in
        continue-Ends r f w' (q w ∙ h) λ a e. k a w' (ap (λ x. (x, w')) e) (q w ∙ h)

  setup-IsSteady :
      IsQuiet
      → (config : RestConfig) (r : VClusterReconciler W)
      → IsSteady starts (setup_with_manager m.registration config r)
  unfolding setup_with_manager cluster_kind
  setup-IsSteady q config r =
      bind-IsSteady starts _ _
        (bind-IsSteady starts _ _ (q.new_discovery_client config) λ _.
          bind-IsSteady starts _ _ (attempt-IsSteady starts _ (q.server_resources _))
            λ kinds. lift-IsSteady starts _)
        λ exists. q.complete _

  raw_config-ok :
      (r : Result KubeConfig) (raw : KubeConfig) (w w' : W) → lift r w ≡ (ok raw, w') → r ≡ ok raw
  unfolding lift
  raw_config-ok r raw w w' e = ap (λ (x : Result KubeConfig × W). x.0) e

  -- With libraries of which `Start` alone starts the manager, the program exits before it or ends
  -- as it does; the manager is started only after the reconciler, whose helm client has the
  -- configuration of the manager, was registered and both checks were added.
  pub main-Ends : IsQuiet → (args : List String) (w : W) → Ends (starts w) (main m system args w)
  unfolding main
  main-Ends q args w = bind-Ends _ _ _ w q.get_config refl λ config w1 _ h1.
      bind-Ends _ _ _ w1 (q.new_manager config _) h1 λ manager w2 _ h2.
        bind-Ends _ _ _ w2 (lift-IsSteady starts _) h2 λ raw w3 e3 h3.
          bind-Ends _ _ _ w3 q.new_logger h3 λ _ w4 _ h4.
            bind-Ends _ _ _ w4 (setup-IsSteady q manager.0 (reconciler_of m system manager.1 raw))
              h4
              λ _ w5 e5 h5. bind-Ends _ _ _ w5 (q.add_healthz_check "healthz") h5 λ _ w6 e6 h6.
                bind-Ends _ _ _ w6 (q.add_readyz_check "readyz") h6 λ _ w7 e7 h7.
                  starts_it manager.1 manager.0 raw w4 w5 w6 w7 (raw_config-ok _ raw w2 w3 e3) e5 e6
                    e7 h7 refl
