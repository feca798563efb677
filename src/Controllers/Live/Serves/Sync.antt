-- ===== src/Controllers/Live/Serves/Sync.antt =====
-- The synchronisation of the kubeconfig and the readiness check, where the world serves them.
use cluster_api_provider_vcl.Base.{◌≡◌, ◌∙◌, refl, ap, String, true, ◌==◌, arith}
use cluster_api_provider_vcl.Base.Tests.{if◌then◌else◌, nat_eq}
use cluster_api_provider_vcl.Base.Lists.{length}
use cluster_api_provider_vcl.Api.Condition.{
  ConditionType, Time, control_plane_initialized_condition, kubeconfig_ready_condition,
}
use cluster_api_provider_vcl.Api.VCluster.{VCluster}
use cluster_api_provider_vcl.Runtime.{◌>>=◌, ◌>>◌, errorf, pure, raise, lift, gets, wrapped}
use cluster_api_provider_vcl.Kube.{World, HelmClient}
use cluster_api_provider_vcl.Kube.Config.{KubeConfig}
use cluster_api_provider_vcl.Controllers.State.{
  vcluster_setter, condition_is_true, on_world, edit, edit_now,
}
use cluster_api_provider_vcl.Controllers.Writes.{rest_of, mark_true-rest_of}
use cluster_api_provider_vcl.Controllers.Kubeconfig.{
  check_initialized, ensure_host, host_of, set_initialized, get_kube_config, kubeconfig_secret,
  sync_kubeconfig, check_readyz,
}
use cluster_api_provider_vcl.Conditions.Setter.{mark_true}
use cluster_api_provider_vcl.Controllers.Host.{write_host, set_servers}
use cluster_api_provider_vcl.Controllers.Live.{
  Gives, Succeeds, Succeeds-pure, Succeeds-lift, Succeeds-gets, Succeeds-on_world, Succeeds-wrapped,
  Succeeds-if, Succeeds-edit, Succeeds-edit_now, Succeeds-bind,
}
use cluster_api_provider_vcl.Controllers.Live.Serves.{
  Serves, IsNamed, get_kube_config-Gives, get_credentials-Gives, discover_host-Gives,
}

module _ (name namespace : String) where
  pub IsNamed-rest_of :
      (v u : VCluster) → rest_of u ≡ rest_of v → IsNamed name namespace v → IsNamed name namespace u
  unfolding rest_of
  IsNamed-rest_of v u e h = record {
    named = ap (λ (x : VCluster). x.metadata.name) e ∙ h.named;
    spaced = ap (λ (x : VCluster). x.metadata.namespace) e ∙ h.spaced;
  }

  mark_true-IsNamed :
      (now : Time) (v : VCluster) (t : ConditionType)
      → IsNamed name namespace v
      → IsNamed name namespace (mark_true now v t)
  mark_true-IsNamed now v t h = IsNamed-rest_of v _ (mark_true-rest_of now v t) h

  module _ {W R : Type 0} (k : World W R) (helm : HelmClient W)
      (serves : Serves k helm name namespace) where
    pub marked :
        (t : ConditionType)
        → Succeeds
            (IsNamed name namespace)
            (edit_now k.now (λ now o. mark_true now o t))
            (λ _. Unit {0})
    marked t = Succeeds-edit_now k.now _ (λ now v h. mark_true-IsNamed now v t h) tt

    -- What is read from the object, and that it has the name.
    got :
        Succeeds {W = W} (IsNamed name namespace) (gets (λ s. s.vcluster)) (IsNamed name namespace)
    got = Succeeds-gets _ λ s h. h

    check_initialized-Succeeds :
        Succeeds (IsNamed name namespace) (check_initialized k serves.rest_config) (λ _. Unit {0})
    unfolding check_initialized
    check_initialized-Succeeds = Succeeds-bind _ _ got λ v h.
        Succeeds-if (condition_is_true v control_plane_initialized_condition) _ _
          (λ e. Succeeds-pure tt tt)
          (λ e.
            Succeeds-bind {Q = λ _. Unit {0}} _ _
              (Succeeds-on_world _ tt serves.get_service_account tt)
              λ a q. marked control_plane_initialized_condition)

    set_initialized-IsNamed :
        (v : VCluster) → IsNamed name namespace v → IsNamed name namespace (set_initialized v)
    unfolding set_initialized
    set_initialized-IsNamed v h = record { named = h.named; spaced = h.spaced }

    write_host-IsNamed :
        (host : String) (v : VCluster)
        → IsNamed name namespace v
        → IsNamed name namespace (write_host host v)
    unfolding write_host
    write_host-IsNamed host v h = record { named = h.named; spaced = h.spaced }

    ensure_host-Succeeds : Succeeds (IsNamed name namespace) (ensure_host k) (λ _. Unit {0})
    unfolding ensure_host host_of
    ensure_host-Succeeds = Succeeds-bind _ _ got λ v h.
        Succeeds-if (v.spec.control_plane_endpoint.host == "") _ _
          (λ e.
            Succeeds-bind {Q = λ _. Unit {0}} _ _
              (Succeeds-on_world _ _ (discover_host-Gives k helm name namespace serves v h) tt)
              λ host q.
                Succeeds-bind {Q = λ _. Unit {0}} _ _
                  (Succeeds-edit (write_host host) (write_host-IsNamed host) tt)
                  λ a q. Succeeds-pure host tt)
          (λ e. Succeeds-pure _ tt)

    -- A kubeconfig of one cluster is taken.
    one_cluster :
        (c : KubeConfig)
        → c ≡ serves.kube_config
        → Succeeds {W = W}
            (IsNamed name namespace)
            (if nat_eq (length c.clusters) 1
              then pure tt
              else raise (errorf "unexpected kube config"))
            (λ _. Unit {0})
    one_cluster c e =
        Succeeds-if (nat_eq (length c.clusters) 1) _ _ (λ _. Succeeds-pure tt tt)
          λ n. let z = rw (e, serves.one_cluster) at n in ground arith

    -- The part of `syncVClusterKubeconfig` from the rest config on.
    synced :
        (v : VCluster)
        → IsNamed name namespace v
        → Succeeds
            (IsNamed name namespace)
            (do
              on_world (k.new_for_config serves.rest_config)
              check_initialized k serves.rest_config
              edit set_initialized
              kube_config ← wrapped "can not retrieve kubeconfig: " (on_world (get_kube_config k v))
              (if nat_eq (length kube_config.clusters) 1
                  then pure tt
                  else raise (errorf "unexpected kube config"))
              host ← ensure_host k
              port ← gets (λ s. s.vcluster.spec.control_plane_endpoint.port)
              let clusters = set_servers host port kube_config.clusters
              out ← lift (k.write_config (record kube_config { clusters = clusters }))
              wrapped "can not create a kubeconfig secret: "
                  (on_world (k.create_or_patch_secret (kubeconfig_secret v out)))
              edit_now k.now (λ t o. mark_true t o kubeconfig_ready_condition)
              pure serves.rest_config)
            (λ config. config ≡ serves.rest_config)
    synced v h =
        Succeeds-bind {Q = λ _. Unit {0}} _ _ (Succeeds-on_world _ tt serves.new_for_config tt)
          λ a q. Succeeds-bind _ _ check_initialized-Succeeds λ a q.
            Succeeds-bind {Q = λ _. Unit {0}} _ _
              (Succeeds-edit set_initialized set_initialized-IsNamed tt)
              λ a q.
                Succeeds-bind {Q = λ c. c ≡ serves.kube_config} _ _
                  (Succeeds-wrapped _ _ serves.kube_config
                    (get_kube_config-Gives k helm name namespace serves v h) refl)
                  λ c e. Succeeds-bind _ _ (one_cluster c e) λ a q.
                    Succeeds-bind _ _ ensure_host-Succeeds λ host q.
                      Succeeds-bind {Q = λ _. Unit {0}} _ _ (Succeeds-gets _ λ s p. tt) λ port q.
                        Succeeds-bind {Q = λ _. Unit {0}} _ _
                          (Succeeds-lift _ _ (serves.write_config _) tt)
                          λ out q.
                            Succeeds-bind {Q = λ _. Unit {0}} _ _
                              (Succeeds-wrapped _ _ tt (serves.create_or_patch_secret _) tt)
                              λ a q.
                                Succeeds-bind _ _ (marked kubeconfig_ready_condition)
                                  λ a q. Succeeds-pure serves.rest_config refl

    pub check_readyz-Succeeds :
        Succeeds (IsNamed name namespace) (check_readyz k serves.rest_config) (λ b. b ≡ true)
    unfolding check_readyz
    check_readyz-Succeeds = Succeeds-bind _ _ got λ v h.
        Succeeds-bind {Q = λ _. Unit {0}} _ _ (Succeeds-lift _ tt serves.transport_for tt) λ a q.
          Succeeds-bind {Q = λ m. Gives m "ok"} _ _
            (Succeeds-on_world _ _ (serves.http_get _ _) (serves.healthy _ _))
            λ m g.
              Succeeds-bind {Q = λ body. body ≡ "ok"} _ _ (Succeeds-on_world _ "ok" g refl)
                λ body e. Succeeds-pure _ (rw e refl)

    pub sync_kubeconfig-Succeeds :
        Succeeds
          (IsNamed name namespace)
          (sync_kubeconfig k)
          (λ config. config ≡ serves.rest_config)
    unfolding sync_kubeconfig
    sync_kubeconfig-Succeeds = Succeeds-bind _ _ got λ v h.
        Succeeds-bind {Q = λ c. c ≡ serves.credentials} _ _
          (Succeeds-on_world _ serves.credentials
            (get_credentials-Gives k helm name namespace serves v h) refl)
          λ credentials c.
            Succeeds-bind {Q = λ r. r ≡ serves.rest_config} _ _
              (Succeeds-lift _ serves.rest_config (rw (h.named, h.spaced, c) serves.client_config)
                refl)
              λ config r. rw r (synced v h)
