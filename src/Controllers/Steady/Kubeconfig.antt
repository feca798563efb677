-- ===== src/Controllers/Steady/Kubeconfig.antt =====
-- `syncVClusterKubeconfig` and `checkReadyz`, where the calls of the world leave a number.
use cluster_api_provider_vcl.Base.{
  ℕ, zero, suc, ◌≡◌, ◌∙◌, refl, String, Option, none, some, ◌==◌, inl, inr,
}
use cluster_api_provider_vcl.Base.Tests.{nat_eq, Bool-cases}
use cluster_api_provider_vcl.Base.Lists.{length}
use cluster_api_provider_vcl.Api.Condition.{control_plane_initialized_condition}
use cluster_api_provider_vcl.Api.VCluster.{VCluster}
use cluster_api_provider_vcl.Runtime.{Result, ok, err, Exec, is_not_found, continue, ◌>>=◌}
use cluster_api_provider_vcl.Runtime.Steady.{
  IsSteady, pure-IsSteady, raise-IsSteady, lift-IsSteady, wrapped-IsSteady, bind-IsSteady,
  if-IsSteady, elim_option-IsSteady,
}
use cluster_api_provider_vcl.Kube.{World, Service}
use cluster_api_provider_vcl.Kube.Config.{KubeConfig}
use cluster_api_provider_vcl.Controllers.State.{State, condition_is_true, on_world}
use cluster_api_provider_vcl.Controllers.Host.{poll_service}
use cluster_api_provider_vcl.Controllers.Kubeconfig.{
  key_of, entry, get_kube_config, first_credentials, get_credentials, poll_next, poll_answer,
  poll_host, discover_host, check_initialized, host_of, ensure_host, sync_kubeconfig, check_readyz,
}
use cluster_api_provider_vcl.Controllers.Steady.{
  WorldKeeps, Reads, counted, on_world-IsSteady, gets-IsSteady, edit-IsSteady, edit_now-IsSteady,
}

module _ {W R : Type 0} (k : World W R) {C : Type 0} (count : W → C)
    (keeps : WorldKeeps k count) where
  get_kube_config-IsSteady : (v : VCluster) → IsSteady count (get_kube_config k v)
  unfolding get_kube_config
  get_kube_config-IsSteady v = bind-IsSteady count _ _ (keeps.get_secret _) λ secret.
      elim_option-IsSteady count (entry "config" secret.data_entries) _ _
        (λ bytes. wrapped-IsSteady count _ _ (lift-IsSteady count (k.load_config bytes)))
        (raise-IsSteady count KubeConfig _)

  get_credentials-IsSteady : (v : VCluster) → IsSteady count (get_credentials k v)
  unfolding get_credentials
  get_credentials-IsSteady v = bind-IsSteady count _ _ (get_kube_config-IsSteady v) λ config.
      elim_option-IsSteady count (first_credentials config.auth_infos) _ _
        (λ c. pure-IsSteady count c) (raise-IsSteady count _ _)

  poll_next-IsSteady :
      (again : Exec W String) (o : Option String)
      → IsSteady count again
      → IsSteady count (poll_next k again o)
  unfolding poll_next
  poll_next-IsSteady again none h w = h w
  poll_next-IsSteady again (some host) h w = refl

  poll_answer-IsSteady :
      (again : Exec W String) (r : Result Service)
      → IsSteady count again
      → IsSteady count (poll_answer k again r)
  unfolding poll_answer
  poll_answer-IsSteady again (err e) h w = elim (Bool-cases (is_not_found e)) [
    | inl p ↦ rw p refl
    | inr p ↦ rw p refl
  ]
  poll_answer-IsSteady again (ok service) h w = poll_next-IsSteady again (poll_service service) h w

  poll_host-IsSteady : (rounds : ℕ) (v : VCluster) → IsSteady count (poll_host k rounds v)
  unfolding poll_host
  poll_host-IsSteady zero v w = refl
  poll_host-IsSteady (suc rounds) v w =
      let (r, w') = k.get_service (key_of v) w in
      poll_answer-IsSteady (poll_host k rounds v) r (poll_host-IsSteady rounds v) w'
      ∙ keeps.get_service (key_of v) w

  discover_host-IsSteady : (v : VCluster) → IsSteady count (discover_host k v)
  unfolding discover_host
  discover_host-IsSteady v =
      bind-IsSteady count _ _ (wrapped-IsSteady count _ _ (poll_host-IsSteady k.poll_rounds v))
        λ host. pure-IsSteady count _

  check_initialized-IsSteady : (config : R) → IsSteady (counted count) (check_initialized k config)
  unfolding check_initialized
  check_initialized-IsSteady config = bind-IsSteady (counted count) _ _ (gets-IsSteady count _) λ v.
      if-IsSteady (counted count) (condition_is_true v control_plane_initialized_condition) _ _
        (pure-IsSteady (counted count) tt)
        (bind-IsSteady (counted count) _ _
          (on_world-IsSteady count _ (keeps.get_service_account config))
          λ _. edit_now-IsSteady count k.now keeps.now _)

  host_of-IsSteady : (v : VCluster) → IsSteady (counted count) (host_of k v)
  unfolding host_of
  host_of-IsSteady v =
      if-IsSteady (counted count) (v.spec.control_plane_endpoint.host == "") _ _
        (bind-IsSteady (counted count) _ _ (on_world-IsSteady count _ (discover_host-IsSteady v))
          λ host.
            bind-IsSteady (counted count) _ _ (edit-IsSteady count _)
              λ _. pure-IsSteady (counted count) host)
        (pure-IsSteady (counted count) _)

  ensure_host-IsSteady : IsSteady (counted count) (ensure_host k)
  unfolding ensure_host
  ensure_host-IsSteady =
      bind-IsSteady (counted count) _ _ (gets-IsSteady count _) λ v. host_of-IsSteady v

  pub sync_kubeconfig-IsSteady : IsSteady (counted count) (sync_kubeconfig k)
  unfolding sync_kubeconfig
  sync_kubeconfig-IsSteady =
      let c = counted count in
      bind-IsSteady c _ _ (gets-IsSteady count _) λ v.
        bind-IsSteady c _ _ (on_world-IsSteady count _ (get_credentials-IsSteady v)) λ credentials.
          bind-IsSteady c _ _ (lift-IsSteady c _) λ config.
            bind-IsSteady c _ _ (on_world-IsSteady count _ (keeps.new_for_config config)) λ _.
              bind-IsSteady c _ _ (check_initialized-IsSteady config) λ _.
                bind-IsSteady c _ _ (edit-IsSteady count _) λ _.
                  bind-IsSteady c _ _
                    (wrapped-IsSteady c _ _
                      (on_world-IsSteady count _ (get_kube_config-IsSteady v)))
                    λ kube_config.
                      bind-IsSteady c _ _
                        (if-IsSteady c (nat_eq (length kube_config.clusters) 1) _ _
                          (pure-IsSteady c tt) (raise-IsSteady c (Unit {0}) _))
                        λ _. bind-IsSteady c _ _ ensure_host-IsSteady λ host.
                          bind-IsSteady c _ _ (gets-IsSteady count _) λ port.
                            bind-IsSteady c _ _ (lift-IsSteady c _) λ out.
                              bind-IsSteady c _ _
                                (wrapped-IsSteady c _ _
                                  (on_world-IsSteady count _ (keeps.create_or_patch_secret _)))
                                λ _.
                                  bind-IsSteady c _ _ (edit_now-IsSteady count k.now keeps.now _)
                                    λ _. pure-IsSteady c config

  -- The body that an answer has is read.
  read-IsSteady :
      {B : Type 0} (r : Result (Exec W String)) (f : String → Exec (State W) B) (s : State W)
      → Reads count r
      → ((a : String) → IsSteady (counted count) (f a))
      → counted count (continue r (λ read. on_world read >>= f) s).1 ≡ counted count s
  unfolding continue
  read-IsSteady (ok read) f s h g =
      bind-IsSteady (counted count) _ f (on_world-IsSteady count read h) g s
  read-IsSteady (err e) f s h g = refl

  ask-IsSteady :
      {B : Type 0} (m : Exec W (Exec W String)) (f : String → Exec (State W) B)
      → ((w : W) → (count (m w).1 ≡ count w) × Reads count (m w).0)
      → ((a : String) → IsSteady (counted count) (f a))
      → IsSteady (counted count) (on_world m >>= λ read. on_world read >>= f)
  unfolding ◌>>=◌ on_world
  ask-IsSteady m f h g s =
      let (r, w) = m s.world in
      read-IsSteady r f (record s { world = w }) (h s.world).1 g ∙ (h s.world).0

  pub check_readyz-IsSteady : (config : R) → IsSteady (counted count) (check_readyz k config)
  unfolding check_readyz
  check_readyz-IsSteady config =
      let c = counted count in
      bind-IsSteady c _ _ (gets-IsSteady count _) λ v.
        bind-IsSteady c _ _ (lift-IsSteady c _)
          λ _. ask-IsSteady _ _ (keeps.http_get _ _) λ body. pure-IsSteady c (body == "ok")
