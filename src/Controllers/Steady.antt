-- ===== src/Controllers/Steady.antt =====
-- The calls of a whole reconciliation that leave something in the world as it is.
pub mod Kubeconfig
pub mod Deploy
pub mod Whole
pub mod Program
pub mod Upgrades
use cluster_api_provider_vcl.Base.{ℕ, ◌≡◌, refl, String, List}
use cluster_api_provider_vcl.Api.Condition.{Time}
use cluster_api_provider_vcl.Api.VCluster.{VCluster}
use cluster_api_provider_vcl.Runtime.{Result, ok, err, Exec, gets}
use cluster_api_provider_vcl.Runtime.Steady.{IsSteady}
use cluster_api_provider_vcl.Kube.{World, HelmClient, HttpClient, NamespacedName, SecretWrite}
use cluster_api_provider_vcl.Helm.Options.{UpgradeOptions}
use cluster_api_provider_vcl.Controllers.State.{State, on_world, edit, edit_now}
use cluster_api_provider_vcl.Controllers.Reconcile.Spared.{OnlyUpgrade}

-- The body of an answer can be read without a change, where there is one.
abbrev pub Reads : {W C : Type 0} → (W → C) → Result (Exec W String) → Type 0
Reads count (ok read) = IsSteady count read
Reads count (err e) = Unit

-- The calls of the world.
pub record WorldKeeps {W R : Type 0} (k : World W R) {C : Type 0} (count : W → C) : Type 0 where
  pub now : (w : W) → count (k.now w).1 ≡ count w
  pub get_vcluster : (key : NamespacedName) → IsSteady count (k.get_vcluster key)
  pub get_namespace : (name : String) → IsSteady count (k.get_namespace name)
  pub get_service : (key : NamespacedName) → IsSteady count (k.get_service key)
  pub get_secret : (key : NamespacedName) → IsSteady count (k.get_secret key)
  pub list_secrets :
      (labels : List (String × String)) (namespace : String)
      → IsSteady count (k.list_secrets labels namespace)
  pub delete_volume_claim : (key : NamespacedName) → IsSteady count (k.delete_volume_claim key)
  pub update : (v : VCluster) → IsSteady count (k.update v)
  pub create_or_patch_secret : (s : SecretWrite) → IsSteady count (k.create_or_patch_secret s)
  pub stat : (path : String) → IsSteady count (k.stat path)
  pub new_for_config : (config : R) → IsSteady count (k.new_for_config config)
  pub get_service_account : (config : R) → IsSteady count (k.get_service_account config)
  pub http_get :
      (c : HttpClient R) (url : String) (w : W)
      → (count (k.http_get c url w).1 ≡ count w) × Reads count (k.http_get c url w).0

module _ {W : Type 0} {C : Type 0} (count : W → C) where
  -- What is looked at in the world of a state.
  abbrev pub counted : State W → C
  counted s = count s.world

  pub on_world-IsSteady :
      {A : Type 0} (m : Exec W A) → IsSteady count m → IsSteady counted (on_world m)
  unfolding on_world
  on_world-IsSteady m h s = h s.world

  pub gets-IsSteady : {A : Type 0} (f : State W → A) → IsSteady counted (gets f)
  unfolding gets
  gets-IsSteady f s = refl

  pub edit-IsSteady : (f : VCluster → VCluster) → IsSteady counted (edit f)
  unfolding edit
  edit-IsSteady f s = refl

  pub edit_now-IsSteady :
      (now : W → Time × W)
      → ((w : W) → count (now w).1 ≡ count w)
      → (f : Time → VCluster → VCluster) → IsSteady counted (edit_now now f)
  unfolding edit_now
  edit_now-IsSteady now h f s = h s.world
