-- ===== src/Controllers/Lifecycle.antt =====
-- The status of an object over runs of the reconciler and writes of others, as a step relation.
pub mod Marks
pub mod Stays
use cluster_api_provider_vcl.Base.{◌≡◌, ◌∙◌, Bool, true, String, ◌⊎◌, inl, inr}
use cluster_api_provider_vcl.Api.Condition.{control_plane_initialized_condition}
use cluster_api_provider_vcl.Api.VCluster.{VCluster}
use cluster_api_provider_vcl.Runtime.{Exec}
use cluster_api_provider_vcl.Kube.{World, HelmClient, NamespacedName}
use cluster_api_provider_vcl.Helm.Secrets.{Codec}
use cluster_api_provider_vcl.Controllers.State.{State, condition_is_true}
use cluster_api_provider_vcl.Controllers.Writes.{HasDistinct}
use cluster_api_provider_vcl.Controllers.Reconcile.{reconcile_object}
use cluster_api_provider_vcl.Patching.StatusConditions.{Server}
use cluster_api_provider_vcl.Patching.Helper.{Library, patch_helper}

-- The condition says so, and each type occurs once.
abbrev pub IsChecked : VCluster → Type 0
IsChecked v = HasDistinct v × (condition_is_true v control_plane_initialized_condition ≡ true)

abbrev pub HasFlag : VCluster → Type 0
HasFlag v = v.status.initialized ≡ true

-- The status says by its condition and by its flag that the control plane is initialized.
abbrev pub IsInitialized : VCluster → Type 0
IsInitialized v = IsChecked v × HasFlag v

module _ {W R J : Type 0} (k : World W R) (helm : HelmClient W) (codec : Codec) (server : Server W)
    (library : Library W J) (default_repo default_name : String) where
  -- The object in memory after a run on `v`.
  abbrev pub after : (cluster_kind_exists : Bool) → NamespacedName → W → VCluster → VCluster
  after cluster_kind_exists req w v =
      (reconcile_object k helm codec (patch_helper server library) default_repo default_name
        cluster_kind_exists req (record { world = w; vcluster = v })).1.vcluster

  -- What the next run reads: the conditions and the flag are each as the run left them, or as
  -- before where the patch that sends them fails. Others write no status.
  pub data Step (v u : VCluster) : Type 0 where
    reconciled :
        (cluster_kind_exists : Bool) (req : NamespacedName) (w : W)
        → (u.status.conditions ≡ v.status.conditions)
          ⊎ (u.status.conditions ≡ (after cluster_kind_exists req w v).status.conditions)
        → (u.status.initialized ≡ v.status.initialized)
          ⊎ (u.status.initialized ≡ (after cluster_kind_exists req w v).status.initialized)
        → Step v u
    edited : u.status ≡ v.status → Step v u

  pub data Reach (v : VCluster) : VCluster → Type 0 where
    here : Reach v v
    next : {t u : VCluster} → Reach v t → Step t u → Reach v u
