-- ===== src/Controllers/Lifecycle/Stays.antt =====
-- Once the status says that the control plane is initialized, it goes on saying so.
use cluster_api_provider_vcl.Base.{◌∙◌, ap, Bool, String, inl, inr}
use cluster_api_provider_vcl.Api.VCluster.{VCluster}
use cluster_api_provider_vcl.Kube.{World, HelmClient, NamespacedName}
use cluster_api_provider_vcl.Helm.Secrets.{Codec}
use cluster_api_provider_vcl.Controllers.Lifecycle.{
  IsChecked, HasFlag, IsInitialized, after, Step, reconciled, edited, Reach, here, next,
}
use cluster_api_provider_vcl.Controllers.Lifecycle.Marks.{
  IsChecked-like, IsChecked-Persists, HasFlag-Persists,
}
use cluster_api_provider_vcl.Controllers.Reconcile.Persists.{Persists, Answers}
use cluster_api_provider_vcl.Controllers.Reconcile.Persists.Runs.{reconcile_object-keeps}
use cluster_api_provider_vcl.Patching.StatusConditions.{Server}
use cluster_api_provider_vcl.Patching.Helper.{Library, patch_helper}
use cluster_api_provider_vcl.Patching.Kept.{Rereads, patch_helper-Patches}

module _ {W R J : Type 0} (k : World W R) (helm : HelmClient W) (codec : Codec) (server : Server W)
    (library : Library W J) (answers : Answers k.update) (rereads : Rereads library)
    (default_repo default_name : String) where
  run_keeps :
      (P : VCluster → Type 0)
      → Persists P
      → (cluster_kind_exists : Bool) (req : NamespacedName) (w : W) (v : VCluster) → P v
      → P (after k helm codec server library default_repo default_name cluster_kind_exists req w v)
  run_keeps P persists cluster_kind_exists req w v h =
      reconcile_object-keeps k helm codec (patch_helper server library) answers
        (patch_helper-Patches server library rereads) P persists default_repo default_name
        cluster_kind_exists req (record { world = w; vcluster = v }) h

  Step-IsInitialized :
      (v u : VCluster)
      → Step k helm codec server library default_repo default_name v u
      → IsInitialized v
      → IsInitialized u
  Step-IsInitialized v u (reconciled cluster_kind_exists req w conditions flag) (c, f) = (
    elim conditions [
      | inl e ↦ IsChecked-like v u e c
      | inr e ↦
          IsChecked-like _ u e
            (run_keeps IsChecked IsChecked-Persists cluster_kind_exists req w v c)
    ],
    elim flag [
      | inl e ↦ e ∙ f
      | inr e ↦ e ∙ run_keeps HasFlag HasFlag-Persists cluster_kind_exists req w v f
    ],
  )
  Step-IsInitialized v u (edited e) (c, f) =
      (IsChecked-like v u (ap (λ s. s.conditions) e) c, ap (λ s. s.initialized) e ∙ f)

  -- Let the server answer an update of an object with the conditions and the flag that it was
  -- sent, and let an object that is converted to fields and back have its conditions and its flag.
  -- Once an object has at most one condition of each type, a True ControlPlaneInitialized condition
  -- and the flag `initialized` set, it has them after any sequence of runs of the reconciler
  -- with the patch helper of the program, ended by an error or not, each with its conditions and
  -- its flag stored or not, and of changes by others outside the status.
  pub Reach-IsInitialized :
      (v u : VCluster)
      → Reach k helm codec server library default_repo default_name v u
      → IsInitialized v
      → IsInitialized u
  Reach-IsInitialized v u here h = h
  Reach-IsInitialized v u (next {t} r st) h =
      Step-IsInitialized t u st (Reach-IsInitialized v t r h)
