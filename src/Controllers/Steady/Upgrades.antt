-- ===== src/Controllers/Steady/Upgrades.antt =====
-- How often a run of `Reconcile` has helm upgrade, and for which objects.
use cluster_api_provider_vcl.Base.{ℕ, suc, ◌≡◌, true, false, ◌==◌, some, ◌⊎◌}
use cluster_api_provider_vcl.Api.VCluster.{VCluster, VirtualClusterHelmRelease}
use cluster_api_provider_vcl.Runtime.{ok, Exec}
use cluster_api_provider_vcl.Controllers.State.{State}
use cluster_api_provider_vcl.Controllers.Finalizer.{
  cleanup_finalizer, ensure_finalizer, has_finalizer,
}
use cluster_api_provider_vcl.Controllers.Redeploy.{is_up_to_date}

-- The generation of the object is to be deployed, and its release has a version.
pub record IsDue (v : VCluster) : Type 0 where
  pub outdated : is_up_to_date v ≡ false
  pub release : VirtualClusterHelmRelease
  pub specified : v.spec.helm_release ≡ some release
  pub versioned : (release.chart.version == "") ≡ false

-- Nothing was added, or one under a condition.
abbrev pub AtMostOne : Type 0 → (before after : ℕ) → Type 0
AtMostOne P before after = (after ≡ before) ⊎ ((after ≡ suc before) × P)

-- `EnsureFinalizer` succeeded, and left a due object that has the finalizer.
pub record IsProtected {W : Type 0} (update : VCluster → Exec W VCluster) (s : State W)
    : Type 0 where
  pub state : State W
  pub ensures : ensure_finalizer update cleanup_finalizer s ≡ (ok tt, state)
  pub has : has_finalizer cleanup_finalizer state.vcluster.metadata.finalizers ≡ true
  pub due : IsDue state.vcluster
