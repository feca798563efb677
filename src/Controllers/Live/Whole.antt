-- ===== src/Controllers/Live/Whole.antt =====
-- What a whole run needs of the object, the server and the patch helper, and its first step.
use cluster_api_provider_vcl.Base.{
  ◌≡◌, ◌∙◌, refl, sym, ap, String, true, ◌++◌, List, [], ◌∷◌, inl, inr,
}
use cluster_api_provider_vcl.Base.Tests.{Bool-cases}
use cluster_api_provider_vcl.Api.Condition.{ConditionType, Time, ready_condition}
use cluster_api_provider_vcl.Api.VCluster.{VCluster, VClusterStatus}
use cluster_api_provider_vcl.Runtime.{Result, ok, err, Exec}
use cluster_api_provider_vcl.Conditions.Getter.{find}
use cluster_api_provider_vcl.Patching.Options.{
  PatchHelper, PatchOption, with_status_observed_generation,
}
use cluster_api_provider_vcl.Controllers.State.{State, condition_is_true}
use cluster_api_provider_vcl.Controllers.Writes.{
  HasDistinct, status_is_true, condition_is_true-find,
}
use cluster_api_provider_vcl.Controllers.Finalizer.{
  with_finalizers, has_finalizer, update_object, ensure_finalizer,
}
use cluster_api_provider_vcl.Controllers.Finalizer.Laws.{StoresSent}
use cluster_api_provider_vcl.Controllers.Live.Revision.{IsRevision}
use cluster_api_provider_vcl.Controllers.Phase.{reconcile_phase}
use cluster_api_provider_vcl.Controllers.Kubeconfig.Progress.{Synced}
use cluster_api_provider_vcl.Controllers.Lifecycle.{IsInitialized}
use cluster_api_provider_vcl.Controllers.Lifecycle.Marks.{
  IsChecked-like, IsChecked-Persists, HasFlag-Persists,
}
use cluster_api_provider_vcl.Controllers.Reconcile.{patch_options}
use cluster_api_provider_vcl.Controllers.Reconcile.Converges.{handed}
use cluster_api_provider_vcl.Controllers.Reconcile.Ready.{set_summary-reconcile_phase}
use cluster_api_provider_vcl.Controllers.Reconcile.Persists.{
  IsLike, Patches, reconcile_phase-IsLike,
}
use cluster_api_provider_vcl.Controllers.Live.{Done, Succeeds, Succeeds-edit, Succeeds-bind}
use cluster_api_provider_vcl.Controllers.Live.Serves.{IsNamed}
use cluster_api_provider_vcl.Controllers.Live.Serves.Body.{IsDeployable}

-- What the deferred function gives to `Patch` after a body without an error.
abbrev pub sent_options : List PatchOption
sent_options = with_status_observed_generation ∷ patch_options

-- A helper is made of every object; its patch of a revision of that object with the options of the
-- reconciler succeeds; and patches leave the conditions and the flag of the object in memory as
-- they are.
pub record Helps {W H : Type 0} (helper : PatchHelper W H) : Type 0 where
  pub made : (v : VCluster) → H
  pub new_helper : (v : VCluster) → helper.new_helper v ≡ ok (made v)
  pub sent :
      (v : VCluster) (s : State W)
      → HasDistinct v
      → IsRevision v s.vcluster
      → (helper.patch (made v) sent_options s).0 ≡ ok tt
  pub patches : Patches helper

-- The object says that it is ready and that its control plane is initialized.
abbrev pub IsRunning : VCluster → Type 0
IsRunning v = (condition_is_true v ready_condition ≡ true) × IsInitialized v

IsLike-condition :
    (v u : VCluster) (t : ConditionType)
    → IsLike v u
    → condition_is_true u t ≡ condition_is_true v t
IsLike-condition v u t l =
    condition_is_true-find u t
    ∙ ap (λ cs. status_is_true (find t cs)) l.conditions
    ∙ sym (condition_is_true-find v t)

pub handed-IsRunning :
    (now : Time) (v : VCluster) → Synced true v → v.status.ready ≡ true → IsRunning (handed now v)
handed-IsRunning now v h ready =
    let c = h.initialized.checked in
    let phased = reconcile_phase-IsLike v in
    (
      (set_summary-reconcile_phase now v h ready).0,
      (
        IsChecked-Persists.summarized now (reconcile_phase v) (
            IsChecked-like v (reconcile_phase v) phased.conditions
              (c.sound.distinct, c.control_plane)),
        HasFlag-Persists.summarized now (reconcile_phase v)
            (phased.initialized ∙ h.initialized.initialized),
      ),
    )

pub IsLike-IsRunning : (v u : VCluster) → IsLike v u → IsRunning v → IsRunning u
IsLike-IsRunning v u l (r, (c, f)) = (
  IsLike-condition v u ready_condition l ∙ r,
  (IsChecked-like v u l.conditions c, l.initialized ∙ f),
)

-- What a run needs of the object.
pub record IsReconcilable (name namespace : String) (status : VClusterStatus) (v : VCluster)
    : Type 0 where
  pub is_named : IsNamed name namespace v
  pub deployable : IsDeployable v
  pub distinct : HasDistinct v
  pub status_is : v.status ≡ status

module _ (name namespace : String) (status : VClusterStatus) where
  sent_kept :
      (fs : List String) (v : VCluster)
      → IsReconcilable name namespace status v
      → IsReconcilable name namespace status (with_finalizers fs v)
  sent_kept fs v h = record {
    is_named = record { named = h.is_named.named; spaced = h.is_named.spaced };
    deployable = record {
      release = h.deployable.release;
      has_release = h.deployable.has_release;
      has_version = h.deployable.has_version;
    };
    distinct = h.distinct;
    status_is = h.status_is;
  }

  module _ {W : Type 0} (update : VCluster → Exec W VCluster)
      (stores : StoresSent status update) where
    updated :
        (r : Result VCluster) (s : State W) (w : W)
        → r ≡ ok s.vcluster
        → IsReconcilable name namespace status s.vcluster
        → Done
            (IsReconcilable name namespace status)
            (λ _. Unit {0})
            (elim r as (λ _. Result (Unit {0}) × State W) [
              | ok v ↦ (ok tt, record { world = w; vcluster = v })
              | err e ↦ (err e, record s { world = w })
            ])
    updated r s w e h = rw e (Done.done tt (record s { world = w }) refl tt h)

    update_object-Succeeds :
        Succeeds (IsReconcilable name namespace status) (update_object update) (λ _. Unit {0})
    unfolding update_object
    update_object-Succeeds = record {
      at = λ s h.
          updated (update s.vcluster s.world).0 s (update s.vcluster s.world).1
            (stores s.vcluster s.world h.status_is) h;
    }

    pub ensure_finalizer-Succeeds :
        (f : String)
        → Succeeds
            (IsReconcilable name namespace status)
            (ensure_finalizer update f)
            (λ _. Unit {0})
    unfolding ensure_finalizer
    ensure_finalizer-Succeeds f = record {
      at = λ s h. elim (Bool-cases (has_finalizer f s.vcluster.metadata.finalizers)) [
        | inl e ↦ rw e (Done.done tt s refl tt h)
        | inr e ↦ rw e (
            (Succeeds-bind {Q = λ _. Unit {0}} _ _
                (Succeeds-edit (with_finalizers (s.vcluster.metadata.finalizers ++ f ∷ []))
                  (sent_kept _) tt)
                λ a q. update_object-Succeeds).at
              s h)
      ];
    }
