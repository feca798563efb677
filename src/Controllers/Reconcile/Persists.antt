-- ===== src/Controllers/Reconcile/Persists.antt =====
-- What a run of the reconciler keeps: the hypotheses, and the finalizer.
pub mod Runs
use cluster_api_provider_vcl.Base.{◌≡◌, refl, String, inl, inr, List}
use cluster_api_provider_vcl.Base.Tests.{Bool-cases}
use cluster_api_provider_vcl.Api.Condition.{Time}
use cluster_api_provider_vcl.Api.VCluster.{VCluster}
use cluster_api_provider_vcl.Runtime.{◌>>◌, Result, ok, err, Exec}
use cluster_api_provider_vcl.Conditions.Summary.{set_summary}
use cluster_api_provider_vcl.Patching.Options.{PatchHelper, PatchOption}
use cluster_api_provider_vcl.Controllers.State.{vcluster_setter, State, edit}
use cluster_api_provider_vcl.Controllers.Ensures.{Leaves, Ensures-edit, Ensures-bind}
use cluster_api_provider_vcl.Controllers.Finalizer.{
  with_finalizers, has_finalizer, update_object, remove_finalizer, ensure_finalizer,
}
use cluster_api_provider_vcl.Controllers.Finalizer.Laws.{remove_finalizer_lem}
use cluster_api_provider_vcl.Controllers.Phase.{reconcile_phase}
use cluster_api_provider_vcl.Controllers.Phase.Laws.{reconcile_phase-Verdict, healthy, broken}
use cluster_api_provider_vcl.Controllers.Reconcile.{summary_options}
use cluster_api_provider_vcl.Controllers.Reconcile.Survives.{Survives, Maintains}

-- The object has the conditions and the flag of the other one.
pub record IsLike (v u : VCluster) : Type 0 where
  pub conditions : u.status.conditions ≡ v.status.conditions
  pub initialized : u.status.initialized ≡ v.status.initialized

pub record Persists (P : VCluster → Type 0) : Type 0 where
  pub survives : Survives P
  pub like : (v u : VCluster) → IsLike v u → P v → P u
  pub summarized : (now : Time) (v : VCluster) → P v → P (set_summary now v summary_options)

-- The server answers an update with the conditions and the flag that it was sent.
abbrev pub Answers : {W : Type 0} → (VCluster → Exec W VCluster) → Type 0
Answers {W} update = (v : VCluster) (w : W) (u : VCluster) → (update v w).0 ≡ ok u → IsLike v u

-- A patch leaves the conditions and the flag of the object in memory as they are.
abbrev pub Patches : {W H : Type 0} → PatchHelper W H → Type 0
Patches {W} {H} helper =
    (h : H) (options : List PatchOption) (s : State W)
    → IsLike s.vcluster (helper.patch h options s).1.vcluster

pub reconcile_phase-IsLike : (v : VCluster) → IsLike v (reconcile_phase v)
reconcile_phase-IsLike v = elim (reconcile_phase-Verdict v) [
  | healthy a e ↦ rw e (record { conditions = refl; initialized = refl })
  | broken c i e ↦ rw e (record { conditions = refl; initialized = refl })
]

module _ {W : Type 0} (P : VCluster → Type 0) (persists : Persists P)
    (update : VCluster → Exec W VCluster) (answers : Answers update) where
  updated :
      (s : State W) (r : Result VCluster) (w : W)
      → (update s.vcluster s.world).0 ≡ r
      → P s.vcluster
      → Leaves
          (λ _. P)
          P
          (elim r as (λ _. Result (Unit {0}) × State W) [
            | ok v ↦ (ok tt, record { world = w; vcluster = v })
            | err e ↦ (err e, record s { world = w })
          ])
  updated s (ok v) w q h = persists.like s.vcluster v (answers s.vcluster s.world v q) h
  updated s (err e) w q h = h

  update_object-Maintains : Maintains P (update_object update)
  unfolding update_object
  update_object-Maintains = record {
    at = λ s h. let (r, w) = update s.vcluster s.world in updated s r w refl h;
  }

  sent_kept : (fs : List String) (v : VCluster) → P v → P (with_finalizers fs v)
  sent_kept fs v h =
      persists.like v (with_finalizers fs v) (record { conditions = refl; initialized = refl }) h

  sent-Maintains :
      (fs : List String) → Maintains P (do edit (with_finalizers fs); update_object update)
  sent-Maintains fs =
      Ensures-bind _ _ (Ensures-edit _ λ v h. sent_kept fs v h) λ _. update_object-Maintains

  pub remove_finalizer-Maintains : (f : String) → Maintains P (remove_finalizer update f)
  remove_finalizer-Maintains f = record {
    at = λ s h. elim (Bool-cases (has_finalizer f s.vcluster.metadata.finalizers)) [
      | inl e ↦
          rw (remove_finalizer_lem update f s, e)
            (update_object-Maintains.at _ (sent_kept _ s.vcluster h))
      | inr e ↦ rw (remove_finalizer_lem update f s, e) h
    ];
  }

  pub ensure_finalizer-Maintains : (f : String) → Maintains P (ensure_finalizer update f)
  unfolding ensure_finalizer
  ensure_finalizer-Maintains f = record {
    at = λ s h. elim (Bool-cases (has_finalizer f s.vcluster.metadata.finalizers)) [
      | inl e ↦ rw e h
      | inr e ↦ rw e ((sent-Maintains _).at s h)
    ];
  }
