-- ===== src/Controllers/Live/Revision.antt =====
-- What a run writes into the conditions lies in the types that its patch owns.
use cluster_api_provider_vcl.Base.{
  ◌≡◌, ◌∙◌, refl, ap, String, Bool, false, some, none, [], ◌∷◌, ◌==◌, inl, inr, arith,
}
use cluster_api_provider_vcl.Base.Lists.{exists}
use cluster_api_provider_vcl.Api.Condition.{
  Condition, ConditionType, Time, ready_condition, kubeconfig_ready_condition,
  control_plane_initialized_condition, helm_chart_deployed_condition, severity_error,
  severity_warning,
}
use cluster_api_provider_vcl.Api.VCluster.{VCluster, get_conditions, set_conditions}
use cluster_api_provider_vcl.Kube.{World, HelmClient}
use cluster_api_provider_vcl.Helm.Secrets.{Codec}
use cluster_api_provider_vcl.Patching.Options.{PatchHelper}
use cluster_api_provider_vcl.Conditions.Getter.{find}
use cluster_api_provider_vcl.Conditions.Setter.{set_condition}
use cluster_api_provider_vcl.Conditions.Setter.Lookup.{find-set}
use cluster_api_provider_vcl.Conditions.Summary.{summary, set_summary}
use cluster_api_provider_vcl.Controllers.State.{State, vcluster_getter, vcluster_setter}
use cluster_api_provider_vcl.Controllers.Writes.{
  HasDistinct, set_condition-HasDistinct, rest_of, mark_true-rest_of, mark_false-rest_of,
  delete_condition-rest_of, set_condition-rest_of,
}
use cluster_api_provider_vcl.Controllers.Kubeconfig.{set_initialized}
use cluster_api_provider_vcl.Controllers.Host.{write_host}
use cluster_api_provider_vcl.Controllers.Phase.{reconcile_phase}
use cluster_api_provider_vcl.Controllers.Phase.Laws.{reconcile_phase-Verdict, healthy, broken}
use cluster_api_provider_vcl.Controllers.Reconcile.{summary_options, reconcile_body}
use cluster_api_provider_vcl.Controllers.Reconcile.Converges.{handed, summary-type}
use cluster_api_provider_vcl.Controllers.Reconcile.Ready.{reconcile_phase-conditions}
use cluster_api_provider_vcl.Controllers.Reconcile.Survives.{Survives, writes}
use cluster_api_provider_vcl.Controllers.Reconcile.Survives.Steps.{reconcile_body-keeps}
use cluster_api_provider_vcl.Controllers.Reconcile.Frame.{Framed}
use cluster_api_provider_vcl.Controllers.Reconcile.Frame.Steps.{reconcile_body-Framed}

-- The types that the patch of a run owns.
unfoldable pub is_owned : ConditionType → Bool
unfolding exists
is_owned t =
    exists (λ u. u == t)
      (ready_condition ∷ kubeconfig_ready_condition ∷ control_plane_initialized_condition
        ∷ helm_chart_deployed_condition ∷ [])

-- An object of the same kind, with each type at most once, and with the conditions of the other
-- types as they were.
pub record IsRevision (v u : VCluster) : Type 0 where
  pub same_kind : u.kind ≡ v.kind
  pub distinct : HasDistinct u
  pub unowned :
      (t : ConditionType)
      → is_owned t ≡ false
      → find t u.status.conditions ≡ find t v.status.conditions

HasKind : String → VCluster → Type 0
HasKind kind v = v.kind ≡ kind

HasKind-rest_of :
    (kind : String) (v u : VCluster) → rest_of u ≡ rest_of v → HasKind kind v → HasKind kind u
unfolding rest_of HasKind
HasKind-rest_of kind v u e h = ap (λ (x : VCluster). x.kind) e ∙ h

HasKind-Survives : (kind : String) → Survives (HasKind kind)
unfolding set_initialized write_host HasKind
HasKind-Survives kind = record {
  marked = λ now v t w h. HasKind-rest_of kind v _ (mark_true-rest_of now v t) h;
  failed = λ now v message h.
      HasKind-rest_of kind v _
        (mark_false-rest_of now v helm_chart_deployed_condition "HelmDeployFailed" severity_error
          message)
        h;
  unchecked = λ now v message h.
      HasKind-rest_of kind v _
        (mark_false-rest_of now v kubeconfig_ready_condition "CheckFailed" severity_warning message)
        h;
  deleted =
      λ v h. HasKind-rest_of kind v _ (delete_condition-rest_of v kubeconfig_ready_condition) h;
  initialized = λ v h. h;
  hosted = λ host v h. h;
  ready = λ b v h. h;
}

reconcile_phase-kind : (v : VCluster) → (reconcile_phase v).kind ≡ v.kind
reconcile_phase-kind v = elim (reconcile_phase-Verdict v) [
  | healthy a e ↦ ap (λ (x : VCluster). x.kind) e
  | broken c i e ↦ ap (λ (x : VCluster). x.kind) e
]

set_condition-find :
    (now : Time) (v : VCluster) (r : Condition) (t : ConditionType)
    → HasDistinct v
    → (r.type == t) ≡ false
    → find t (set_condition now v (some r)).status.conditions ≡ find t v.status.conditions
unfolding set_condition set_conditions vcluster_setter vcluster_getter get_conditions
set_condition-find now v r t d n = find-set now v.status.conditions r t d ∙ rw n refl

set_none-find :
    (now : Time) (v : VCluster) (t : ConditionType)
    → find t (set_condition now v none).status.conditions ≡ find t v.status.conditions
unfolding set_condition
set_none-find now v t = refl

ready_not_owned :
    (t : ConditionType) → is_owned t ≡ false → (writes t ≡ false) × ((ready_condition == t) ≡ false)
unfolding is_owned writes exists
ready_not_owned t h = ground arith

set_summary-find :
    (now : Time) (v : VCluster) (t : ConditionType)
    → HasDistinct v
    → is_owned t ≡ false
    → find t (set_summary now v summary_options).status.conditions ≡ find t v.status.conditions
unfolding set_summary vcluster_setter
set_summary-find now v t d h = elim (summary-type (vcluster_getter v) summary_options) [
  | inl e ↦ ap (λ o. find t (set_condition now v o).status.conditions) e ∙ set_none-find now v t
  | inr (r, e, q) ↦
      ap (λ o. find t (set_condition now v o).status.conditions) e
      ∙ set_condition-find now v r t d (rw q (ready_not_owned t h).1)
]

set_summary-shape :
    (now : Time) (v : VCluster)
    → HasDistinct v
    → HasDistinct (set_summary now v summary_options)
      × ((set_summary now v summary_options).kind ≡ v.kind)
unfolding set_summary vcluster_setter rest_of
set_summary-shape now v d =
    let o = summary (vcluster_getter v) summary_options in
    (
      set_condition-HasDistinct now v o d,
      ap (λ (x : VCluster). x.kind) (set_condition-rest_of now v o),
    )

handed-IsRevision :
    (now : Time) (v u : VCluster) → Framed v u → u.kind ≡ v.kind → IsRevision v (handed now u)
handed-IsRevision now v u f e =
    let p = reconcile_phase u in
    let d : HasDistinct p = rw (reconcile_phase-conditions u) f.distinct in
    let (d', e') = set_summary-shape now p d in
    record {
      same_kind = e' ∙ reconcile_phase-kind u ∙ e;
      distinct = d';
      unowned = λ t h.
          set_summary-find now p t d h
          ∙ ap (λ cs. find t cs) (reconcile_phase-conditions u)
          ∙ f.frame t (ready_not_owned t h).0;
    }

module _ {W R H : Type 0} (k : World W R) (helm : HelmClient W) (codec : Codec)
    (helper : PatchHelper W H) (default_repo default_name : String) where
  -- What the deferred function hands to the patch helper after the body.
  pub reconcile_body-IsRevision :
      (now : Time) (s : State W)
      → HasDistinct s.vcluster
      → IsRevision s.vcluster
          (handed now (reconcile_body k helm codec helper default_repo default_name s).1.vcluster)
  unfolding HasKind
  reconcile_body-IsRevision now s d =
      handed-IsRevision now s.vcluster
        (reconcile_body k helm codec helper default_repo default_name s).1.vcluster
        (reconcile_body-Framed k helm codec helper default_repo default_name s d)
        (reconcile_body-keeps k helm codec helper (HasKind s.vcluster.kind)
          (HasKind-Survives s.vcluster.kind) default_repo default_name s refl)
