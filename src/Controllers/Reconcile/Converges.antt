-- ===== src/Controllers/Reconcile/Converges.antt =====
-- A run after one that ended without an error, and whose generation was observed.
use cluster_api_provider_vcl.Base.Tests.{nat_eq}
use cluster_api_provider_vcl.Base.{
  map, ℕ, ◌≡◌, ◌∙◌, refl, sym, ap, true, none, some, List, arith, inl, inr, ◌⊎◌, String,
}
use cluster_api_provider_vcl.Api.Condition.{
  Condition, Time, helm_chart_deployed_condition, ready_condition,
}
use cluster_api_provider_vcl.Api.VCluster.{VCluster, get_conditions}
use cluster_api_provider_vcl.Runtime.{ok, pure, gets, ◌>>=◌}
use cluster_api_provider_vcl.Kube.{World, HelmClient}
use cluster_api_provider_vcl.Helm.Secrets.{Codec}
use cluster_api_provider_vcl.Patching.Options.{PatchHelper}
use cluster_api_provider_vcl.Conditions.Getter.{Getter, is_true, get, find}
use cluster_api_provider_vcl.Conditions.Setter.{set_condition}
use cluster_api_provider_vcl.Conditions.Merge.{MergeOption, apply_options}
use cluster_api_provider_vcl.Conditions.Merge.Verdict.{merge-Decides}
use cluster_api_provider_vcl.Conditions.Summary.{
  no_options, conditions_in_scope, restrict_counter, count_steps, summary, set_summary,
}
use cluster_api_provider_vcl.Controllers.State.{
  State, vcluster_getter, vcluster_setter, condition_is_true,
}
use cluster_api_provider_vcl.Controllers.Writes.{HasDistinct, set_condition-is_true}
use cluster_api_provider_vcl.Controllers.Phase.{reconcile_phase}
use cluster_api_provider_vcl.Controllers.Redeploy.{is_up_to_date, redeploy_if_needed}
use cluster_api_provider_vcl.Controllers.Reconcile.{Reply, summary_options, reconcile_body}
use cluster_api_provider_vcl.Controllers.Reconcile.Laws.{
  Verdict, not_deployed, not_synced, not_ready, running, reconcile_body-Verdict,
}
use cluster_api_provider_vcl.Controllers.Reconcile.Ready.{
  reconcile_phase-condition, reconcile_phase-conditions,
}

-- The object that the deferred function hands to the patch helper, and the one with its
-- generation observed, which the helper writes.
abbrev pub handed : Time → VCluster → VCluster
handed now v = set_summary now (reconcile_phase v) summary_options

abbrev pub observed : VCluster → VCluster
observed v = record v { status = record (v.status) { observed_generation = v.metadata.generation } }

nat_eq_self : (n : ℕ) → nat_eq n n ≡ true
nat_eq_self n = ground arith

-- A summary has the type Ready.
pub summary-type :
    (g : Getter) (options : List MergeOption)
    → (summary g options ≡ none)
      ⊎ ((r : Condition) × (summary g options ≡ some r) × (r.type ≡ ready_condition))
unfolding summary
summary-type g options =
    let o = apply_options options no_options in
    let scope = conditions_in_scope g o.condition_types g.conditions in
    elim (merge-Decides (map some scope) ready_condition
      (count_steps scope (restrict_counter scope o))) [
        | inl (e, _) ↦ inl e
        | inr (c, r, _, e, d) ↦ inr (r, e, d.0)
      ]

-- The summary writes no other condition than Ready.
set_summary-chart :
    (now : Time) (v : VCluster)
    → HasDistinct v
    → condition_is_true (set_summary now v summary_options) helm_chart_deployed_condition
      ≡ condition_is_true v helm_chart_deployed_condition
unfolding set_summary vcluster_setter set_condition
set_summary-chart now v d = elim (summary-type (vcluster_getter v) summary_options) [
  | inl e ↦ ap (λ o. condition_is_true (set_condition now v o) helm_chart_deployed_condition) e
  | inr (r, e, t) ↦
      ap (λ o. condition_is_true (set_condition now v o) helm_chart_deployed_condition) e
      ∙ set_condition-is_true now v r helm_chart_deployed_condition d
      ∙ rw t refl
]

observed-chart :
    (v : VCluster)
    → condition_is_true (observed v) helm_chart_deployed_condition
      ≡ condition_is_true v helm_chart_deployed_condition
unfolding condition_is_true vcluster_getter is_true get get_conditions find
observed-chart v = refl

module _ {W R H : Type 0} (k : World W R) (helm : HelmClient W) (codec : Codec)
    (helper : PatchHelper W H) (default_repo default_name : String) where
  -- A run that ends without an error leaves each type once and the chart deployed.
  chart_deployed :
      (out : Reply × State W)
      → Verdict out
      → out.0.error ≡ none
      → HasDistinct out.1.vcluster
        × (condition_is_true out.1.vcluster helm_chart_deployed_condition ≡ true)
  chart_deployed out (not_deployed e p d c) n =
      let z : some e ≡ none = sym (ap (λ (r : Reply). r.error) p) ∙ n in ground arith
  chart_deployed out (not_synced p s c) n = (s.distinct, s.chart)
  chart_deployed out (not_ready p s c) n =
      (s.initialized.checked.sound.distinct, s.initialized.checked.sound.chart)
  chart_deployed out (running p s c) n =
      (s.initialized.checked.sound.distinct, s.initialized.checked.sound.chart)

  observed_up_to_date :
      (v : VCluster)
      → condition_is_true v helm_chart_deployed_condition ≡ true
      → is_up_to_date (observed v) ≡ true
  unfolding is_up_to_date
  observed_up_to_date v c = rw (nat_eq_self v.metadata.generation, observed-chart v, c) refl

  up_to_date :
      (now : Time) (v : VCluster)
      → HasDistinct v
      → condition_is_true v helm_chart_deployed_condition ≡ true
      → is_up_to_date (observed (handed now v)) ≡ true
  up_to_date now v d c =
      let phased = reconcile_phase v in
      let dp : HasDistinct phased = rw (reconcile_phase-conditions v) d in
      observed_up_to_date (handed now v) (
        set_summary-chart now phased dp
        ∙ reconcile_phase-condition v helm_chart_deployed_condition
        ∙ c)

  -- Once a run on an object with at most one condition of each type has ended without an error,
  -- with its phase and its summary set and its generation observed, the next run calls neither
  -- helm nor the disk before it synchronises the kubeconfig, and leaves the object as it is.
  pub redeploy_if_needed-reconcile_body :
      (s : State W) (now : Time) (w : W)
      → HasDistinct s.vcluster
      → (reconcile_body k helm codec helper default_repo default_name s).0.error ≡ none
      → (redeploy_if_needed k helm default_repo default_name (record {
        world = w;
        vcluster = observed (
            handed now (reconcile_body k helm codec helper default_repo default_name s).1.vcluster);
      })
          ≡ (
            ok tt,
            record {
              world = w;
              vcluster = observed (
                  handed now
                    (reconcile_body k helm codec helper default_repo default_name s).1.vcluster);
            },
          ))
  unfolding redeploy_if_needed ◌>>=◌ gets pure
  redeploy_if_needed-reconcile_body s now w d n =
      let out = reconcile_body k helm codec helper default_repo default_name s in
      let (d', c) =
        chart_deployed out
          (reconcile_body-Verdict k helm codec helper default_repo default_name s d) n in
      rw (up_to_date now out.1.vcluster d' c) refl
