-- ===== src/Tests/OfLifecycle.antt =====
-- The theorem on sequences of runs, for two runs and a change of the object between them.
use cluster_api_provider_vcl.Base.{ℕ, ◌≡◌, refl, ap, sym, true, arith, inr, []}
use cluster_api_provider_vcl.Api.Condition.{control_plane_initialized_condition}
use cluster_api_provider_vcl.Api.VCluster.{VCluster, get_conditions}
use cluster_api_provider_vcl.Runtime.{ok}
use cluster_api_provider_vcl.Conditions.Getter.{is_true, get, find}
use cluster_api_provider_vcl.Controllers.State.{vcluster_getter, condition_is_true}
use cluster_api_provider_vcl.Controllers.Reconcile.Persists.{Answers}
use cluster_api_provider_vcl.Controllers.Lifecycle.{
  IsInitialized, after, reconciled, edited, here, next,
}
use cluster_api_provider_vcl.Controllers.Lifecycle.Stays.{Reach-IsInitialized}
use cluster_api_provider_vcl.Patching.Kept.{Rereads}
use cluster_api_provider_vcl.Tests.Fixtures.{
  world_with, vcluster_with, two_conditions, test_codec, test_helm,
}
use cluster_api_provider_vcl.Tests.OfConditions.{two_conditions-Distinct}
use cluster_api_provider_vcl.Tests.OfProgram.{plain_server, plain_library, request}

abbrev checked : VCluster
checked =
    let v = vcluster_with [] two_conditions in
    record v { status = record (v.status) { initialized = true } }

checked-is_true : condition_is_true checked control_plane_initialized_condition ≡ true
unfolding condition_is_true is_true get find vcluster_getter get_conditions
checked-is_true = refl

echo-Answers : Answers {W = ℕ} (λ v w. (ok v, w))
echo-Answers v w u p =
    let e : v ≡ u = ground arith in
    record {
      conditions = ap (λ (x : VCluster). x.status.conditions) (sym e);
      initialized = ap (λ (x : VCluster). x.status.initialized) (sym e);
    }

pub plain-Rereads : Rereads (plain_library (λ n. n))
plain-Rereads n v u fields written p q r =
    let e : v ≡ u = ground arith in
    record {
      conditions = ap (λ (x : VCluster). x.status.conditions) (sym e);
      initialized = ap (λ (x : VCluster). x.status.initialized) (sym e);
    }

-- The object in memory after a run that starts at the time 3.
abbrev ran : VCluster → VCluster
ran v =
    after (world_with (λ n. n)) test_helm test_codec (plain_server (λ n. n))
      (plain_library (λ n. n)) "https://charts" "vcluster" true request 3 v

abbrev renewed : VCluster → VCluster
renewed v = record v { metadata = record (v.metadata) { generation = 3 } }

-- A run, a new generation, and a run again.
Reach-IsInitialized_example : IsInitialized (ran (renewed (ran checked)))
Reach-IsInitialized_example =
    Reach-IsInitialized (world_with (λ n. n)) test_helm test_codec (plain_server (λ n. n))
      (plain_library (λ n. n)) echo-Answers plain-Rereads "https://charts" "vcluster" checked
      (ran (renewed (ran checked)))
      (next
        (next {u = renewed (ran checked)}
          (next {u = ran checked} here (reconciled true request 3 (inr refl) (inr refl)))
          (edited refl))
        (reconciled true request 3 (inr refl) (inr refl)))
      ((two_conditions-Distinct, checked-is_true), refl)
