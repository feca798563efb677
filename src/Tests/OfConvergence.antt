-- ===== src/Tests/OfConvergence.antt =====
-- The theorem on a second run, after a first one that deploys the chart and finds no
-- kubeconfig yet.
use cluster_api_provider_vcl.Base.{ℕ, ◌≡◌, refl, String, none}
use cluster_api_provider_vcl.Runtime.{
  Reason, ok, err, pure, raise, lift, gets, attempt, continue, ◌>>=◌,
}
use cluster_api_provider_vcl.Kube.{World}
use cluster_api_provider_vcl.Controllers.State.{on_world, edit, edit_now}
use cluster_api_provider_vcl.Controllers.Redeploy.{
  redeploy_if_needed, deploy_release, deploy, is_up_to_date,
}
use cluster_api_provider_vcl.Controllers.Kubeconfig.{
  sync_kubeconfig, get_credentials, get_kube_config,
}
use cluster_api_provider_vcl.Controllers.Reconcile.{reconcile_body, reply_deployed, reply_synced}
use cluster_api_provider_vcl.Controllers.Reconcile.Converges.{
  handed, observed, redeploy_if_needed-reconcile_body,
}
use cluster_api_provider_vcl.Tests.OfConditions.{two_conditions-Distinct}
use cluster_api_provider_vcl.Tests.Fixtures.{test_world, test_helm, test_codec, test_helper, start}

-- The chart is deployed and its secret is not there yet.
abbrev waiting_world : World ℕ String
waiting_world = record test_world {
  get_secret = λ key w. (err (record { reason = Reason.not_found; message = key.name }), w);
}

no_error :
    (reconcile_body waiting_world test_helm test_codec test_helper "https://charts" "vcluster"
      start).0.error
    ≡ none
unfolding reconcile_body redeploy_if_needed deploy_release deploy sync_kubeconfig get_credentials
    get_kube_config pure raise lift gets attempt continue ◌>>=◌ on_world edit edit_now
    reply_deployed reply_synced is_up_to_date
no_error = refl

redeploy_if_needed-reconcile_body_example :
    redeploy_if_needed waiting_world test_helm "https://charts" "vcluster" (record {
      world = 9;
      vcluster = observed (
          handed 9000000000
            (reconcile_body waiting_world test_helm test_codec test_helper "https://charts"
              "vcluster" start).1.vcluster);
    })
    ≡ (
      ok tt,
      record {
        world = 9;
        vcluster = observed (
            handed 9000000000
              (reconcile_body waiting_world test_helm test_codec test_helper "https://charts"
                "vcluster" start).1.vcluster);
      },
    )
redeploy_if_needed-reconcile_body_example =
    redeploy_if_needed-reconcile_body waiting_world test_helm test_codec test_helper
      "https://charts" "vcluster" start 9000000000 9 two_conditions-Distinct no_error
