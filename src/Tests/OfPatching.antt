-- ===== src/Tests/OfPatching.antt =====
-- The theorems on the patch helper, on concrete objects and servers.
use cluster_api_provider_vcl.Base.{ℕ, []}
use cluster_api_provider_vcl.Runtime.{Result, ok, errorf}
use cluster_api_provider_vcl.Patching.StatusConditions.{Server}
use cluster_api_provider_vcl.Tests.Fixtures.{two_conditions, vcluster_with}
use cluster_api_provider_vcl.Tests.OfPatches.{after}

-- A server that answers the patches of the conditions with `answer`.
abbrev server_with : Result (Unit {0}) → Server ℕ
server_with answer = record {
  now = λ w. (w, w);
  get = λ key w. (ok (vcluster_with [] two_conditions), w);
  patch_status_locked = λ before after w. (answer, w);
  timed_out = errorf "timed out waiting for the condition";
  message = λ e. "conflict";
}

abbrev pub accepting : Server ℕ
accepting = server_with (ok tt)
