-- ===== src/Tests/Fixtures.antt =====
-- Conditions, objects and a world, for the tests.
use cluster_api_provider_vcl.Base.{ℕ, String, true, false, none, some, List, [], ◌∷◌}
use cluster_api_provider_vcl.Api.Condition.{Condition, Conditions}
use cluster_api_provider_vcl.Api.VCluster.{VCluster}
use cluster_api_provider_vcl.Runtime.{Reason, Result, ok, err, errorf}
use cluster_api_provider_vcl.Kube.{World, HelmClient}
use cluster_api_provider_vcl.Kube.Config.{KubeConfig, new_config, new_cluster, new_auth_info}
use cluster_api_provider_vcl.Conditions.Groups.{LocalizedCondition}
use cluster_api_provider_vcl.Helm.Secrets.{Codec, DecodedRelease, Release}
use cluster_api_provider_vcl.Helm.Metadata.{Metadata}
use cluster_api_provider_vcl.Patching.Options.{PatchHelper}
use cluster_api_provider_vcl.Controllers.State.{State}

abbrev pub at_time : ℕ → Condition → Condition
at_time t c = record c { last_transition_time = t }

abbrev pub condition_with : (type status severity : String) → Condition
condition_with type status severity = record {
  type = type;
  status = status;
  severity = severity;
  last_transition_time = 0;
  reason = "";
  message = "";
}

abbrev pub kubeconfig_true : Condition
kubeconfig_true = condition_with "KubeconfigReady" "True" ""

abbrev pub control_plane_true : Condition
control_plane_true = condition_with "ControlPlaneInitialized" "True" ""

abbrev pub chart_true : Condition
chart_true = condition_with "HelmChartDeployed" "True" ""

abbrev pub chart_failed : Condition
chart_failed = condition_with "HelmChartDeployed" "False" "Error"

abbrev pub check_failed : Condition
check_failed = condition_with "KubeconfigReady" "False" "Warning"

abbrev pub two_conditions : Conditions
two_conditions = at_time 2000000000 control_plane_true ∷ at_time 3000000000 check_failed ∷ []

abbrev pub from_vcluster : Condition → LocalizedCondition
from_vcluster c = record { condition = c; source = record { kind = "VCluster"; name = "a" } }

abbrev pub vcluster_metadata : (version : String) → (urls : List String) → Metadata
vcluster_metadata version urls = record {
  name = "vcluster";
  home = "";
  sources = [];
  version = version;
  description = "";
  keywords = [];
  maintainers = [];
  icon = "";
  api_version = "v2";
  condition = "";
  tags = "";
  app_version = "";
  deprecated = false;
  annotations = [];
  kube_version = "";
  type = "application";
  urls = urls;
}

abbrev pub decoded_of : ℕ → DecodedRelease
decoded_of n = record {
  name = "a";
  info = some (record {
    first_deployed = record { time = 1000000000 };
    last_deployed = record { time = 1000000000 };
    deleted = record { time = 0 };
    description = "";
    status = "deployed";
    notes = "";
  });
  chart = some (record { metadata = some (vcluster_metadata "0.19.0" []) });
  version = n;
  namespace = "b";
}

abbrev pub release_of : ℕ → Release
release_of n = record {
  decoded = decoded_of n;
  secret = record {
    name = "sh.helm.release.v1.a";
    namespace = "b";
    labels = [];
    data_entries = [];
  };
}

abbrev pub vcluster_with : List String → Conditions → VCluster
vcluster_with finalizers cs = record {
  kind = "VCluster";
  metadata = record {
    name = "a";
    namespace = "b";
    generation = 2;
    deletion_timestamp = none;
    owner_references = "Cluster" ∷ [];
    finalizers = finalizers;
  };
  spec = record {
    control_plane_endpoint = record { host = ""; port = 0 };
    helm_release =
        some (record { chart = record { name = ""; repo = ""; version = "v0.1" }; values = "" });
  };
  status = record {
    ready = false;
    initialized = false;
    phase = "";
    reason = "";
    message = "";
    conditions = cs;
    observed_generation = 1;
  };
}

abbrev pub kube_config_of : String → KubeConfig
kube_config_of server = record new_config {
  clusters = ("vcluster", record new_cluster { server = server }) ∷ [];
  auth_infos =
      (
        "user",
        record new_auth_info {
          client_certificate_data = some "cert";
          client_key_data = some "key";
        },
      )
      ∷ [];
}

abbrev missing : {A : Type 0} → String → Result A
missing name = err (record { reason = Reason.not_found; message = name })

-- A world in which every call succeeds and counts. Its clock is the count of calls in seconds.
-- Each call leaves the world as it is.
abbrev pub world_with : {W : Type 0} → (W → ℕ) → World W String
world_with time_of = record {
  now = λ w. (time_of w, w);
  get_vcluster = λ key w. (ok (vcluster_with [] []), w);
  get_namespace = λ name w. (ok (record { deletion_timestamp = none }), w);
  get_service = λ key w. (ok (record { type = "ClusterIP"; ingress = [] }), w);
  get_secret = λ key w. (
    ok (record {
      name = key.name;
      namespace = key.namespace;
      labels = [];
      data_entries = ("config", "https://localhost:8443") ∷ [];
    }),
    w,
  );
  list_secrets = λ labels namespace w. (ok [], w);
  delete_volume_claim = λ key w. (missing key.name, w);
  update = λ v w. (ok v, w);
  create_or_patch_secret = λ s w. (ok tt, w);
  stat = λ path w. (missing path, w);
  load_config = λ bytes. ok (kube_config_of bytes);
  write_config = λ c. ok "out";
  client_config = λ c. ok c.current_context;
  new_for_config = λ r w. (ok tt, w);
  get_service_account = λ r w. (ok tt, w);
  transport_for = λ r. ok tt;
  http_get = λ r url w. (ok (λ w. (ok "ok", w)), w);
  new_aggregate = λ es. errorf "several errors";
  poll_rounds = 6;
}

abbrev pub test_world : World ℕ String
test_world = world_with (λ w. w)

abbrev pub test_helm : HelmClient ℕ
test_helm = record {
  install = λ name namespace options w. (ok tt, w);
  upgrade = λ name namespace options w. (ok tt, w);
  rollback = λ name namespace revision w. (ok tt, w);
  exists = λ name namespace w. (ok true, w);
  delete = λ name namespace w. (ok tt, w);
}

abbrev pub test_codec : Codec
test_codec = record {
  base64_decode = λ text. ok (1 ∷ 2 ∷ 3 ∷ []);
  gunzip = λ b. ok b;
  text_of = λ b. "";
  unmarshal = λ b. ok (decoded_of 1);
}

abbrev pub test_helper : PatchHelper ℕ String
test_helper = record { new_helper = λ v. ok v.metadata.name; patch = λ h options s. (ok tt, s) }

abbrev pub start : State ℕ
start = record { world = 7; vcluster = vcluster_with ("other" ∷ []) two_conditions }
