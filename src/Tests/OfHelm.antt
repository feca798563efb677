-- ===== src/Tests/OfHelm.antt =====
-- The theorem on the temporary files of the helm client, on a system that knows their names.
use cluster_api_provider_vcl.Base.{refl, String, false, List, ◌∷◌, ◌==◌, not, inl, inr}
use cluster_api_provider_vcl.Base.Lists.{exists, keep}
use cluster_api_provider_vcl.Base.Tests.{if◌then◌else◌, Bool-cases}
use cluster_api_provider_vcl.Runtime.{Result, ok, err, errorf}
use cluster_api_provider_vcl.Runtime.Steady.{IsSteady}
use cluster_api_provider_vcl.Kube.{HelmClient}
use cluster_api_provider_vcl.Helm.Options.{UpgradeOptions, no_upgrade_options}
use cluster_api_provider_vcl.Helm.Client.{System, helm_client}
use cluster_api_provider_vcl.Helm.Client.Files.{Made, Tracks, helm_client-IsSteady}

-- The first of two names that no file has, or an error.
abbrev new_file : List String → Result String × List String
new_file files =
    if exists (λ g. g == "/tmp/1") files
    then (if exists (λ g. g == "/tmp/2") files
        then (err (errorf "too many files"), files)
        else (ok "/tmp/2", "/tmp/2" ∷ files))
    else (ok "/tmp/1", "/tmp/1" ∷ files)

-- The state is the temporary files. The binary fails.
abbrev pub tracking : System (List String)
tracking = record {
  create_temp = new_file;
  write = λ file text files. (ok tt, files);
  remove = λ file files. keep (λ g. not (g == file)) files;
  stat = λ file files. (ok tt, files);
  run = λ path args files. (("no such chart", err (errorf "exit status 1")), files);
  wait_rounds = 1200;
}

new_file-Made : (files : List String) → Made (λ fs. fs) files (new_file files)
new_file-Made files = elim (Bool-cases (exists (λ g. g == "/tmp/1") files)) [
  | inr a ↦ rw a (refl, a)
  | inl a ↦ elim (Bool-cases (exists (λ g. g == "/tmp/2") files)) [
    | inr b ↦ rw (a, b) (refl, b)
    | inl b ↦ rw (a, b) refl
  ]
]

pub tracking-Tracks : Tracks tracking (λ fs. fs)
tracking-Tracks = record {
  create_temp = new_file-Made;
  write = λ file text files. refl;
  stat = λ file files. refl;
  run = λ path args files. refl;
  remove = λ file files. refl;
}

abbrev failing_client : HelmClient (List String)
failing_client = helm_client tracking false "./helm" (ok "kubeconfig")

abbrev chart_options : UpgradeOptions
chart_options = record no_upgrade_options {
  chart = "vcluster";
  repo = "https://charts.loft.sh";
  values = "sync: {}";
}

helm_client-IsSteady_example :
    IsSteady {W = List String} (λ fs. fs) (failing_client.install "a" "b" chart_options)
    × IsSteady {W = List String} (λ fs. fs) (failing_client.upgrade "a" "b" chart_options)
    × IsSteady {W = List String} (λ fs. fs) (failing_client.rollback "a" "b" "2")
    × IsSteady {W = List String} (λ fs. fs) (failing_client.delete "a" "b")
    × IsSteady {W = List String} (λ fs. fs) (failing_client.exists "a" "b")
helm_client-IsSteady_example =
    helm_client-IsSteady tracking (λ fs. fs) tracking-Tracks false "./helm" (ok "kubeconfig") "a"
      "b" "2" chart_options
