-- ===== src/Tests/OfProgram.antt =====
-- The theorems on a run of `Reconcile` with the helm client and the patch helper of the program.
use cluster_api_provider_vcl.Base.{ℕ, suc, ◌≡◌, refl, true, false, none, String, List, [], ◌∷◌}
use cluster_api_provider_vcl.Runtime.{ok, errorf}
use cluster_api_provider_vcl.Kube.{NamespacedName, HelmClient}
use cluster_api_provider_vcl.Helm.Client.{helm_client}
use cluster_api_provider_vcl.Patching.StatusConditions.{Server}
use cluster_api_provider_vcl.Patching.Helper.{Library, patch_helper}
use cluster_api_provider_vcl.Patching.Steady.{ServerKeeps}
use cluster_api_provider_vcl.Api.VCluster.{VCluster}
use cluster_api_provider_vcl.Controllers.Reconcile.{reconcile}
use cluster_api_provider_vcl.Controllers.Steady.{WorldKeeps}
use cluster_api_provider_vcl.Controllers.Steady.Program.{reconcile-files, reconcile-configured}
use cluster_api_provider_vcl.Tests.Fixtures.{
  world_with, vcluster_with, two_conditions, test_codec, test_helm,
}
use cluster_api_provider_vcl.Tests.OfHelm.{tracking, tracking-Tracks}
use cluster_api_provider_vcl.Tests.OfConfigured.{Disk, content, two_files, two_files-Files}

-- A server and a library whose calls leave the world as it is. The status is always sent.
module _ {W : Type 0} (time_of : W → ℕ) where
  abbrev pub plain_server : Server W
  plain_server = record {
    now = λ w. (time_of w, w);
    get = λ key w. (ok (vcluster_with [] two_conditions), w);
    patch_status_locked = λ before after w. (ok tt, w);
    timed_out = errorf "timed out waiting for the condition";
    message = λ e. "conflict";
  }

  abbrev pub plain_library : Library W ℕ
  plain_library = record {
    gvk_for_object = λ v. ok v.kind;
    to_unstructured = λ v. ok (("status", 1) ∷ []);
    from_unstructured = λ fs v. ok v;
    set_observed_generation = λ n fs. ok fs;
    remove_conditions = λ j. j;
    merge_data = λ v u. ok "{\"status\":{}}";
    unmarshal_diff = λ d. ok (("status", 0) ∷ []);
    patch_object = λ v u w. (ok tt, w);
    patch_status = λ v u w. (ok tt, w);
    new_aggregate = λ es. errorf "aggregate";
  }

  plain-WorldKeeps : {C : Type 0} (count : W → C) → WorldKeeps (world_with time_of) count
  plain-WorldKeeps count = record {
    now = λ w. refl;
    get_vcluster = λ key w. refl;
    get_namespace = λ name w. refl;
    get_service = λ key w. refl;
    get_secret = λ key w. refl;
    list_secrets = λ labels namespace w. refl;
    delete_volume_claim = λ key w. refl;
    update = λ v w. refl;
    create_or_patch_secret = λ s w. refl;
    stat = λ path w. refl;
    new_for_config = λ r w. refl;
    get_service_account = λ r w. refl;
    http_get = λ c url w. (refl, λ w. refl);
  }

  plain-ServerKeeps : {C : Type 0} (count : W → C) → ServerKeeps plain_server plain_library count
  plain-ServerKeeps count = record {
    now = λ w. refl;
    get = λ key w. refl;
    patch_status_locked = λ before after w. refl;
    patch_object = λ before after w. refl;
    patch_status = λ before after w. refl;
  }

abbrev pub request : NamespacedName
request = record { namespace = "b"; name = "a" }

abbrev three_files : List String
three_files = "/tmp/a" ∷ "/tmp/b" ∷ "/tmp/1" ∷ []

-- Three files are there before, and the binary fails.
reconcile-files_example :
    (reconcile
      (world_with (λ (fs : List String). 3))
      (helm_client tracking false "./helm" (ok "kubeconfig"))
      test_codec
      (patch_helper
        (plain_server (λ (fs : List String). 3))
        (plain_library (λ (fs : List String). 3)))
      "https://charts.loft.sh"
      "vcluster"
      true
      request
      three_files).1
    ≡ three_files
reconcile-files_example =
    reconcile-files (world_with (λ (fs : List String). 3)) test_codec
      (plain_server (λ (fs : List String). 3)) (plain_library (λ (fs : List String). 3)) tracking
      false "./helm" (ok "kubeconfig") "https://charts.loft.sh" "vcluster" true request (λ fs. fs)
      (plain-WorldKeeps (λ fs. 3) (λ fs. fs)) (plain-ServerKeeps (λ fs. 3) (λ fs. fs))
      tracking-Tracks three_files

abbrev empty_disk : Disk
empty_disk = record { first = none; second = none; misled = 0 }

reconcile-configured_example :
    (reconcile
      (world_with (λ (d : Disk). 5))
      (helm_client two_files false "./helm" (ok "kubeconfig"))
      test_codec
      (patch_helper (plain_server (λ (d : Disk). 5)) (plain_library (λ (d : Disk). 5)))
      "https://charts.loft.sh"
      "vcluster"
      true
      request
      empty_disk).1.misled
    ≡ 0
reconcile-configured_example =
    reconcile-configured (world_with (λ (d : Disk). 5)) test_codec (plain_server (λ (d : Disk). 5))
      (plain_library (λ (d : Disk). 5)) two_files false "./helm" (ok "kubeconfig")
      "https://charts.loft.sh" "vcluster" true request content (λ d. d.misled)
      (plain-WorldKeeps (λ d. 5) (λ d. d.misled)) (plain-ServerKeeps (λ d. 5) (λ d. d.misled))
      two_files-Files empty_disk

abbrev counting_helm : HelmClient ℕ
counting_helm = record test_helm { upgrade = λ name namespace options n. (ok tt, suc n) }
