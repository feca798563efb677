-- ===== src/Tests/OfLive.antt =====
-- The theorem on a run that is served.
use cluster_api_provider_vcl.Base.{
  ℕ, ◌≡◌, refl, ap, String, true, false, none, List, [], ◌∷◌, eq_iff, ◌==◌,
}
use cluster_api_provider_vcl.Base.Tests.{is_some, if◌then◌else◌}
use cluster_api_provider_vcl.Base.Lists.{All, exists}
use cluster_api_provider_vcl.Api.Condition.{
  ConditionType, ready_condition, kubeconfig_ready_condition, control_plane_initialized_condition,
  helm_chart_deployed_condition,
}
use cluster_api_provider_vcl.Api.VCluster.{VCluster, get_conditions}
use cluster_api_provider_vcl.Kube.{NamespacedName}
use cluster_api_provider_vcl.Conditions.Patch.{
  PatchOperation, ApplyOptions, new_patch, apply, apply_apply_options, overwrites,
  is_owned_condition, is_zero, with_force_overwrite, with_owned_conditions as with_owned,
}
use cluster_api_provider_vcl.Conditions.Patch.State.{target_type}
use cluster_api_provider_vcl.Conditions.Patch.Merging.{owned_never_conflict}
use cluster_api_provider_vcl.Conditions.Patch.Owned.{new_patch-Accepts}
use cluster_api_provider_vcl.Patching.StatusConditions.{
  Server, apply_options, patched, send, reply_latest, round, next_round, backoff,
  patch_status_conditions, backoff_steps,
}
use cluster_api_provider_vcl.Patching.Helper.{
  Library, Helper, new_helper, patch_helper, patch, observe, calculate_changes, calculate_patch,
  patch_all, patch_fields, patch_status_fields, failures, should_patch,
}
use cluster_api_provider_vcl.Patching.Fields.{has_status, unstructured_copy}
use cluster_api_provider_vcl.Patching.Options.{
  apply_to_helper, with_status_observed_generation, with_owned_conditions,
}
use cluster_api_provider_vcl.Controllers.State.{State, edit, on_world}
use cluster_api_provider_vcl.Controllers.Writes.{HasDistinct}
use cluster_api_provider_vcl.Controllers.Live.Revision.{is_owned, IsRevision}
use cluster_api_provider_vcl.Runtime.{
  ok, ◌>>=◌, continue, gets, lift, pure, raise, attempt, wrap_error,
}
use cluster_api_provider_vcl.Kube.Config.{KubeConfig}
use cluster_api_provider_vcl.KubeConfigHelper.{new_vcluster_client_config, vcluster_config}
use cluster_api_provider_vcl.Controllers.Host.{poll_service}
use cluster_api_provider_vcl.Controllers.Kubeconfig.{key_of, entry, first_credentials}
use cluster_api_provider_vcl.Controllers.Reconcile.{reconcile_object, has_cluster_owner}
use cluster_api_provider_vcl.Controllers.Live.Serves.{Serves}
use cluster_api_provider_vcl.Controllers.Live.Whole.{Helps, sent_options}
use cluster_api_provider_vcl.Controllers.Live.Ends.{IsUp, reconcile_object-IsUp}
use cluster_api_provider_vcl.Tests.Fixtures.{
  test_world, test_helm, test_codec, start, two_conditions, vcluster_with, kube_config_of,
}
use cluster_api_provider_vcl.Tests.OfConditions.{two_conditions-Distinct}
use cluster_api_provider_vcl.Tests.OfLifecycle.{plain-Rereads}
use cluster_api_provider_vcl.Patching.Kept.{patch_helper-Patches}
use cluster_api_provider_vcl.Tests.OfProgram.{request, plain_server, plain_library}

abbrev written : KubeConfig → String
written c = "out"

served : Serves test_world test_helm "a" "b"
unfolding entry first_credentials poll_service new_vcluster_client_config vcluster_config
served = record {
  upgrade = λ options w. refl;
  secret = record {
    name = "vc-a";
    namespace = "b";
    labels = [];
    data_entries = ("config", "https://localhost:8443") ∷ [];
  };
  get_secret = λ w. refl;
  text = "https://localhost:8443";
  config_entry = refl;
  kube_config = kube_config_of "https://localhost:8443";
  load_config = refl;
  credentials = record { client_cert = "cert"; client_key = "key" };
  has_credentials = refl;
  one_cluster = refl;
  rest_config = _;
  client_config = refl;
  new_for_config = λ w. refl;
  get_service_account = λ w. refl;
  transport_for = refl;
  read_body = λ c url w. (ok "ok", w);
  http_get = λ c url w. refl;
  healthy = λ c url w. refl;
  service = record { type = "ClusterIP"; ingress = [] };
  get_service = λ w. refl;
  host = "";
  has_host = refl;
  last_rounds = 5;
  poll_rounds = refl;
  out = written;
  write_config = λ c. refl;
  create_or_patch_secret = λ s w. refl;
}

-- The patch helper of the program, with an API server that accepts every patch.
abbrev server : Server ℕ
server = plain_server (λ n. n)

abbrev library : Library ℕ ℕ
library = plain_library (λ n. n)

abbrev made : VCluster → Helper ℕ
made v = record { gvk = v.kind; before_object = v; before = ("status", 1) ∷ [] }

made-new : (v : VCluster) → new_helper server library v ≡ ok (made v)
unfolding new_helper
made-new v = refl

abbrev owning : ApplyOptions
owning = record {
  owned_conditions =
      ready_condition ∷ kubeconfig_ready_condition ∷ control_plane_initialized_condition
      ∷ helm_chart_deployed_condition ∷ [];
  force_overwrite = false;
}

owning-overwrites : (t : ConditionType) → is_owned t ≡ true → overwrites owning t ≡ true
unfolding overwrites is_owned_condition is_owned
owning-overwrites t h = h

owning-All :
    (ops : List PatchOperation)
    → All (λ op. is_owned (target_type op) ≡ true) ops
    → All (λ op. overwrites owning (target_type op) ≡ true) ops
owning-All [] h = tt
owning-All (op ∷ ops) h = (owning-overwrites (target_type op) h.0, owning-All ops h.1)

applied :
    (now : ℕ) (ops : List PatchOperation)
    → All (λ op. is_owned (target_type op) ≡ true) ops
    → (apply now two_conditions ops (apply_options false owning.owned_conditions)).error ≡ none
unfolding apply apply_apply_options with_force_overwrite with_owned
applied now [] h = refl
applied now (op ∷ ops) h =
    owned_never_conflict now owning two_conditions (op ∷ ops) (owning-All (op ∷ ops) h)

operations-sent :
    (key : NamespacedName) (n : ℕ) (ops : List PatchOperation)
    → All (λ op. is_owned (target_type op) ≡ true) ops
    → (if is_zero ops
        then (ok tt, n)
        else backoff server false owning.owned_conditions key backoff_steps ops n)
      ≡ (ok tt, n)
unfolding backoff round reply_latest send patched next_round get_conditions is_zero
operations-sent key n [] h = refl
operations-sent key n (op ∷ ops) h =
    let types = owning.owned_conditions in
    let o = apply n two_conditions (op ∷ ops) (apply_options false types) in
    ap
      (λ e.
        let (r, w) =
          send server false types key e o.latest o.patch (vcluster_with [] two_conditions) n in
        next_round server false types key (backoff server false types key 4) r w)
      (applied n (op ∷ ops) h)

conditions-sent :
    (v u : VCluster) (key : NamespacedName) (n : ℕ)
    → HasDistinct v
    → IsRevision v u
    → patch_status_conditions server false owning.owned_conditions key v u n ≡ (ok tt, n)
unfolding patch_status_conditions get_conditions
conditions-sent v u key n d r =
    operations-sent key n (new_patch v.status.conditions u.status.conditions)
      (new_patch-Accepts is_owned v.status.conditions u.status.conditions d r.distinct r.unowned)

patch-sent :
    (v : VCluster) (s : State ℕ)
    → HasDistinct v
    → IsRevision v s.vcluster
    → (patch server library (made v) sent_options s).0 ≡ ok tt
unfolding patch observe calculate_changes patch_all patch_fields patch_status_fields failures
    should_patch has_status unstructured_copy calculate_patch apply_to_helper
    with_status_observed_generation with_owned_conditions ◌>>=◌ continue gets lift pure raise
    attempt edit on_world wrap_error exists
patch-sent v s d r =
    let e : (s.vcluster.kind == v.kind) ≡ true = (eq_iff s.vcluster.kind v.kind).1 r.same_kind in
    let key = key_of s.vcluster in rw (e, conditions-sent v s.vcluster key s.world d r) refl

helped : Helps (patch_helper server library)
unfolding patch_helper
helped = record {
  made = made;
  new_helper = made-new;
  sent = patch-sent;
  patches = patch_helper-Patches server library plain-Rereads;
}

owned : has_cluster_owner start.vcluster.metadata.owner_references ≡ true
unfolding has_cluster_owner
owned = refl

reconcile_object-IsUp_example : IsUp (
    reconcile_object test_world test_helm test_codec
      (patch_helper server library)
      "https://charts"
      "vcluster"
      true
      request
      start)
unfolding is_some
reconcile_object-IsUp_example =
    reconcile_object-IsUp test_world test_helm test_codec (patch_helper server library) helped "a"
      "b" start.vcluster.status served "https://charts" "vcluster" true request start
      (λ v w e. refl)
      (record {
        is_named = record { named = refl; spaced = refl };
        deployable = record { release = _; has_release = refl; has_version = refl };
        distinct = two_conditions-Distinct;
        status_is = refl;
      })
      refl (rw owned refl)
