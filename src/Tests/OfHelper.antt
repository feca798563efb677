-- ===== src/Tests/OfHelper.antt =====
-- The theorems on the patch helper as a whole, over a library that keeps two fields of an object.
use cluster_api_provider_vcl.Base.{suc, ℕ, ◌≡◌, refl, [], ◌∷◌, ◌==◌}
use cluster_api_provider_vcl.Base.Tests.{if◌then◌else◌, nat_eq}
use cluster_api_provider_vcl.Api.VCluster.{VCluster}
use cluster_api_provider_vcl.Runtime.{ok, errorf}
use cluster_api_provider_vcl.Patching.Fields.{Fields}
use cluster_api_provider_vcl.Controllers.State.{State}
use cluster_api_provider_vcl.Patching.Options.{with_status_observed_generation}
use cluster_api_provider_vcl.Patching.Helper.{Library, Helper, new_helper, patch}
use cluster_api_provider_vcl.Patching.Unchanged.{IsSettled, patch-new_helper}
use cluster_api_provider_vcl.Tests.Fixtures.{start}
use cluster_api_provider_vcl.Tests.OfConditions.{two_conditions-Distinct}
use cluster_api_provider_vcl.Tests.OfPatching.{accepting}

abbrev write_status : ℕ → Fields ℕ → Fields ℕ
write_status n [] = []
write_status n ((k, j) ∷ fs) = (k, if k == "status" then n else j) ∷ write_status n fs

abbrev read_status : Fields ℕ → VCluster → VCluster
read_status [] v = v
read_status ((k, j) ∷ fs) v =
    if k == "status"
    then record v { status = record v.status { observed_generation = j } }
    else read_status fs v

-- An object has its generation and its observed generation as fields.
abbrev test_library : Library ℕ ℕ
test_library = record {
  gvk_for_object = λ v. ok v.kind;
  to_unstructured =
      λ v. ok (("metadata", v.metadata.generation) ∷ ("status", v.status.observed_generation) ∷ []);
  from_unstructured = λ fs v. ok (read_status fs v);
  set_observed_generation = λ n fs. ok (write_status n fs);
  remove_conditions = λ j. j;
  merge_data = λ v u. ok (
      if nat_eq v.status.observed_generation u.status.observed_generation
      then "{}"
      else "{\"status\":{}}");
  unmarshal_diff = λ d. ok (if d == "{}" then [] else ("status", 0) ∷ []);
  patch_object = λ v u w. (ok tt, suc w);
  patch_status = λ v u w. (ok tt, suc w);
  new_aggregate = λ es. errorf "aggregate";
}

abbrev quiet : State ℕ
quiet = record start {
  vcluster = record start.vcluster {
    status = record start.vcluster.status {
      observed_generation = start.vcluster.metadata.generation;
    };
  };
}

abbrev quiet_helper : Helper ℕ
quiet_helper = record {
  gvk = quiet.vcluster.kind;
  before_object = quiet.vcluster;
  before =
      ("metadata", quiet.vcluster.metadata.generation)
      ∷ ("status", quiet.vcluster.metadata.generation)
      ∷ [];
}

quiet-IsSettled : IsSettled accepting test_library quiet.vcluster
quiet-IsSettled = record {
  fields = quiet_helper.before;
  converts = refl;
  observes = refl;
  restores = refl;
  diff = "{}";
  merges = refl;
  empty = refl;
}

quiet_helper-made : new_helper accepting test_library quiet.vcluster ≡ ok quiet_helper
unfolding new_helper
quiet_helper-made = refl

patch-new_helper_example :
    patch accepting test_library quiet_helper (with_status_observed_generation ∷ []) quiet
    ≡ (ok tt, quiet)
patch-new_helper_example =
    patch-new_helper accepting test_library quiet quiet_helper two_conditions-Distinct
      quiet-IsSettled quiet_helper-made (with_status_observed_generation ∷ [])
