-- ===== src/Patching/Helper.antt =====
-- pkg/util/patch/patch.go: `NewHelper` and `Patch`, which is the patch helper of the reconciler.
use cluster_api_provider_vcl.Base.{ℕ, String, Bool, true, not, ◌&&◌, List, [], ◌∷◌, ◌==◌, map}
use cluster_api_provider_vcl.Base.Tests.{if◌then◌else◌}
use cluster_api_provider_vcl.Base.Lists.{exists}
use cluster_api_provider_vcl.Api.VCluster.{VCluster}
use cluster_api_provider_vcl.Runtime.{
  Error, Result, ok, err, Exec, errorf, lift, gets, pure, raise, attempt, ◌>>=◌, ◌>>◌, and_then,
  wrap_error,
}
use cluster_api_provider_vcl.Kube.{NamespacedName}
use cluster_api_provider_vcl.Controllers.State.{State, on_world, edit}
use cluster_api_provider_vcl.Patching.Options.{
  HelperOptions, PatchOption, PatchHelper, no_helper_options, apply_to_helper,
}
use cluster_api_provider_vcl.Patching.Fields.{
  PatchType, spec_patch, status_patch, Fields, has_status, unstructured_copy,
}
use cluster_api_provider_vcl.Patching.StatusConditions.{Server, patch_status_conditions}

-- What the libraries do for the helper: the kind of an object, its conversion to fields and back,
-- the merge patch between two objects as data and as a map, and the patches themselves.
pub record Library (W J : Type 0) : Type 0 where
  pub gvk_for_object : VCluster → Result String
  pub to_unstructured : VCluster → Result (Fields J)
  pub from_unstructured : Fields J → VCluster → Result VCluster
  -- `SetNestedField` of status.observedGeneration, and `RemoveNestedField` of status.conditions
  pub set_observed_generation : ℕ → Fields J → Result (Fields J)
  pub remove_conditions : J → J
  pub merge_data : (before after : VCluster) → Result String
  pub unmarshal_diff : String → Result (Fields J)
  pub patch_object : (before after : VCluster) → Exec W (Unit {0})
  pub patch_status : (before after : VCluster) → Exec W (Unit {0})
  pub new_aggregate : List Error → Error

pub record Helper (J : Type 0) : Type 0 where
  pub gvk : String
  pub before_object : VCluster
  pub before : Fields J

-- The errors that are not nil.
unfoldable pub failures : List (Result (Unit {0})) → List Error
failures [] = []
failures (ok _ ∷ rs) = failures rs
failures (err e ∷ rs) = e ∷ failures rs

module _ {W J : Type 0} (server : Server W) (library : Library W J) where
  -- A VCluster has conditions to set.
  unfoldable pub new_helper : VCluster → Result (Helper J)
  new_helper v = elim (library.gvk_for_object v) [
    | err e ↦ err e
    | ok gvk ↦ elim (library.to_unstructured v) [
      | err e ↦ err e
      | ok fields ↦ ok (record { gvk = gvk; before_object = v; before = fields })
    ]
  ]

  unfoldable pub calculate_patch :
      Helper J → Fields J → VCluster → PatchType → Result (VCluster × VCluster)
  unfolding unstructured_copy
  calculate_patch h after v focus =
      let copy : Fields J → Fields J = unstructured_copy library.remove_conditions focus true in
      elim (library.from_unstructured (copy h.before) h.before_object) [
        | err e ↦ err e
        | ok before_object ↦ elim (library.from_unstructured (copy after) v) [
          | err e ↦ err e
          | ok after_object ↦ ok (before_object, after_object)
        ]
      ]

  -- The top-level fields that the merge patch from the object before is about.
  unfoldable pub calculate_changes : Helper J → VCluster → Result (List String)
  unfolding wrap_error
  calculate_changes h after =
      and_then
        (wrap_error "failed to calculate patch data" (library.merge_data h.before_object after))
        λ diff.
          and_then
            (wrap_error "failed to unmarshal patch data into a map" (library.unmarshal_diff diff))
            λ patch_diff. ok (map (λ e. e.0) patch_diff)

  unfoldable pub should_patch : String → List String → Bool
  unfolding exists
  should_patch key changes = exists (λ c. c == key) changes

  unfoldable pub patch_fields : Helper J → Fields J → List String → VCluster → Exec W (Unit {0})
  unfolding should_patch calculate_patch
  patch_fields h after changes v =
      if not (should_patch "metadata" changes) && not (should_patch "spec" changes)
      then pure tt
      else do
        objects ← lift (calculate_patch h after v spec_patch)
        library.patch_object objects.0 objects.1

  unfoldable pub patch_status_fields :
      Helper J → Fields J → List String → VCluster → Exec W (Unit {0})
  unfolding should_patch calculate_patch
  patch_status_fields h after changes v =
      if not (should_patch "status" changes) then pure tt else do
        objects ← lift (calculate_patch h after v status_patch)
        library.patch_status objects.0 objects.1

  abbrev key_of_object : VCluster → NamespacedName
  key_of_object v = record { namespace = v.metadata.namespace; name = v.metadata.name }

  -- The three patches, each of which is made whatever became of those before it.
  unfoldable pub patch_all :
      Helper J → HelperOptions → Fields J → List String → VCluster → Exec W (Unit {0})
  unfolding patch_status_conditions patch_fields patch_status_fields failures
  patch_all h options after changes v = do
    conditions ← attempt (
        patch_status_conditions server options.force_overwrite_conditions options.owned_conditions
          (key_of_object v) h.before_object v)
    fields ← attempt (patch_fields h after changes v)
    status ← attempt (patch_status_fields h after changes v)
    elim (failures (conditions ∷ fields ∷ status ∷ [])) [
      | [] ↦ pure tt
      | e ∷ es ↦ raise (library.new_aggregate (e ∷ es))
    ]

  -- The observed generation is written into the fields, and with them into the object.
  unfoldable pub observe : HelperOptions → Fields J → Exec (State W) (Fields J)
  unfolding has_status
  observe options after =
      if has_status after && options.include_status_observed_generation
      then (do
        v ← gets (λ s. s.vcluster)
        observed ← lift (library.set_observed_generation v.metadata.generation after)
        u ← lift (library.from_unstructured observed v)
        edit (λ _. u)
        pure observed)
      else pure after

  unfoldable pub patch : Helper J → List PatchOption → Exec (State W) (Unit {0})
  unfolding apply_to_helper patch_all observe calculate_changes
  patch h opts = do
    v ← gets (λ s. s.vcluster)
    gvk ← lift (library.gvk_for_object v)
    (if not (gvk == h.gvk) then raise (errorf "unmatched GroupVersionKind") else pure tt)
    let options = apply_to_helper opts no_helper_options
    fields ← lift (library.to_unstructured v)
    after ← observe options fields
    u ← gets (λ s. s.vcluster)
    changes ← lift (calculate_changes h u)
    on_world (patch_all h options after changes u)

  -- The helper that the reconciler is given.
  unfoldable pub patch_helper : PatchHelper W (Helper J)
  unfolding new_helper patch
  patch_helper = record { new_helper = new_helper; patch = patch }
