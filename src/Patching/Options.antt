-- ===== src/Patching/Options.antt =====
-- pkg/util/patch/options.go, and the calls of the patch helper that the reconciler makes.
use cluster_api_provider_vcl.Base.{Bool, true, false, List, [], ◌∷◌}
use cluster_api_provider_vcl.Api.Condition.{ConditionType}
use cluster_api_provider_vcl.Api.VCluster.{VCluster}
use cluster_api_provider_vcl.Runtime.{Result, Exec}
use cluster_api_provider_vcl.Controllers.State.{State}

pub record HelperOptions : Type 0 where
  pub include_status_observed_generation : Bool
  pub force_overwrite_conditions : Bool
  pub owned_conditions : List ConditionType

abbrev pub PatchOption : Type 0
PatchOption = HelperOptions → HelperOptions

unfoldable pub with_force_overwrite_conditions : PatchOption
with_force_overwrite_conditions o = record o { force_overwrite_conditions = true }

unfoldable pub with_status_observed_generation : PatchOption
with_status_observed_generation o = record o { include_status_observed_generation = true }

unfoldable pub with_owned_conditions : List ConditionType → PatchOption
with_owned_conditions ts o = record o { owned_conditions = ts }

-- The loop of `Patch` over its options, which starts at the zero value.
unfoldable pub apply_to_helper : List PatchOption → HelperOptions → HelperOptions
apply_to_helper [] o = o
apply_to_helper (f ∷ fs) o = apply_to_helper fs (f o)

abbrev pub no_helper_options : HelperOptions
no_helper_options = record {
  include_status_observed_generation = false;
  force_overwrite_conditions = false;
  owned_conditions = [];
}

-- The calls that the reconciler makes of a patch helper: one is made of an object, and `Patch`
-- acts on the world and may write the object.
pub record PatchHelper (W H : Type 0) : Type 0 where
  pub new_helper : VCluster → Result H
  pub patch : H → List PatchOption → Exec (State W) (Unit {0})
