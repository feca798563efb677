-- ===== src/Tests/OfPatches.antt =====
-- The theorems on the patches of conditions, on concrete ones.
use cluster_api_provider_vcl.Base.{◌≡◌, refl, false, none, [], ◌∷◌, arith}
use cluster_api_provider_vcl.Api.Condition.{Conditions, ConditionType}
use cluster_api_provider_vcl.Conditions.Getter.{find}
use cluster_api_provider_vcl.Conditions.Distinct.{Distinct}
use cluster_api_provider_vcl.Conditions.Patch.{
  ApplyOptions, apply_operation, apply_loop, new_patch, overwrites, is_owned_condition, changes,
  removals, deep_equal,
}
use cluster_api_provider_vcl.Conditions.Setter.{has_same_state}
use cluster_api_provider_vcl.Conditions.Patch.State.{state_at}
use cluster_api_provider_vcl.Conditions.Patch.Merging.{merged, three_way_merge}
use cluster_api_provider_vcl.Conditions.Patch.RoundTrip.{apply-new_patch}
use cluster_api_provider_vcl.Conditions.Patch.Owned.{apply_loop-overwrites}
use cluster_api_provider_vcl.Base.Lists.{exists}
use cluster_api_provider_vcl.Tests.Fixtures.{
  at_time, chart_failed, kubeconfig_true, control_plane_true, chart_true, two_conditions,
}
use cluster_api_provider_vcl.Tests.OfConditions.{two_conditions-Distinct}

abbrev no_apply_options : ApplyOptions
no_apply_options = record { owned_conditions = []; force_overwrite = false }

-- What the controller makes of the two conditions: one is gone, and one is new.
abbrev pub after : Conditions
after = chart_true ∷ at_time 2000000000 control_plane_true ∷ []

pub after-Distinct : Distinct after
unfolding find
after-Distinct = (refl, (refl, tt))

-- What another controller has made of them meanwhile.
abbrev latest : Conditions
latest = kubeconfig_true ∷ []

latest-Distinct : Distinct latest
unfolding find
latest-Distinct = (refl, tt)

-- The controller changes the chart alone.
abbrev changed : Conditions
changed = chart_true ∷ two_conditions

changed-Distinct : Distinct changed
unfolding find
changed-Distinct = (refl, two_conditions-Distinct)

no_conflict :
    (apply_loop 9000000000 no_apply_options latest (new_patch two_conditions changed)).error ≡ none
unfolding apply_loop apply_operation new_patch changes removals find overwrites is_owned_condition
    deep_equal has_same_state
no_conflict = refl

three_way_merge_example :
    state_at "HelmChartDeployed"
      (apply_loop 9000000000 no_apply_options latest (new_patch two_conditions changed)).latest
    ≡ merged
        (find "HelmChartDeployed" two_conditions)
        (find "HelmChartDeployed" changed)
        (state_at "HelmChartDeployed" latest)
three_way_merge_example =
    three_way_merge 9000000000 no_apply_options two_conditions changed latest "HelmChartDeployed"
      two_conditions-Distinct changed-Distinct latest-Distinct no_conflict

apply-new_patch_example :
    ((apply_loop 9000000000 no_apply_options two_conditions (new_patch two_conditions after)).error
      ≡ none)
    × ((t : ConditionType)
        → state_at t
            (apply_loop 9000000000 no_apply_options two_conditions
              (new_patch two_conditions after)).latest
          ≡ state_at t after)
apply-new_patch_example =
    apply-new_patch 9000000000 no_apply_options two_conditions after two_conditions-Distinct
      after-Distinct

abbrev owning_chart : ApplyOptions
owning_chart = record { owned_conditions = "HelmChartDeployed" ∷ []; force_overwrite = false }

-- Another controller has seen the chart fail.
abbrev conflicting : Conditions
conflicting = chart_failed ∷ kubeconfig_true ∷ []

conflicting-Distinct : Distinct conflicting
unfolding find
conflicting-Distinct = (refl, (refl, tt))

chart_alone :
    (t : ConditionType) → overwrites owning_chart t ≡ false → find t changed ≡ find t two_conditions
unfolding overwrites is_owned_condition find exists
chart_alone t h = ground arith

apply_loop-overwrites_example :
    ((apply_loop 9000000000 owning_chart conflicting (new_patch two_conditions changed)).error
      ≡ none)
    × ((t : ConditionType)
        → state_at t
            (apply_loop 9000000000 owning_chart conflicting
              (new_patch two_conditions changed)).latest
          ≡ merged (find t two_conditions) (find t changed) (state_at t conflicting))
apply_loop-overwrites_example =
    apply_loop-overwrites 9000000000 owning_chart two_conditions changed conflicting
      two_conditions-Distinct changed-Distinct conflicting-Distinct chart_alone
