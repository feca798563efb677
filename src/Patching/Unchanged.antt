-- ===== src/Patching/Unchanged.antt =====
-- What `Patch` sends for an object that is as it was when its helper was made.
use mathlib.Core.Path.{subst}
use cluster_api_provider_vcl.Base.{
  ◌≡◌, ap, ◌∷◌, ◌∙◌, refl, sym, arith, eq_refl, String, Bool, ◌&&◌, List, [], inl, inr,
}
use cluster_api_provider_vcl.Base.Tests.{Bool-cases}
use cluster_api_provider_vcl.Base.Lists.{exists}
use cluster_api_provider_vcl.Api.Condition.{ConditionType}
use cluster_api_provider_vcl.Kube.{NamespacedName}
use cluster_api_provider_vcl.Api.VCluster.{VCluster, get_conditions}
use cluster_api_provider_vcl.Runtime.{
  Exec, Result, Result-cases, ok, err, lift, gets, pure, raise, attempt, continue, ◌>>=◌,
  wrap_error,
}
use cluster_api_provider_vcl.Conditions.Distinct.{Distinct}
use cluster_api_provider_vcl.Conditions.Patch.{is_zero}
use cluster_api_provider_vcl.Conditions.Patch.RoundTrip.{new_patch-same}
use cluster_api_provider_vcl.Controllers.State.{State, edit, on_world}
use cluster_api_provider_vcl.Patching.Options.{
  PatchOption, HelperOptions, apply_to_helper, no_helper_options,
}
use cluster_api_provider_vcl.Patching.Fields.{Fields, has_status}
use cluster_api_provider_vcl.Patching.StatusConditions.{Server, patch_status_conditions}
use cluster_api_provider_vcl.Patching.Helper.{
  Library, Helper, new_helper, patch_fields, patch_status_fields, patch_all, observe, patch,
  should_patch, calculate_changes, failures,
}

module _ {W J : Type 0} (server : Server W) (library : Library W J) where
  -- The object converts to fields and back, its observed generation is its generation, and the
  -- merge patch from it to itself is the empty map.
  pub record IsSettled (v : VCluster) : Type 0 where
    pub fields : Fields J
    pub converts : library.to_unstructured v ≡ ok fields
    pub observes : library.set_observed_generation v.metadata.generation fields ≡ ok fields
    pub restores : library.from_unstructured fields v ≡ ok v
    pub diff : String
    pub merges : library.merge_data v v ≡ ok diff
    pub empty : library.unmarshal_diff diff ≡ ok []

  pub record IsHelperOf (v : VCluster) (h : Helper J) : Type 0 where
    pub kind : library.gvk_for_object v ≡ ok h.gvk
    pub object : h.before_object ≡ v

  new_helper-IsHelperOf :
      (v : VCluster) (h : Helper J)
      → IsSettled v
      → new_helper server library v ≡ ok h
      → IsHelperOf v h
  unfolding new_helper
  new_helper-IsHelperOf v h d p = elim (Result-cases (library.gvk_for_object v)) [
    | inl (e, q) ↦
        let r : new_helper server library v ≡ err e = rw (new_helper, q) refl in
        let z = sym r ∙ p in ground arith
    | inr (gvk, q) ↦
        let r : new_helper server library v
            ≡ ok (record { gvk = gvk; before_object = v; before = d.fields }) =
          rw (new_helper, q, d.converts) refl in
        let z = sym r ∙ p in record { kind = ground arith; object = ground arith }
  ]

  -- Where the object is settled, neither the options nor the world matter.
  observe-same :
      (o : HelperOptions) (s : State W) (d : IsSettled s.vcluster)
      → observe server library o d.fields s ≡ (ok d.fields, s)
  unfolding observe ◌>>=◌ continue lift gets pure edit has_status
  observe-same o s d =
      elim (Bool-cases (has_status d.fields && o.include_status_observed_generation)) [
        | inl p ↦ rw (p, d.observes, d.restores) refl
        | inr p ↦ rw p refl
      ]

  calculate_changes-same :
      (v : VCluster) (h : Helper J)
      → IsSettled v
      → IsHelperOf v h
      → calculate_changes server library h v ≡ ok []
  unfolding calculate_changes wrap_error
  calculate_changes-same v h d k = rw (k.object, d.merges, d.empty) refl

  conditions-same :
      (before v : VCluster)
      → before ≡ v
      → Distinct v.status.conditions
      → (force : Bool) (owned : List ConditionType) (key : NamespacedName) (w : W)
      → patch_status_conditions server force owned key before v w ≡ (ok tt, w)
  unfolding patch_status_conditions is_zero get_conditions
  conditions-same before v e distinct force owned key w =
      subst (λ x. patch_status_conditions server force owned key x v w ≡ (ok tt, w)) (sym e)
        (rw (new_patch-same v.status.conditions distinct) refl)

  -- Without a changed field the conditions alone are patched.
  patch_all-same :
      (v : VCluster) (h : Helper J)
      → Distinct v.status.conditions
      → IsHelperOf v h
      → (o : HelperOptions) (after : Fields J) (w : W)
      → patch_all server library h o after [] v w ≡ (ok tt, w)
  unfolding patch_all patch_fields patch_status_fields failures should_patch ◌>>=◌ continue pure
      attempt exists
  patch_all-same v h distinct k o after w =
      ap
        (λ (p : Result (Unit {0}) × W).
          (elim (failures (p.0 ∷ ok tt ∷ ok tt ∷ [])) as (λ _. Exec W (Unit {0})) [
            | [] ↦ pure tt
            | e ∷ es ↦ raise (library.new_aggregate (e ∷ es))
          ])
            p.1)
        (conditions-same h.before_object v k.object distinct o.force_overwrite_conditions
          o.owned_conditions (record { namespace = v.metadata.namespace; name = v.metadata.name })
          w)

  -- `Patch` of a settled object that has at most one condition of each type and is as it was when
  -- its helper was made calls the server for nothing, whatever the options, and leaves the object
  -- as it is.
  pub patch-new_helper :
      (s : State W) (h : Helper J)
      → Distinct s.vcluster.status.conditions
      → IsSettled s.vcluster
      → new_helper server library s.vcluster ≡ ok h
      → (opts : List PatchOption) → patch server library h opts s ≡ (ok tt, s)
  unfolding patch ◌>>=◌ continue pure lift gets on_world
  patch-new_helper s h distinct d p opts =
      let k = new_helper-IsHelperOf s.vcluster h d p in
      let o = apply_to_helper opts no_helper_options in
      rw
        (
          k.kind,
          eq_refl h.gvk,
          d.converts,
          observe-same o s d,
          calculate_changes-same s.vcluster h d k,
          patch_all-same s.vcluster h distinct k o d.fields s.world,
        )
        refl
