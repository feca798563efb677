-- ===== src/Patching/Steady.antt =====
-- A patch, where the calls of the API server leave something in the world as it is.
use cluster_api_provider_vcl.Base.{
  ℕ, zero, suc, ◌≡◌, ◌∙◌, refl, String, Bool, not, ◌&&◌, ◌==◌, Option, none, some, List, [], ◌∷◌,
  inl, inr,
}
use cluster_api_provider_vcl.Base.Tests.{Bool-cases}
use cluster_api_provider_vcl.Api.Condition.{Conditions, ConditionType}
use cluster_api_provider_vcl.Api.VCluster.{VCluster, get_conditions}
use cluster_api_provider_vcl.Runtime.{Error, Result, ok, err, Exec, pure, raise}
use cluster_api_provider_vcl.Runtime.Steady.{
  IsSteady, pure-IsSteady, raise-IsSteady, lift-IsSteady, attempt-IsSteady, bind-IsSteady,
  if-IsSteady,
}
use cluster_api_provider_vcl.Kube.{NamespacedName}
use cluster_api_provider_vcl.Conditions.Patch.{PatchOperation, ApplyError, new_patch, is_zero}
use cluster_api_provider_vcl.Controllers.Steady.{
  counted, on_world-IsSteady, gets-IsSteady, edit-IsSteady,
}
use cluster_api_provider_vcl.Patching.Options.{
  HelperOptions, PatchOption, no_helper_options, apply_to_helper,
}
use cluster_api_provider_vcl.Patching.Fields.{Fields, has_status}
use cluster_api_provider_vcl.Patching.StatusConditions.{
  Server, Round, completed, conflicted, stopped, send, reply_latest, round, next_round, backoff,
  backoff_steps, patch_status_conditions,
}
use cluster_api_provider_vcl.Patching.Helper.{
  Library, Helper, failures, patch_fields, patch_status_fields, patch_all, observe, patch,
}

-- The calls of the API server.
pub record ServerKeeps {W J : Type 0} (server : Server W) (library : Library W J) {C : Type 0}
    (count : W → C) : Type 0 where
  pub now : (w : W) → count (server.now w).1 ≡ count w
  pub get : (key : NamespacedName) → IsSteady count (server.get key)
  pub patch_status_locked :
      (before after : VCluster) → IsSteady count (server.patch_status_locked before after)
  pub patch_object : (before after : VCluster) → IsSteady count (library.patch_object before after)
  pub patch_status : (before after : VCluster) → IsSteady count (library.patch_status before after)

module _ {W J : Type 0} (server : Server W) (library : Library W J) {C : Type 0} (count : W → C)
    (keeps : ServerKeeps server library count) where
  module _ (force : Bool) (owned : List ConditionType) (key : NamespacedName) where
    send-IsSteady :
        (e : Option ApplyError) (cs : Conditions) (diff : List PatchOperation) (v : VCluster)
        (w : W)
        → count (send server force owned key e cs diff v w).1 ≡ count w
    unfolding send
    send-IsSteady (some e) cs diff v w = refl
    send-IsSteady none cs diff v w = keeps.patch_status_locked v _ w

    reply_latest-IsSteady :
        (diff : List PatchOperation) (r : Result VCluster) (w : W)
        → count (reply_latest server force owned key diff r w).1 ≡ count w
    unfolding reply_latest
    reply_latest-IsSteady diff (err e) w = refl
    reply_latest-IsSteady diff (ok v) w = send-IsSteady _ _ _ v _ ∙ keeps.now w

    next_round-IsSteady :
        (again : List PatchOperation → Exec W (Unit {0})) (r : Round)
        → ((diff : List PatchOperation) → IsSteady count (again diff))
        → IsSteady count (next_round server force owned key again r)
    unfolding next_round
    next_round-IsSteady again completed h w = refl
    next_round-IsSteady again (conflicted diff) h w = h diff w
    next_round-IsSteady again (stopped e) h w = refl

    backoff-IsSteady :
        (steps : ℕ) (diff : List PatchOperation)
        → IsSteady count (backoff server force owned key steps diff)
    unfolding backoff round
    backoff-IsSteady zero diff w = refl
    backoff-IsSteady (suc steps) diff w =
        let (v, w1) = server.get key w in
        let (r, w2) = reply_latest server force owned key diff v w1 in
        next_round-IsSteady (backoff server force owned key steps) r (backoff-IsSteady steps) w2
        ∙ reply_latest-IsSteady diff v w1
        ∙ keeps.get key w

    patch_status_conditions-IsSteady :
        (before after : VCluster)
        → IsSteady count (patch_status_conditions server force owned key before after)
    unfolding patch_status_conditions
    patch_status_conditions-IsSteady before after w =
        let diff = new_patch (get_conditions before) (get_conditions after) in
        elim (Bool-cases (is_zero diff)) [
          | inl e ↦ rw e refl
          | inr e ↦ rw e (backoff-IsSteady backoff_steps diff w)
        ]

  patch_fields-IsSteady :
      (h : Helper J) (after : Fields J) (changes : List String) (v : VCluster)
      → IsSteady count (patch_fields server library h after changes v)
  unfolding patch_fields
  patch_fields-IsSteady h after changes v = if-IsSteady count _ _ _ (pure-IsSteady count tt) (
      bind-IsSteady count _ _ (lift-IsSteady count _)
        λ objects. keeps.patch_object objects.0 objects.1)

  patch_status_fields-IsSteady :
      (h : Helper J) (after : Fields J) (changes : List String) (v : VCluster)
      → IsSteady count (patch_status_fields server library h after changes v)
  unfolding patch_status_fields
  patch_status_fields-IsSteady h after changes v =
      if-IsSteady count _ _ _ (pure-IsSteady count tt) (
        bind-IsSteady count _ _ (lift-IsSteady count _)
          λ objects. keeps.patch_status objects.0 objects.1)

  aggregate-IsSteady :
      (es : List Error)
      → IsSteady count (elim es as (λ _. Exec W (Unit {0})) [
        | [] ↦ pure tt
        | e ∷ es ↦ raise (library.new_aggregate (e ∷ es))
      ])
  aggregate-IsSteady [] = pure-IsSteady count tt
  aggregate-IsSteady (e ∷ es) = raise-IsSteady count (Unit {0}) _

  patch_all-IsSteady :
      (h : Helper J) (o : HelperOptions) (after : Fields J) (changes : List String) (v : VCluster)
      → IsSteady count (patch_all server library h o after changes v)
  unfolding patch_all
  patch_all-IsSteady h o after changes v =
      bind-IsSteady count _ _
        (attempt-IsSteady count _ (patch_status_conditions-IsSteady _ _ _ h.before_object v))
        λ conditions.
          bind-IsSteady count _ _
            (attempt-IsSteady count _ (patch_fields-IsSteady h after changes v))
            λ fields.
              bind-IsSteady count _ _
                (attempt-IsSteady count _ (patch_status_fields-IsSteady h after changes v))
                λ status. aggregate-IsSteady (failures (conditions ∷ fields ∷ status ∷ []))

  observe-IsSteady :
      (o : HelperOptions) (after : Fields J)
      → IsSteady (counted count) (observe server library o after)
  unfolding observe
  observe-IsSteady o after =
      let c = counted count in
      if-IsSteady c (has_status after && o.include_status_observed_generation) _ _
        (bind-IsSteady c _ _ (gets-IsSteady count _) λ v.
          bind-IsSteady c _ _ (lift-IsSteady c _) λ observed.
            bind-IsSteady c _ _ (lift-IsSteady c _)
              λ u. bind-IsSteady c _ _ (edit-IsSteady count _) λ _. pure-IsSteady c observed)
        (pure-IsSteady c after)

  pub patch-IsSteady :
      (h : Helper J) (opts : List PatchOption)
      → IsSteady (counted count) (patch server library h opts)
  unfolding patch
  patch-IsSteady h opts =
      let c = counted count in
      let o = apply_to_helper opts no_helper_options in
      bind-IsSteady c _ _ (gets-IsSteady count _) λ v.
        bind-IsSteady c _ _ (lift-IsSteady c _) λ gvk.
          bind-IsSteady c _ _
            (if-IsSteady c (not (gvk == h.gvk)) _ _ (raise-IsSteady c (Unit {0}) _)
              (pure-IsSteady c tt))
            λ _. bind-IsSteady c _ _ (lift-IsSteady c _) λ fields.
              bind-IsSteady c _ _ (observe-IsSteady o fields) λ after.
                bind-IsSteady c _ _ (gets-IsSteady count _) λ u.
                  bind-IsSteady c _ _ (lift-IsSteady c _)
                    λ changes. on_world-IsSteady count _ (patch_all-IsSteady h o after changes u)
