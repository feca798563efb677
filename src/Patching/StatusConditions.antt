-- ===== src/Patching/StatusConditions.antt =====
-- `patchStatusConditions`: the conditions are patched onto the latest object, again after a
-- conflict, at most five times.
pub mod Laws
use cluster_api_provider_vcl.Base.{
  ℕ, zero, suc, String, Bool, true, false, Option, none, some, List, [], ◌∷◌,
}
use cluster_api_provider_vcl.Base.Tests.{if◌then◌else◌}
use cluster_api_provider_vcl.Api.Condition.{Conditions, ConditionType, Time}
use cluster_api_provider_vcl.Api.VCluster.{VCluster, get_conditions, set_conditions}
use cluster_api_provider_vcl.Runtime.{Error, Result, ok, err, Exec, errorf, is_conflict}
use cluster_api_provider_vcl.Kube.{NamespacedName}
use cluster_api_provider_vcl.Conditions.Patch.{
  PatchOperation, ApplyOption, ApplyError, add_conflict, change_deleted, change_conflict,
  remove_conflict, Outcome, with_owned_conditions, with_force_overwrite, new_patch, apply, is_zero,
}

-- The calls of the API server that a patch makes.
pub record Server (W : Type 0) : Type 0 where
  pub now : W → Time × W
  pub get : NamespacedName → Exec W VCluster
  -- `Status().Patch` of the object, with the lock on the version of the object before
  pub patch_status_locked : (before after : VCluster) → Exec W (Unit {0})
  -- `ErrWaitTimeout`, and the messages of `Apply`
  pub timed_out : Error
  pub message : ApplyError → String

-- What the closure of the backoff loop returns: done, or to be tried again.
pub data Round : Type 0 where
  completed : Round
  conflicted : List PatchOperation → Round
  stopped : Error → Round

abbrev pub backoff_steps : ℕ
backoff_steps = 5

abbrev pub apply_options : (force_overwrite : Bool) → List ConditionType → List ApplyOption
apply_options force_overwrite owned =
    with_force_overwrite force_overwrite ∷ with_owned_conditions owned ∷ []

unfoldable pub patched : Result (Unit {0}) → List PatchOperation → Round
patched (ok _) diff = completed
patched (err e) diff = if is_conflict e then conflicted diff else stopped e

module _ {W : Type 0} (server : Server W) (force_overwrite : Bool) (owned : List ConditionType)
    (key : NamespacedName) where
  -- A round, once `Apply` has left the conditions and the patch, or its error.
  unfoldable pub send :
      Option ApplyError → Conditions → List PatchOperation → (latest : VCluster) → W → Round × W
  unfolding patched set_conditions
  send (some e) cs diff latest w = (stopped (errorf (server.message e)), w)
  send none cs diff latest w =
      let (r, w') = server.patch_status_locked latest (set_conditions latest cs) w in
      (patched r diff, w')

  unfoldable pub reply_latest : List PatchOperation → Result VCluster → W → Round × W
  unfolding send apply get_conditions
  reply_latest diff (err e) w = (stopped e, w)
  reply_latest diff (ok latest) w =
      let (t, w') = server.now w in
      let outcome = apply t (get_conditions latest) diff (apply_options force_overwrite owned) in
      send outcome.error outcome.latest outcome.patch latest w'

  -- A round of the loop. `Apply` stamps the operations, and the next round has them so.
  unfoldable pub round : List PatchOperation → W → Round × W
  unfolding reply_latest
  round diff w = let (r, w') = server.get key w in reply_latest diff r w'

  unfoldable pub next_round : (List PatchOperation → Exec W (Unit {0})) → Round → Exec W (Unit {0})
  next_round again completed w = (ok tt, w)
  next_round again (conflicted diff) w = again diff w
  next_round again (stopped e) w = (err e, w)

  -- `wait.ExponentialBackoff` of the library, as its documentation has it: the closure is called
  -- again while it asks for it and steps are left, and the end of the steps is the library's error.
  unfoldable pub backoff : ℕ → List PatchOperation → Exec W (Unit {0})
  unfolding round next_round
  backoff zero diff w = (err server.timed_out, w)
  backoff (suc steps) diff w = let (r, w') = round diff w in next_round (backoff steps) r w'

  unfoldable pub patch_status_conditions : (before after : VCluster) → Exec W (Unit {0})
  unfolding new_patch is_zero backoff get_conditions
  patch_status_conditions before after w =
      let diff = new_patch (get_conditions before) (get_conditions after) in
      if is_zero diff then (ok tt, w) else backoff backoff_steps diff w
