-- ===== src/Patching/StatusConditions/Laws.antt =====
-- What a success of the patch of the conditions means.
use cluster_api_provider_vcl.Base.{◌≡◌, Bool, false, Option, List, []}
use cluster_api_provider_vcl.Api.Condition.{Conditions, ConditionType}
use cluster_api_provider_vcl.Api.VCluster.{VCluster, set_conditions}
use cluster_api_provider_vcl.Runtime.{Result, ok, err}
use cluster_api_provider_vcl.Kube.{NamespacedName}
use cluster_api_provider_vcl.Conditions.Getter.{find}
use cluster_api_provider_vcl.Conditions.Distinct.{Distinct}
use cluster_api_provider_vcl.Conditions.Patch.{PatchOperation, ApplyOptions}
use cluster_api_provider_vcl.Conditions.Patch.State.{state_at}
use cluster_api_provider_vcl.Conditions.Patch.Merging.{effect, merged}
use cluster_api_provider_vcl.Patching.StatusConditions.{
  Server, Round, completed, conflicted, stopped,
}

-- What the server answers has each type of condition at most once.
abbrev pub DistinctAnswer : Result VCluster → Type 0
DistinctAnswer (ok v) = Distinct v.status.conditions
DistinctAnswer (err e) = Unit

abbrev pub AnswersDistinct : {W : Type 0} → Server W → Type 0
AnswersDistinct {W} server = (key : NamespacedName) (w : W) → DistinctAnswer (server.get key w).0

abbrev pub no_options : ApplyOptions
no_options = record { owned_conditions = []; force_overwrite = false }

module _ {W : Type 0} (server : Server W) (force_overwrite : Bool) (owned : List ConditionType)
    (key : NamespacedName) (before after : Conditions) where
  -- The server accepted an object whose conditions are those of the one that it had answered for the
  -- key, with the changes in them.
  pub record Accepted (w : W) : Type 0 where
    pub latest : VCluster
    pub asked_in : W
    pub answered : (server.get key asked_in).0 ≡ ok latest
    pub conditions : Conditions
    pub sent_in : W
    pub accepted :
        server.patch_status_locked latest (set_conditions latest conditions) sent_in ≡ (ok tt, w)
    pub merges :
        (t : ConditionType)
        → state_at t conditions
          ≡ merged (find t before) (find t after) (state_at t latest.status.conditions)

  -- A patch with the effect of the changes.
  abbrev pub Merges : List PatchOperation → Type 0
  Merges diff =
      (t : ConditionType) (x : Option _) → effect t diff x ≡ merged (find t before) (find t after) x

  abbrev pub RoundEnd : Round × W → Type 0
  RoundEnd (completed, w) = Accepted w
  RoundEnd (conflicted diff, w) = Merges diff
  RoundEnd (stopped e, w) = Unit

  abbrev pub Succeeds : Result (Unit {0}) × W → Type 0
  Succeeds (ok _, w) = Accepted w
  Succeeds (err e, w) = Unit
