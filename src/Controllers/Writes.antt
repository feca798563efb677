-- ===== src/Controllers/Writes.antt =====
-- What the condition tests say after the writes of the reconciler.
use cluster_api_provider_vcl.Base.{
  ◌≡◌, ◌∙◌, refl, String, Bool, true, false, Option, none, some, [], ◌==◌, arith, inl, inr, eq_iff,
}
use cluster_api_provider_vcl.Base.Tests.{if◌then◌else◌, Bool-cases}
use cluster_api_provider_vcl.Api.Condition.{
  Condition, ConditionType, ConditionSeverity, Time, condition_true,
}
use cluster_api_provider_vcl.Api.VCluster.{VCluster, get_conditions, set_conditions}
use cluster_api_provider_vcl.Conditions.Getter.{find, get, is_true}
use cluster_api_provider_vcl.Conditions.Distinct.{Distinct}
use cluster_api_provider_vcl.Conditions.Setter.{
  set_condition, mark_true, mark_false, delete_condition, true_condition, false_condition,
  has_same_state,
}
use cluster_api_provider_vcl.Conditions.Setter.Lookup.{
  written, find-set, set-Distinct, find-delete, delete-Distinct,
}
use cluster_api_provider_vcl.Controllers.State.{vcluster_setter, vcluster_getter, condition_is_true}

written-status :
    (now : Time) (o : Option Condition) (c : Condition) → (written now o c).status ≡ c.status
unfolding written has_same_state
written-status now none c = ground arith
written-status now (some e) c = ground (arith, eq_iff e.status c.status)

-- Is the condition true, by the list.
abbrev pub status_is_true : Option Condition → Bool
status_is_true none = false
status_is_true (some c) = c.status == condition_true

pub condition_is_true-find :
    (v : VCluster) (t : ConditionType)
    → condition_is_true v t ≡ status_is_true (find t v.status.conditions)
unfolding condition_is_true is_true get vcluster_getter get_conditions find
condition_is_true-find v t = go (find t v.status.conditions)
  where
    go :
        (o : Option Condition)
        → elim o [ none ↦ false | some c ↦ c.status == condition_true ] ≡ status_is_true o
    go none = refl
    go (some c) = refl

-- Each type occurs at most once in the object.
abbrev pub HasDistinct : VCluster → Type 0
HasDistinct v = Distinct v.status.conditions

pub set_condition-is_true :
    (now : Time) (v : VCluster) (c : Condition) (t : ConditionType)
    → HasDistinct v
    → condition_is_true (set_condition now v (some c)) t
      ≡ (if c.type == t then c.status == condition_true else condition_is_true v t)
unfolding set_condition set_conditions vcluster_setter vcluster_getter get_conditions
set_condition-is_true now v c t d = elim (Bool-cases (c.type == t)) [
  | inl e ↦
      condition_is_true-find (set_condition now v (some c)) t
      ∙ rw
          (
            find-set now v.status.conditions c t d,
            e,
            written-status now (find c.type v.status.conditions) c,
          )
          refl
  | inr e ↦
      condition_is_true-find (set_condition now v (some c)) t
      ∙ rw (find-set now v.status.conditions c t d, e, condition_is_true-find v t) refl
]

pub mark_true-is_true :
    (now : Time) (v : VCluster) (u t : ConditionType)
    → HasDistinct v
    → condition_is_true (mark_true now v u) t ≡ (if u == t then true else condition_is_true v t)
unfolding mark_true true_condition
mark_true-is_true now v u t d = set_condition-is_true now v (true_condition u) t d

pub mark_false-is_true :
    (now : Time) (v : VCluster) (u : ConditionType) (reason : String) (severity : ConditionSeverity)
    (message : String) (t : ConditionType)
    → HasDistinct v
    → condition_is_true (mark_false now v u reason severity message) t
      ≡ (if u == t then false else condition_is_true v t)
unfolding mark_false false_condition
mark_false-is_true now v u reason severity message t d =
    set_condition-is_true now v (false_condition u reason severity message) t d

pub delete_condition-is_true :
    (v : VCluster) (u t : ConditionType)
    → condition_is_true (delete_condition v u) t ≡ (if u == t then false else condition_is_true v t)
unfolding delete_condition set_conditions vcluster_setter vcluster_getter get_conditions
delete_condition-is_true v u t = elim (Bool-cases (u == t)) [
  | inl e ↦
      condition_is_true-find (delete_condition v u) t
      ∙ rw (find-delete v.status.conditions u t, e) refl
  | inr e ↦
      condition_is_true-find (delete_condition v u) t
      ∙ rw (find-delete v.status.conditions u t, e, condition_is_true-find v t) refl
]

pub set_condition-HasDistinct :
    (now : Time) (v : VCluster) (o : Option Condition)
    → HasDistinct v
    → HasDistinct (set_condition now v o)
unfolding set_condition set_conditions vcluster_setter vcluster_getter get_conditions
set_condition-HasDistinct now v none d = d
set_condition-HasDistinct now v (some c) d = set-Distinct now v.status.conditions c d

pub mark_true-HasDistinct :
    (now : Time) (v : VCluster) (u : ConditionType)
    → HasDistinct v
    → HasDistinct (mark_true now v u)
unfolding mark_true
mark_true-HasDistinct now v u d = set_condition-HasDistinct now v (some (true_condition u)) d

pub mark_false-HasDistinct :
    (now : Time) (v : VCluster) (u : ConditionType) (reason : String) (severity : ConditionSeverity)
    (message : String)
    → HasDistinct v
    → HasDistinct (mark_false now v u reason severity message)
unfolding mark_false
mark_false-HasDistinct now v u reason severity message d =
    set_condition-HasDistinct now v (some (false_condition u reason severity message)) d

pub delete_condition-HasDistinct :
    (v : VCluster) (u : ConditionType) → HasDistinct v → HasDistinct (delete_condition v u)
unfolding delete_condition set_conditions vcluster_setter vcluster_getter get_conditions
delete_condition-HasDistinct v u d = delete-Distinct v.status.conditions u d

-- The object without its conditions.
unfoldable pub rest_of : VCluster → VCluster
rest_of v = record v { status = record (v.status) { conditions = [] } }

pub set_condition-rest_of :
    (now : Time) (v : VCluster) (o : Option Condition) → rest_of (set_condition now v o) ≡ rest_of v
unfolding rest_of set_condition set_conditions vcluster_setter
set_condition-rest_of now v none = refl
set_condition-rest_of now v (some c) = refl

pub mark_true-rest_of :
    (now : Time) (v : VCluster) (u : ConditionType) → rest_of (mark_true now v u) ≡ rest_of v
unfolding mark_true
mark_true-rest_of now v u = set_condition-rest_of now v (some (true_condition u))

pub mark_false-rest_of :
    (now : Time) (v : VCluster) (u : ConditionType) (reason : String) (severity : ConditionSeverity)
    (message : String)
    → rest_of (mark_false now v u reason severity message) ≡ rest_of v
unfolding mark_false
mark_false-rest_of now v u reason severity message =
    set_condition-rest_of now v (some (false_condition u reason severity message))

pub delete_condition-rest_of :
    (v : VCluster) (u : ConditionType) → rest_of (delete_condition v u) ≡ rest_of v
unfolding rest_of delete_condition set_conditions vcluster_setter
delete_condition-rest_of v u = refl
