-- ===== src/Controllers/Reconcile/Frame.antt =====
-- The conditions that a reconciliation leaves alone.
pub mod Steps
use cluster_api_provider_vcl.Base.{
  ◌≡◌, ◌∙◌, String, Bool, true, false, some, ◌==◌, arith, inl, inr, eq_iff,
}
use cluster_api_provider_vcl.Base.Tests.{Bool-cases}
use cluster_api_provider_vcl.Api.Condition.{Condition, ConditionType, ConditionSeverity, Time}
use cluster_api_provider_vcl.Api.VCluster.{VCluster, get_conditions, set_conditions}
use cluster_api_provider_vcl.Conditions.Getter.{find}
use cluster_api_provider_vcl.Conditions.Setter.{
  set_condition, mark_true, mark_false, delete_condition, true_condition, false_condition,
}
use cluster_api_provider_vcl.Conditions.Setter.Lookup.{find-set, find-delete}
use cluster_api_provider_vcl.Controllers.State.{vcluster_setter, vcluster_getter}
use cluster_api_provider_vcl.Controllers.Writes.{
  HasDistinct, set_condition-HasDistinct, delete_condition-HasDistinct,
}
use cluster_api_provider_vcl.Controllers.Kubeconfig.{set_initialized}
use cluster_api_provider_vcl.Controllers.Host.{write_host}
use cluster_api_provider_vcl.Controllers.Reconcile.Survives.{writes}
use cluster_api_provider_vcl.Controllers.Reconcile.{set_ready}

-- What has every condition of another type as it was in `v`.
pub record Framed (v u : VCluster) : Type 0 where
  pub distinct : HasDistinct u
  pub frame :
      (t : ConditionType)
      → writes t ≡ false
      → find t u.status.conditions ≡ find t v.status.conditions

module _ (v : VCluster) where
  set_condition-Framed :
      (now : Time) (u : VCluster) (c : Condition)
      → writes c.type ≡ true
      → Framed v u
      → Framed v (set_condition now u (some c))
  unfolding set_condition set_conditions vcluster_setter vcluster_getter get_conditions
  set_condition-Framed now u c w h = record {
    distinct = set_condition-HasDistinct now u (some c) h.distinct;
    frame = λ t n.
        find-set now u.status.conditions c t h.distinct ∙ (elim (Bool-cases (c.type == t)) [
          | inl e ↦ ground (arith, eq_iff c.type t)
          | inr e ↦ rw e (h.frame t n)
        ]);
  }

  pub mark_true-Framed :
      (now : Time) (u : VCluster) (t : ConditionType)
      → writes t ≡ true
      → Framed v u
      → Framed v (mark_true now u t)
  unfolding mark_true true_condition
  mark_true-Framed now u t w h = set_condition-Framed now u (true_condition t) w h

  pub mark_false-Framed :
      (now : Time) (u : VCluster) (t : ConditionType) (reason : String)
      (severity : ConditionSeverity) (message : String)
      → writes t ≡ true
      → Framed v u
      → Framed v (mark_false now u t reason severity message)
  unfolding mark_false false_condition
  mark_false-Framed now u t reason severity message w h =
      set_condition-Framed now u (false_condition t reason severity message) w h

  pub delete_condition-Framed :
      (u : VCluster) (t : ConditionType)
      → writes t ≡ true
      → Framed v u
      → Framed v (delete_condition u t)
  unfolding delete_condition set_conditions vcluster_setter vcluster_getter get_conditions
  delete_condition-Framed u d w h = record {
    distinct = delete_condition-HasDistinct u d h.distinct;
    frame = λ t n. find-delete u.status.conditions d t ∙ (elim (Bool-cases (d == t)) [
      | inl e ↦ ground (arith, eq_iff d t)
      | inr e ↦ rw e (h.frame t n)
    ]);
  }

pub set_initialized-Framed : (v u : VCluster) → Framed v u → Framed v (set_initialized u)
unfolding set_initialized
set_initialized-Framed v u h = record { distinct = h.distinct; frame = h.frame }

pub write_host-Framed :
    (v : VCluster) (host : String) (u : VCluster) → Framed v u → Framed v (write_host host u)
unfolding write_host
write_host-Framed v host u h = record { distinct = h.distinct; frame = h.frame }

pub set_ready-Framed :
    (v : VCluster) (b : Bool) (u : VCluster) → Framed v u → Framed v (set_ready b u)
set_ready-Framed v b u h = record { distinct = h.distinct; frame = h.frame }
