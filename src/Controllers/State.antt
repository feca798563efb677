-- ===== src/Controllers/State.antt =====
-- What a run of the reconciler works on: the world, and the object that every part of the run
-- reads and writes through one pointer.
use cluster_api_provider_vcl.Base.{Bool, refl}
use cluster_api_provider_vcl.Api.Condition.{ConditionType, Time}
use cluster_api_provider_vcl.Api.VCluster.{VCluster, get_conditions, set_conditions}
use cluster_api_provider_vcl.Runtime.{Exec, ok}
use cluster_api_provider_vcl.Conditions.Setter.{Setter}
use cluster_api_provider_vcl.Conditions.Getter.{Getter, is_true}

pub record State (W : Type 0) : Type 0 where
  pub world : W
  pub vcluster : VCluster

-- A VCluster as the conditions package sees it.
unfoldable pub vcluster_getter : VCluster → Getter
unfolding get_conditions
vcluster_getter v = record {
  source = record { kind = v.kind; name = v.metadata.name };
  conditions = get_conditions v;
}

instance unfoldable pub vcluster_setter : Setter VCluster
unfolding vcluster_getter set_conditions
vcluster_setter = record {
  getter = vcluster_getter;
  set_conditions = set_conditions;
  get-set = λ a cs. refl;
  source-set = λ a cs. refl;
}

unfoldable pub condition_is_true : VCluster → ConditionType → Bool
unfolding vcluster_getter is_true
condition_is_true v t = is_true (vcluster_getter v) t

module _ {W : Type 0} where
  -- A call that acts on the world alone.
  unfoldable pub on_world : {A : Type 0} → Exec W A → Exec (State W) A
  on_world m s = let (r, w) = m s.world in (r, record s { world = w })

  unfoldable pub edit : (VCluster → VCluster) → Exec (State W) (Unit {0})
  edit f s = (ok tt, record s { vcluster = f s.vcluster })

  module _ (now : W → Time × W) where
    -- A write of a condition reads the clock.
    unfoldable pub edit_now : (Time → VCluster → VCluster) → Exec (State W) (Unit {0})
    edit_now f s =
        let (t, w) = now s.world in (ok tt, record { world = w; vcluster = f t s.vcluster })
