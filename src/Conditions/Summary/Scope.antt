-- ===== src/Conditions/Summary/Scope.antt =====
-- What a summary says of the conditions in its scope.
use mathlib.Core.List.{Mem, mem-cons_self, mem-cons_of_mem}
use mathlib.Core.Path.{subst}
use cluster_api_provider_vcl.Base.{
  ◌≡◌, ◌∙◌, refl, ap, true, Option, some, List, [], ◌∷◌, ◌==◌, map, arith, inl, inr, eq_iff,
  eq_refl,
}
use cluster_api_provider_vcl.Base.Tests.{Bool-cases}
use cluster_api_provider_vcl.Base.Lists.{All, All-imp}
use cluster_api_provider_vcl.Api.Condition.{
  Condition, Conditions, ConditionType, condition_true, ready_condition,
}
use cluster_api_provider_vcl.Conditions.Getter.{Getter, find}
use cluster_api_provider_vcl.Conditions.Distinct.{Distinct}
use cluster_api_provider_vcl.Conditions.Groups.{LocalizedCondition}
use cluster_api_provider_vcl.Conditions.Groups.Partition.{present}
use cluster_api_provider_vcl.Conditions.Merge.{MergeOptions, with_conditions, apply_options}
use cluster_api_provider_vcl.Conditions.Merge.Truth.{merge_true, priority_three}
use cluster_api_provider_vcl.Conditions.Summary.{
  in_scope, conditions_in_scope, no_options, restrict_counter, count_steps, summary,
}

pub present-map : (xs : List LocalizedCondition) → present (map some xs) ≡ xs
unfolding present
present-map [] = refl
present-map (x ∷ xs) = ap (◌∷◌ x) (present-map xs)

abbrev located : Getter → Condition → LocalizedCondition
located g c = record { condition = c; source = g.source }

in_scope-Mem :
    (g : Getter) (types : Option (List ConditionType)) (cs : Conditions) (t : ConditionType)
    (c : Condition)
    → in_scope types t ≡ true
    → find t cs ≡ some c
    → Mem (located g c) (conditions_in_scope g types cs)
unfolding conditions_in_scope find
in_scope-Mem g types [] t c s h = ground arith
in_scope-Mem g types (d ∷ cs) t c s h = elim (Bool-cases (d.type == t)) [
  | inl e ↦
      let p : d ≡ c = ground arith in
      let q = ap (in_scope types) ((eq_iff d.type t).0 e) ∙ s in
      subst (λ x. Mem (located g x) (conditions_in_scope g types (d ∷ cs))) p (rw q mem-cons_self)
  | inr e ↦
      let m = in_scope-Mem g types cs t c s (ground arith) in
      elim (Bool-cases (in_scope types d.type)) [
        | inl q ↦ rw q (mem-cons_of_mem (located g d) m)
        | inr q ↦ rw q m
      ]
]

-- Every condition in scope is true, where a reader finds only true ones.
scope_true :
    (g : Getter) (types : Option (List ConditionType)) (cs : Conditions)
    → Distinct cs
    → ((t : ConditionType) (c : Condition)
        → in_scope types t ≡ true
        → find t cs ≡ some c
        → c.status ≡ condition_true)
    → All (λ l. l.condition.status ≡ condition_true) (conditions_in_scope g types cs)
unfolding conditions_in_scope find
scope_true g types [] d h = tt
scope_true g types (c ∷ cs) d h =
    let rest =
      scope_true g types cs d.1 λ t e s f. h t e s (ground (arith, eq_iff c.type t, d.0)) in
    elim (Bool-cases (in_scope types c.type)) [
      | inl q ↦ rw q (h c.type c q (rw eq_refl refl), rest)
      | inr q ↦ rw q rest
    ]

-- Of an object with at most one condition of each type, `summary` of some types is a Ready
-- condition that is True if a type in scope is there, and every type in scope that is there is
-- True.
pub summary-true :
    (g : Getter) (ts : List ConditionType) (t : ConditionType) (c : Condition)
    → Distinct g.conditions
    → in_scope (some ts) t ≡ true
    → find t g.conditions ≡ some c
    → ((u : ConditionType) (d : Condition)
        → in_scope (some ts) u ≡ true
        → find u g.conditions ≡ some d
        → d.status ≡ condition_true)
    → (r : Condition) × (summary g (with_conditions (some ts) ∷ []) ≡ some r)
      × (r.type ≡ ready_condition)
      × (r.status ≡ condition_true)
unfolding summary apply_options with_conditions
summary-true g ts t c d s f h =
    let scope = conditions_in_scope g (some ts) g.conditions in
    let o : MergeOptions = record no_options { condition_types = some ts } in
    let all = scope_true g (some ts) g.conditions d h in
    merge_true (map some scope) ready_condition (count_steps scope (restrict_counter scope o))
      (located g c) (rw (present-map scope) (in_scope-Mem g (some ts) g.conditions t c s f))
      (h t c s f)
      (rw (present-map scope)
        (All-imp _ _ scope (λ l e. omega (arith, (priority_three l).1 e)) all))
