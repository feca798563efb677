-- ===== src/Conditions/Groups/Partition.antt =====
-- `getConditionGroups` sorts the conditions into groups: none is lost, made up or repeated.
use mathlib.Core.List.{Perm, perm_middle, perm_append_comm, append_assoc, append-nil}
use mathlib.Core.List.Perm
use cluster_api_provider_vcl.Base.{Option, none, some, List, [], ◌∷◌, ◌++◌, ◌==◌, ◌&&◌, inl, inr}
use cluster_api_provider_vcl.Base.Tests.{Bool-cases}
use cluster_api_provider_vcl.Base.Sort.{insert, sort, sort-perm}
use cluster_api_provider_vcl.Conditions.Groups.{
  LocalizedCondition, ConditionGroup, add_to_groups, group_all, group_less, localized_less,
  sort_top, get_condition_groups,
}

-- The conditions of all groups, group by group.
unfoldable pub members : List ConditionGroup → List LocalizedCondition
members [] = []
members (g ∷ gs) = g.conditions ++ members gs

-- The conditions that are not nil.
unfoldable pub present : List (Option LocalizedCondition) → List LocalizedCondition
present [] = []
present (none ∷ cs) = present cs
present (some c ∷ cs) = c ∷ present cs

add_to_groups-perm :
    (c : LocalizedCondition) (gs : List ConditionGroup)
    → Perm (members (add_to_groups c gs)) (c ∷ members gs)
unfolding members add_to_groups
add_to_groups-perm c [] = Perm.refl (c ∷ [])
add_to_groups-perm c (g ∷ gs) =
    elim (Bool-cases (g.status == c.condition.status && g.severity == c.condition.severity)) [
      | inl e ↦ rw e (rw append_assoc (perm_middle g.conditions (members gs)))
      | inr e ↦ rw e (
          Perm.trans (Perm.append_left g.conditions (add_to_groups-perm c gs))
            (perm_middle g.conditions (members gs)))
    ]

group_all-perm :
    (cs : List (Option LocalizedCondition)) (gs : List ConditionGroup)
    → Perm (members (group_all cs gs)) (present cs ++ members gs)
unfolding group_all present
group_all-perm [] gs = Perm.refl (members gs)
group_all-perm (none ∷ cs) gs = group_all-perm cs gs
group_all-perm (some c ∷ cs) gs = Perm.trans (group_all-perm cs (add_to_groups c gs)) (
    Perm.trans (Perm.append_left (present cs) (add_to_groups-perm c gs))
      (perm_middle (present cs) (members gs)))

exchange : (xs ys zs : List LocalizedCondition) → Perm (xs ++ (ys ++ zs)) (ys ++ (xs ++ zs))
exchange xs ys zs =
    rw (← append_assoc xs ys zs, ← append_assoc ys xs zs)
      (Perm.append_right zs (perm_append_comm xs ys))

members-insert :
    (g : ConditionGroup) (gs : List ConditionGroup)
    → Perm (members (insert group_less g gs)) (g.conditions ++ members gs)
unfolding members insert
members-insert g [] = Perm.refl (members (g ∷ []))
members-insert g (h ∷ gs) = elim (Bool-cases (group_less h g)) [
  | inl e ↦ rw e (
      Perm.trans (Perm.append_left h.conditions (members-insert g gs))
        (exchange h.conditions g.conditions (members gs)))
  | inr e ↦ rw e (Perm.refl (members (g ∷ h ∷ gs)))
]

members-sort : (gs : List ConditionGroup) → Perm (members (sort group_less gs)) (members gs)
unfolding members sort
members-sort [] = Perm.refl []
members-sort (g ∷ gs) =
    Perm.trans (members-insert g (sort group_less gs))
      (Perm.append_left g.conditions (members-sort gs))

members-sort_top : (gs : List ConditionGroup) → Perm (members (sort_top gs)) (members gs)
unfolding members sort_top
members-sort_top [] = Perm.refl []
members-sort_top (g ∷ gs) = Perm.append_right (members gs) (sort-perm localized_less g.conditions)

-- The groups together hold exactly the conditions that are not nil, each as often as it was given.
pub get_condition_groups-perm :
    (cs : List (Option LocalizedCondition)) → Perm (members (get_condition_groups cs)) (present cs)
unfolding get_condition_groups members
get_condition_groups-perm cs =
    Perm.trans (members-sort_top (sort group_less (group_all cs [])))
      (Perm.trans (members-sort (group_all cs [])) (rw append-nil at (group_all-perm cs [])))
