-- ===== src/Conditions/Groups/Sizes.antt =====
-- How many conditions the groups hold.
use cluster_api_provider_vcl.Base.{
  ℕ, ◌+◌, ◌≤◌, ◌≡◌, refl, String, Option, none, some, List, [], ◌∷◌, ◌++◌, ◌==◌, ◌&&◌, arith, inl,
  inr,
}
use cluster_api_provider_vcl.Base.Tests.{Bool-cases}
use cluster_api_provider_vcl.Base.Lists.{length, length-append}
use cluster_api_provider_vcl.Base.Sort.{insert, sort}
use cluster_api_provider_vcl.Conditions.Groups.{
  LocalizedCondition, ConditionGroup, add_to_groups, group_all, group_less, localized_less,
  sort_top, get_condition_groups, get_by_status_and_severity,
}
use cluster_api_provider_vcl.Conditions.Groups.Partition.{members, present}

length-insert :
    (x : LocalizedCondition) (xs : List LocalizedCondition)
    → length (insert localized_less x xs) ≡ 1 + length xs
unfolding insert
length-insert x [] = omega arith
length-insert x (y ∷ ys) = ground (arith, length-insert x ys)

length-sort : (xs : List LocalizedCondition) → length (sort localized_less xs) ≡ length xs
unfolding sort
length-sort [] = refl
length-sort (x ∷ xs) = omega (arith, length-insert x (sort localized_less xs), length-sort xs)

length-add_to_groups :
    (c : LocalizedCondition) (gs : List ConditionGroup)
    → length (members (add_to_groups c gs)) ≡ 1 + length (members gs)
unfolding members add_to_groups
length-add_to_groups c [] = omega arith
length-add_to_groups c (g ∷ gs) =
    elim (Bool-cases (g.status == c.condition.status && g.severity == c.condition.severity)) [
      | inl e ↦ rw e (
          omega (
            arith,
            length-append (g.conditions ++ c ∷ []) (members gs),
            length-append g.conditions (c ∷ []),
            length-append g.conditions (members gs),
          ))
      | inr e ↦ rw e (
          omega (
            arith,
            length-append g.conditions (members (add_to_groups c gs)),
            length-append g.conditions (members gs),
            length-add_to_groups c gs,
          ))
    ]

length-group_all :
    (cs : List (Option LocalizedCondition)) (gs : List ConditionGroup)
    → length (members (group_all cs gs)) ≡ length (present cs) + length (members gs)
unfolding group_all present
length-group_all [] gs = omega arith
length-group_all (none ∷ cs) gs = length-group_all cs gs
length-group_all (some c ∷ cs) gs =
    omega (arith, length-group_all cs (add_to_groups c gs), length-add_to_groups c gs)

length-insert_group :
    (g : ConditionGroup) (gs : List ConditionGroup)
    → length (members (insert group_less g gs)) ≡ length g.conditions + length (members gs)
unfolding insert members
length-insert_group g [] = length-append g.conditions []
length-insert_group g (h ∷ gs) = elim (Bool-cases (group_less h g)) [
  | inl e ↦ rw e (
      omega (
        arith,
        length-append h.conditions (members (insert group_less g gs)),
        length-append h.conditions (members gs),
        length-insert_group g gs,
      ))
  | inr e ↦ rw e (length-append g.conditions (h.conditions ++ members gs))
]

length-sort_groups :
    (gs : List ConditionGroup) → length (members (sort group_less gs)) ≡ length (members gs)
unfolding sort members
length-sort_groups [] = refl
length-sort_groups (g ∷ gs) = omega (
  arith,
  length-insert_group g (sort group_less gs),
  length-sort_groups gs,
  length-append g.conditions (members gs),
)

length-sort_top : (gs : List ConditionGroup) → length (members (sort_top gs)) ≡ length (members gs)
unfolding sort_top members
length-sort_top [] = refl
length-sort_top (g ∷ gs) = omega (
  arith,
  length-append (sort localized_less g.conditions) (members gs),
  length-sort g.conditions,
  length-append g.conditions (members gs),
)

-- The groups hold as many conditions as were given.
length-members :
    (cs : List (Option LocalizedCondition))
    → length (members (get_condition_groups cs)) ≡ length (present cs)
unfolding get_condition_groups members
length-members cs = omega (
  arith,
  length-sort_top (sort group_less (group_all cs [])),
  length-sort_groups (group_all cs []),
  length-group_all cs [],
)

abbrev pub size_of : Option ConditionGroup → ℕ
size_of none = 0
size_of (some g) = length g.conditions

group-le :
    (gs : List ConditionGroup) (st sev : String)
    → size_of (get_by_status_and_severity gs st sev) ≤ length (members gs)
unfolding get_by_status_and_severity members
group-le [] st sev = omega arith
group-le (g ∷ gs) st sev = elim (Bool-cases (g.status == st && g.severity == sev)) [
  | inl e ↦ rw e (omega (arith, length-append g.conditions (members gs)))
  | inr e ↦ rw e (omega (arith, length-append g.conditions (members gs), group-le gs st sev))
]

-- No group has more conditions than were given.
pub group-le-present :
    (cs : List (Option LocalizedCondition)) (st sev : String)
    → size_of (get_by_status_and_severity (get_condition_groups cs) st sev) ≤ length (present cs)
group-le-present cs st sev =
    omega (arith, group-le (get_condition_groups cs) st sev, length-members cs)
