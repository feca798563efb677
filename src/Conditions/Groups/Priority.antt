-- ===== src/Conditions/Groups/Priority.antt =====
-- The top group has the best priority, and it is never empty.
use cluster_api_provider_vcl.Base.{
  ℕ, ◌≤◌, ◌≡◌, ◌≢◌, refl, true, false, Option, none, some, List, [], ◌∷◌, ◌++◌, arith, ◌==◌, eq_iff,
  ◌&&◌, inl, inr, ◌⊎◌,
}
use cluster_api_provider_vcl.Base.Tests.{Bool-cases, ⊎_map, ltb_asymm, ltb_not_trans, not_ltb→le}
use cluster_api_provider_vcl.Base.Lists.{All, All-imp, All-append}
use cluster_api_provider_vcl.Base.Sort.{
  insert, insert-ne-nil, sort, All-sort, StrictOrder, Ordered, sort-Ordered,
}
use cluster_api_provider_vcl.Conditions.Groups.{
  LocalizedCondition, ConditionGroup, merge_priority, add_to_groups, group_all, group_less,
  localized_less, sort_top, get_condition_groups,
}
use cluster_api_provider_vcl.Conditions.Groups.Partition.{present}

-- The priority of a condition is that of its group.
unfoldable pub priority : LocalizedCondition → ℕ
unfolding merge_priority
priority c =
    merge_priority
      (record { status = c.condition.status; severity = c.condition.severity; conditions = c ∷ [] })

abbrev pub Belongs : LocalizedCondition → ConditionGroup → Type 0
Belongs c g = (c.condition.status ≡ g.status) × (c.condition.severity ≡ g.severity)

-- A group is not empty, and its conditions have its status and severity.
abbrev pub IsGroup : ConditionGroup → Type 0
IsGroup g = (g.conditions ≢ []) × All (λ c. Belongs c g) g.conditions

-- Some group is that of the condition.
abbrev pub Covered : LocalizedCondition → List ConditionGroup → Type 0
Covered c [] = ⊥
Covered c (g ∷ gs) = Belongs c g ⊎ Covered c gs

same_group :
    (c : LocalizedCondition) (g : ConditionGroup)
    → (g.status == c.condition.status && g.severity == c.condition.severity) ≡ true
    → Belongs c g
same_group c g h =
    ground (arith, eq_iff g.status c.condition.status, eq_iff g.severity c.condition.severity)

append-ne-nil : (cs : List LocalizedCondition) (c : LocalizedCondition) → cs ++ c ∷ [] ≢ []
append-ne-nil [] c e = cc
append-ne-nil (d ∷ cs) c e = cc

add_to_groups-IsGroup :
    (c : LocalizedCondition) (gs : List ConditionGroup)
    → All IsGroup gs
    → All IsGroup (add_to_groups c gs)
unfolding add_to_groups
add_to_groups-IsGroup c [] h = (((λ e. cc), ((refl, refl), tt)), tt)
add_to_groups-IsGroup c (g ∷ gs) h =
    elim (Bool-cases (g.status == c.condition.status && g.severity == c.condition.severity)) [
      | inl e ↦ rw e (
        (
          append-ne-nil g.conditions c,
          All-append (λ d. Belongs d g) g.conditions (c ∷ []) h.0.1 (same_group c g e, tt),
        ),
        h.1,
      )
      | inr e ↦ rw e (h.0, add_to_groups-IsGroup c gs h.1)
    ]

add_to_groups-Covered :
    (c : LocalizedCondition) (gs : List ConditionGroup) → Covered c (add_to_groups c gs)
unfolding add_to_groups
add_to_groups-Covered c [] = inl (refl, refl)
add_to_groups-Covered c (g ∷ gs) =
    elim (Bool-cases (g.status == c.condition.status && g.severity == c.condition.severity)) [
      | inl e ↦ rw e (inl (same_group c g e))
      | inr e ↦ rw e (inr (add_to_groups-Covered c gs))
    ]

Covered-add_to_groups :
    (c d : LocalizedCondition) (gs : List ConditionGroup)
    → Covered d gs
    → Covered d (add_to_groups c gs)
unfolding add_to_groups
Covered-add_to_groups c d [] h = absurd h
Covered-add_to_groups c d (g ∷ gs) h =
    elim (Bool-cases (g.status == c.condition.status && g.severity == c.condition.severity)) [
      | inl e ↦ rw e h
      | inr e ↦ rw e (⊎_map h (λ b. b) (Covered-add_to_groups c d gs))
    ]

group_all-IsGroup :
    (cs : List (Option LocalizedCondition)) (gs : List ConditionGroup)
    → All IsGroup gs
    → All IsGroup (group_all cs gs)
unfolding group_all
group_all-IsGroup [] gs h = h
group_all-IsGroup (none ∷ cs) gs h = group_all-IsGroup cs gs h
group_all-IsGroup (some c ∷ cs) gs h =
    group_all-IsGroup cs (add_to_groups c gs) (add_to_groups-IsGroup c gs h)

Covered-group_all :
    (cs : List (Option LocalizedCondition)) (d : LocalizedCondition) (gs : List ConditionGroup)
    → Covered d gs
    → Covered d (group_all cs gs)
unfolding group_all
Covered-group_all [] d gs h = h
Covered-group_all (none ∷ cs) d gs h = Covered-group_all cs d gs h
Covered-group_all (some c ∷ cs) d gs h =
    Covered-group_all cs d (add_to_groups c gs) (Covered-add_to_groups c d gs h)

group_all-Covered :
    (cs : List (Option LocalizedCondition)) (gs : List ConditionGroup)
    → All (λ c. Covered c (group_all cs gs)) (present cs)
unfolding group_all present
group_all-Covered [] gs = tt
group_all-Covered (none ∷ cs) gs = group_all-Covered cs gs
group_all-Covered (some c ∷ cs) gs = (
  Covered-group_all cs c (add_to_groups c gs) (add_to_groups-Covered c gs),
  group_all-Covered cs (add_to_groups c gs),
)

Covered-insert :
    (c : LocalizedCondition) (g : ConditionGroup) (gs : List ConditionGroup)
    → Covered c (g ∷ gs)
    → Covered c (insert group_less g gs)
unfolding insert
Covered-insert c g [] h = h
Covered-insert c g (k ∷ gs) h = elim (Bool-cases (group_less k g)) [
  | inl e ↦ rw e (elim h [
    | inl b ↦ inr (Covered-insert c g gs (inl b))
    | inr (inl b) ↦ inl b
    | inr (inr r) ↦ inr (Covered-insert c g gs (inr r))
  ])
  | inr e ↦ rw e h
]

Covered-sort :
    (c : LocalizedCondition) (gs : List ConditionGroup)
    → Covered c gs
    → Covered c (sort group_less gs)
unfolding sort
Covered-sort c [] h = h
Covered-sort c (g ∷ gs) h =
    Covered-insert c g (sort group_less gs) (⊎_map h (λ b. b) (Covered-sort c gs))

Covered-sort_top :
    (c : LocalizedCondition) (gs : List ConditionGroup) → Covered c gs → Covered c (sort_top gs)
unfolding sort_top
Covered-sort_top c [] h = h
Covered-sort_top c (g ∷ gs) h = h

-- Every condition that is not nil has a group of its status and severity.
pub get_condition_groups-Covered :
    (cs : List (Option LocalizedCondition))
    → All (λ c. Covered c (get_condition_groups cs)) (present cs)
unfolding get_condition_groups
get_condition_groups-Covered cs =
    All-imp _ _ (present cs)
      (λ c h.
        Covered-sort_top c (sort group_less (group_all cs [])) (Covered-sort c (group_all cs []) h))
      (group_all-Covered cs [])

sort-ne-nil : (cs : List LocalizedCondition) → cs ≢ [] → sort localized_less cs ≢ []
unfolding sort
sort-ne-nil [] h = h
sort-ne-nil (c ∷ cs) h = insert-ne-nil localized_less c (sort localized_less cs)

sort_top-IsGroup : (gs : List ConditionGroup) → All IsGroup gs → All IsGroup (sort_top gs)
unfolding sort_top
sort_top-IsGroup [] h = tt
sort_top-IsGroup (g ∷ gs) h = (
  (sort-ne-nil g.conditions h.0.0, All-sort localized_less (λ c. Belongs c g) g.conditions h.0.1),
  h.1,
)

-- The groups are not empty, and each holds conditions of one status and severity.
pub get_condition_groups-IsGroup :
    (cs : List (Option LocalizedCondition)) → All IsGroup (get_condition_groups cs)
unfolding get_condition_groups
get_condition_groups-IsGroup cs =
    sort_top-IsGroup (sort group_less (group_all cs []))
      (All-sort group_less IsGroup (group_all cs []) (group_all-IsGroup cs [] tt))

group_less-StrictOrder : StrictOrder group_less
unfolding group_less
group_less-StrictOrder = record {
  asymm = λ a b. ltb_asymm (merge_priority a) (merge_priority b);
  not_trans = λ a b c. ltb_not_trans (merge_priority a) (merge_priority b) (merge_priority c);
}

sort_top-Ordered :
    (gs : List ConditionGroup) → Ordered group_less gs → Ordered group_less (sort_top gs)
unfolding sort_top group_less merge_priority
sort_top-Ordered [] h = h
sort_top-Ordered (g ∷ gs) h = h

pub get_condition_groups-Ordered :
    (cs : List (Option LocalizedCondition)) → Ordered group_less (get_condition_groups cs)
unfolding get_condition_groups
get_condition_groups-Ordered cs =
    sort_top-Ordered (sort group_less (group_all cs []))
      (sort-Ordered group_less group_less-StrictOrder (group_all cs []))

pub Belongs-priority :
    (c : LocalizedCondition) (g : ConditionGroup) → Belongs c g → priority c ≡ merge_priority g
unfolding priority merge_priority
Belongs-priority c g h = ground arith

pub Covered-priority :
    (c : LocalizedCondition) (g : ConditionGroup) (gs : List ConditionGroup)
    → All (λ k. group_less k g ≡ false) gs
    → Covered c gs
    → merge_priority g ≤ priority c
unfolding group_less
Covered-priority c g [] o h = absurd h
Covered-priority c g (k ∷ gs) o (inl b) =
    rw (Belongs-priority c k b) (not_ltb→le (merge_priority k) (merge_priority g) o.0)
Covered-priority c g (k ∷ gs) o (inr h) = Covered-priority c g gs o.1 h
