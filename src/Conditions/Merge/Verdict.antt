-- ===== src/Conditions/Merge/Verdict.antt =====
-- What `merge` decides: the status and the severity of a condition of the best priority.
use mathlib.Core.List.{Mem, mem-cons_self, mem-append_left, Perm}
use mathlib.Core.List.Perm
use cluster_api_provider_vcl.Base.{
  ◌≤◌, ◌≡◌, ◌≢◌, refl, Option, none, some, List, [], ◌∷◌, arith, ◌==◌, eq_iff, inl, inr, ◌⊎◌,
}
use cluster_api_provider_vcl.Base.Tests.{if◌then◌else◌, Bool-cases}
use cluster_api_provider_vcl.Base.Lists.{All, All-imp}
use cluster_api_provider_vcl.Base.Sort.{Ordered}
use cluster_api_provider_vcl.Api.Condition.{
  Condition, ConditionType, ConditionStatus, condition_true, condition_false, condition_unknown,
}
use cluster_api_provider_vcl.Conditions.Setter.{true_condition, false_condition, unknown_condition}
use cluster_api_provider_vcl.Conditions.Groups.{
  LocalizedCondition, ConditionGroup, group_less, get_condition_groups,
}
use cluster_api_provider_vcl.Conditions.Groups.Partition.{
  members, present, get_condition_groups-perm,
}
use cluster_api_provider_vcl.Conditions.Groups.Priority.{
  priority, Belongs, IsGroup, Covered, get_condition_groups-Covered, get_condition_groups-IsGroup,
  get_condition_groups-Ordered, Belongs-priority, Covered-priority,
}
use cluster_api_provider_vcl.Conditions.Merge.{
  MergeOptions, get_reason, get_message, merge_groups, merge,
}

-- A condition of the best priority.
abbrev pub IsBest : LocalizedCondition → List LocalizedCondition → Type 0
IsBest c cs = Mem c cs × All (λ d. priority c ≤ priority d) cs

some_member :
    (g : ConditionGroup) (cs : List LocalizedCondition)
    → cs ≢ []
    → All (λ c. Belongs c g) cs
    → (c : LocalizedCondition) × Mem c cs × Belongs c g
some_member g [] n h = absurd (n refl)
some_member g (c ∷ cs) n h = (c, mem-cons_self, h.0)

top_is_best :
    (g : ConditionGroup) (gs : List ConditionGroup) (c d : LocalizedCondition)
    → Ordered group_less (g ∷ gs)
    → Belongs c g
    → Covered d (g ∷ gs)
    → priority c ≤ priority d
top_is_best g gs c d o b (inl e) = omega (arith, Belongs-priority c g b, Belongs-priority d g e)
top_is_best g gs c d o b (inr v) =
    omega (arith, Belongs-priority c g b, Covered-priority d g gs o.0 v)

IsBest-of_top :
    (cs : List LocalizedCondition) (g : ConditionGroup) (gs : List ConditionGroup)
    → All IsGroup (g ∷ gs)
    → Ordered group_less (g ∷ gs)
    → All (λ c. Covered c (g ∷ gs)) cs
    → Perm (members (g ∷ gs)) cs
    → (c : LocalizedCondition) × IsBest c cs × Belongs c g
unfolding members
IsBest-of_top cs g gs i o v p =
    let (c, m, b) = some_member g g.conditions i.0.0 i.0.1 in
    (
      c,
      (
        (Perm.mem_iff p).0 (mem-append_left (members gs) m),
        All-imp _ _ cs (λ d. top_is_best g gs c d o b) v,
      ),
      b,
    )

-- The status and the severity that a condition gives to the merged one.
abbrev pub merged_status : ConditionStatus → ConditionStatus
merged_status st =
    if st == condition_true
    then condition_true
    else if st == condition_false
    then condition_false
    else condition_unknown

abbrev pub Decides : LocalizedCondition → ConditionType → Condition → Type 0
Decides c target r =
    (r.type ≡ target)
    × (r.status ≡ merged_status c.condition.status)
    × (r.severity ≡ (if c.condition.status == condition_false then c.condition.severity else ""))

merge_groups-Decides :
    (c : LocalizedCondition) (g : ConditionGroup) (gs : List ConditionGroup)
    (target : ConditionType) (o : MergeOptions)
    → Belongs c g
    → (r : Condition) × (merge_groups (g ∷ gs) target o ≡ some r) × Decides c target r
unfolding merge_groups
merge_groups-Decides c g gs target o b = elim (Bool-cases (g.status == condition_true)) [
  | inl e ↦ (
    true_condition target,
    rw e,
    (
      refl,
      rw (b.0, (eq_iff g.status condition_true).0 e),
      rw (b.0, (eq_iff g.status condition_true).0 e),
    ),
  )
  | inr e ↦ elim (Bool-cases (g.status == condition_false)) [
    | inl f ↦ (
      false_condition target (get_reason (g ∷ gs) o) g.severity (get_message (g ∷ gs) o),
      rw (e, f),
      (refl, rw (b.0, (eq_iff g.status condition_false).0 f), rw (b.0, f, b.1)),
    )
    | inr f ↦ (
      unknown_condition target (get_reason (g ∷ gs) o) (get_message (g ∷ gs) o),
      rw (e, f),
      (refl, rw (b.0, e, f), rw (b.0, f)),
    )
  ]
]

none-Covered : (cs : List LocalizedCondition) → All (λ c. Covered c []) cs → cs ≡ []
none-Covered [] h = refl
none-Covered (c ∷ cs) h = absurd h.0

decided_by_groups :
    (gs : List ConditionGroup) (cs : List LocalizedCondition) (target : ConditionType)
    (o : MergeOptions)
    → All IsGroup gs
    → Ordered group_less gs
    → All (λ c. Covered c gs) cs
    → Perm (members gs) cs
    → ((merge_groups gs target o ≡ none) × (cs ≡ []))
      ⊎ ((c : LocalizedCondition) × (r : Condition) × IsBest c cs
          × (merge_groups gs target o ≡ some r)
          × Decides c target r)
unfolding members merge_groups
decided_by_groups [] cs target o i s v p = inl (refl, none-Covered cs v)
decided_by_groups (g ∷ gs) cs target o i s v p =
    let (c, best, b) = IsBest-of_top cs g gs i s v p in
    let (r, e, d) = merge_groups-Decides c g gs target o b in inr (c, r, best, e, d)

-- `merge` gives nothing exactly when no condition is given; otherwise it gives a condition of
-- the target type with the status of a condition of the best priority, Unknown where that is
-- neither True nor False, and with its severity where that status is False.
pub merge-Decides :
    (cs : List (Option LocalizedCondition)) (target : ConditionType) (o : MergeOptions)
    → ((merge cs target o ≡ none) × (present cs ≡ []))
      ⊎ ((c : LocalizedCondition) × (r : Condition) × IsBest c (present cs)
          × (merge cs target o ≡ some r)
          × Decides c target r)
unfolding merge
merge-Decides cs target o =
    decided_by_groups (get_condition_groups cs) (present cs) target o
      (get_condition_groups-IsGroup cs) (get_condition_groups-Ordered cs)
      (get_condition_groups-Covered cs) (get_condition_groups-perm cs)
