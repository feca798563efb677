-- ===== src/Conditions/Patch/Merging.antt =====
-- `Apply` of a `NewPatch` is a three-way merge.
use cluster_api_provider_vcl.Base.{
  ◌≡◌, refl, ap, ◌∙◌, true, Option, none, some, List, [], ◌∷◌, ◌++◌, arith, ◌==◌, eq_iff, inl, inr,
}
use cluster_api_provider_vcl.Base.Tests.{if◌then◌else◌, Option-cases}
use cluster_api_provider_vcl.Base.Lists.{All}
use cluster_api_provider_vcl.Api.Condition.{Condition, Conditions, ConditionType, Time}
use cluster_api_provider_vcl.Conditions.Getter.{find}
use cluster_api_provider_vcl.Conditions.Distinct.{Distinct}
use cluster_api_provider_vcl.Conditions.Patch.{
  PatchOperation, add_condition_patch, change_condition_patch, remove_condition_patch, deep_equal,
  ApplyOptions, apply_operation, overwrites, apply_loop, changes, removals, new_patch,
}
use cluster_api_provider_vcl.Conditions.Patch.State.{
  untimed, state_at, target_type, target_state, operation-Distinct, operation_effect,
}

owned_operation :
    (now : Time) (o : ApplyOptions) (latest : Conditions) (op : PatchOperation)
    → overwrites o (target_type op) ≡ true
    → (apply_operation now o latest op).error ≡ none
unfolding apply_operation
owned_operation now o latest (add_condition_patch after) h = ground arith
owned_operation now o latest (change_condition_patch after before) h = ground arith
owned_operation now o latest (remove_condition_patch before) h = ground arith

-- What a patch makes of the state under a type, if no operation fails.
unfoldable pub effect : ConditionType → List PatchOperation → Option Condition → Option Condition
effect t [] x = x
effect t (op ∷ ops) x = effect t ops (if target_type op == t then target_state op else x)

effect-append :
    (t : ConditionType) (ps qs : List PatchOperation) (x : Option Condition)
    → effect t (ps ++ qs) x ≡ effect t qs (effect t ps x)
unfolding effect
effect-append t [] qs x = refl
effect-append t (p ∷ ps) qs x =
    effect-append t ps qs (if target_type p == t then target_state p else x)

module _ (now : Time) (o : ApplyOptions) where
  pub loop_effect :
      (cs : Conditions) (ops : List PatchOperation) (t : ConditionType)
      → Distinct cs
      → (apply_loop now o cs ops).error ≡ none
      → state_at t (apply_loop now o cs ops).latest ≡ effect t ops (state_at t cs)
  unfolding apply_loop effect
  loop_effect cs [] t d h = refl
  loop_effect cs (op ∷ ops) t d h = elim (Option-cases (apply_operation now o cs op).error) [
    | inl e ↦
        rw (e, apply_loop)
          (loop_effect (apply_operation now o cs op).latest ops t (operation-Distinct now o cs d op)
              (rw (e, apply_loop) at h)
            ∙ ap (effect t ops) (operation_effect now o cs d op t e))
    | inr (x, e) ↦ ground arith
  ]

-- The state that the change from `before` to `after` asks for, under one type, where the state
-- is `x` now.
unfoldable pub merged : Option Condition → Option Condition → Option Condition → Option Condition
merged none none x = x
merged none (some a) x = some (untimed a)
merged (some b) none x = none
merged (some b) (some a) x = if deep_equal a b then x else some (untimed a)

abbrev after_changes : Option Condition → Option Condition → Option Condition → Option Condition
after_changes before none x = x
after_changes none (some a) x = some (untimed a)
after_changes (some b) (some a) x = if deep_equal a b then x else some (untimed a)

effect-changes :
    (t : ConditionType) (before targets : Conditions) (x : Option Condition)
    → Distinct targets
    → effect t (changes before targets) x ≡ after_changes (find t before) (find t targets) x
unfolding effect changes find
effect-changes t before [] x d = ground arith
effect-changes t before (a ∷ targets) x d = elim (Option-cases (find a.type before)) [
  | inl e ↦ ground (
    arith,
    effect-changes t before targets x d.1,
    effect-changes t before targets (some (untimed a)) d.1,
    eq_iff a.type t,
  )
  | inr (b, e) ↦ ground (
    arith,
    effect-changes t before targets x d.1,
    effect-changes t before targets (some (untimed a)) d.1,
    eq_iff a.type t,
  )
]

abbrev after_removals : Option Condition → Option Condition → Option Condition → Option Condition
after_removals none after x = x
after_removals (some b) none x = none
after_removals (some b) (some a) x = x

effect-removals :
    (t : ConditionType) (after bases : Conditions) (x : Option Condition)
    → Distinct bases
    → effect t (removals after bases) x ≡ after_removals (find t bases) (find t after) x
unfolding effect removals find
effect-removals t after [] x d = refl
effect-removals t after (b ∷ bases) x d = ground (
  arith,
  effect-removals t after bases x d.1,
  effect-removals t after bases none d.1,
  eq_iff b.type t,
)

pub effect-new_patch :
    (t : ConditionType) (before after : Conditions) (x : Option Condition)
    → Distinct before
    → Distinct after
    → effect t (new_patch before after) x ≡ merged (find t before) (find t after) x
unfolding new_patch merged
effect-new_patch t before after x p q =
    rw (effect-append t (changes before after) (removals after before) x) (
      ground (
        arith,
        effect-changes t before after x q,
        effect-removals t after before (effect t (changes before after) x) p,
      ))

-- With each type at most once before, after and in the latest object, where `Apply` meets no
-- conflict, each type that was changed reads as it was changed to, and each other one as in the
-- latest object, up to times.
pub three_way_merge :
    (now : Time) (o : ApplyOptions) (before after latest : Conditions) (t : ConditionType)
    → Distinct before
    → Distinct after
    → Distinct latest
    → (apply_loop now o latest (new_patch before after)).error ≡ none
    → state_at t (apply_loop now o latest (new_patch before after)).latest
      ≡ merged (find t before) (find t after) (state_at t latest)
three_way_merge now o before after latest t p q d h =
    loop_effect now o latest (new_patch before after) t d h
    ∙ effect-new_patch t before after (state_at t latest) p q

-- Conditions that the caller owns, or all of them under the force option, never conflict.
pub owned_never_conflict :
    (now : Time) (o : ApplyOptions) (latest : Conditions) (ops : List PatchOperation)
    → All (λ op. overwrites o (target_type op) ≡ true) ops
    → (apply_loop now o latest ops).error ≡ none
unfolding apply_loop
owned_never_conflict now o latest [] h = refl
owned_never_conflict now o latest (op ∷ ops) h =
    let e = owned_operation now o latest op h.0 in
    rw (e, apply_loop) (owned_never_conflict now o (apply_operation now o latest op).latest ops h.1)
