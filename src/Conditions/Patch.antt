-- ===== src/Conditions/Patch.antt =====
-- pkg/util/conditions/patch.go: the difference of two condition lists, and its three-way merge.
pub mod State
pub mod Merging
pub mod Expected
pub mod RoundTrip
pub mod Stamped
pub mod Owned
use cluster_api_provider_vcl.Base.{
  ℕ, String, Bool, true, false, not, ◌&&◌, ◌||◌, Option, none, some, List, [], ◌∷◌, ◌++◌, ◌==◌,
}
use cluster_api_provider_vcl.Base.Tests.{if◌then◌else◌, nat_eq}
use cluster_api_provider_vcl.Base.Lists.{exists}
use cluster_api_provider_vcl.Api.Condition.{Condition, Conditions, ConditionType, Time}
use cluster_api_provider_vcl.Conditions.Getter.{find}
use cluster_api_provider_vcl.Conditions.Setter.{has_same_state, set, delete}

-- The tag of an operation says which of its two conditions are there: the constructors are the
-- tags, with those conditions.
pub data PatchOperation : Type 0 where
  add_condition_patch : Condition → PatchOperation
  change_condition_patch : (after before : Condition) → PatchOperation
  remove_condition_patch : Condition → PatchOperation

-- `reflect.DeepEqual` on conditions, where equal times are equal instants.
unfoldable pub deep_equal : Condition → Condition → Bool
unfolding has_same_state
deep_equal i j = has_same_state i j && nat_eq i.last_transition_time j.last_transition_time

-- The first loop of `NewPatch`, over the target conditions.
unfoldable pub changes : Conditions → Conditions → List PatchOperation
changes before [] = []
changes before (target ∷ targets) =
    let rest = changes before targets in
    elim (find target.type before) [
      | none ↦ add_condition_patch target ∷ rest
      | some current ↦
          if not (deep_equal target current)
          then change_condition_patch target current ∷ rest
          else rest
    ]

-- The second loop, over the conditions before.
unfoldable pub removals : Conditions → Conditions → List PatchOperation
removals after [] = []
removals after (base ∷ bases) =
    let rest = removals after bases in
    elim (find base.type after) [ none ↦ remove_condition_patch base ∷ rest | some target ↦ rest ]

unfoldable pub new_patch : Conditions → Conditions → List PatchOperation
unfolding changes removals
new_patch before after = changes before after ++ removals after before

pub record ApplyOptions : Type 0 where
  pub owned_conditions : List ConditionType
  pub force_overwrite : Bool

unfoldable pub is_owned_condition : ApplyOptions → ConditionType → Bool
unfolding exists
is_owned_condition o t = exists (λ i. i == t) o.owned_conditions

abbrev pub ApplyOption : Type 0
ApplyOption = ApplyOptions → ApplyOptions

unfoldable pub with_owned_conditions : List ConditionType → ApplyOption
with_owned_conditions t c = record c { owned_conditions = t }

unfoldable pub with_force_overwrite : Bool → ApplyOption
with_force_overwrite v c = record c { force_overwrite = v }

-- The errors of `Apply`, with the type that the message names.
pub data ApplyError : Type 0 where
  add_conflict change_deleted change_conflict remove_conflict : ConditionType → ApplyError

-- What one operation leaves: the latest conditions, the operation (a write stamps the condition
-- that the operation points to), and the error that ends the loop.
pub record Applied : Type 0 where
  pub latest : Conditions
  pub operation : PatchOperation
  pub error : Option ApplyError

unfoldable pub overwrites : ApplyOptions → ConditionType → Bool
unfolding is_owned_condition
overwrites o t = o.force_overwrite || is_owned_condition o t

-- The body of the loop in `Apply`.
unfoldable pub apply_operation : Time → ApplyOptions → Conditions → PatchOperation → Applied
apply_operation now o latest (add_condition_patch after) =
    let (written, stamped) = set now latest after in
    let put : Applied = record {
      latest = written;
      operation = add_condition_patch stamped;
      error = none;
    } in
    let same : Applied = record {
      latest = latest;
      operation = add_condition_patch after;
      error = none;
    } in
    if overwrites o after.type then put else elim (find after.type latest) [
      | none ↦ put
      | some l ↦
          if not (has_same_state l after)
          then record same { error = some (add_conflict after.type) }
          else same
    ]
apply_operation now o latest (change_condition_patch after before) =
    let (written, stamped) = set now latest after in
    let put : Applied = record {
      latest = written;
      operation = change_condition_patch stamped before;
      error = none;
    } in
    let same : Applied = record {
      latest = latest;
      operation = change_condition_patch after before;
      error = none;
    } in
    if overwrites o after.type then put else elim (find after.type latest) [
      | none ↦ record same { error = some (change_deleted after.type) }
      | some l ↦
          if not (deep_equal l before)
          then (if not (has_same_state l after)
              then record same { error = some (change_conflict after.type) }
              else same)
          else put
    ]
apply_operation now o latest (remove_condition_patch before) =
    let gone : Applied = record {
      latest = delete latest before.type;
      operation = remove_condition_patch before;
      error = none;
    } in
    if overwrites o before.type then gone else elim (find before.type latest) [
      | none ↦ gone
      | some l ↦
          if not (has_same_state l before)
          then record {
            latest = latest;
            operation = remove_condition_patch before;
            error = some (remove_conflict before.type);
          }
          else gone
    ]

-- What `Apply` leaves: the latest conditions, the patch, and its error.
pub record Outcome : Type 0 where
  pub latest : Conditions
  pub patch : List PatchOperation
  pub error : Option ApplyError

unfoldable pub apply_loop : Time → ApplyOptions → Conditions → List PatchOperation → Outcome
unfolding apply_operation
apply_loop now o latest [] = record { latest = latest; patch = []; error = none }
apply_loop now o latest (op ∷ ops) =
    let done = apply_operation now o latest op in
    let rest = apply_loop now o done.latest ops in
    elim done.error [
      | none ↦ record rest { patch = done.operation ∷ rest.patch }
      | some e ↦ record { latest = done.latest; patch = done.operation ∷ ops; error = some e }
    ]

unfoldable pub apply_apply_options : List ApplyOption → ApplyOptions → ApplyOptions
apply_apply_options [] m = m
apply_apply_options (o ∷ os) m = apply_apply_options os (o m)

-- `Apply`; on the empty patch it returns before it reads its options.
unfoldable pub apply : Time → Conditions → List PatchOperation → List ApplyOption → Outcome
unfolding apply_loop apply_apply_options
apply now latest [] options = record { latest = latest; patch = []; error = none }
apply now latest (op ∷ ops) options =
    apply_loop now
      (apply_apply_options options (record { owned_conditions = []; force_overwrite = false }))
      latest (op ∷ ops)

unfoldable pub is_zero : List PatchOperation → Bool
is_zero [] = true
is_zero (op ∷ ops) = false
