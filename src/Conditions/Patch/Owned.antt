-- ===== src/Conditions/Patch/Owned.antt =====
-- A difference that is about some types only, and `Apply` with these types owned.
use cluster_api_provider_vcl.Base.{
  ◌≡◌, ◌∙◌, refl, sym, Bool, true, false, none, some, List, [], ◌∷◌, ◌++◌, arith, eq_iff, eq_refl,
  inl, inr,
}
use cluster_api_provider_vcl.Base.Tests.{Bool-cases, Option-cases}
use cluster_api_provider_vcl.Base.Lists.{All}
use cluster_api_provider_vcl.Api.Condition.{Condition, Conditions, ConditionType, Time}
use cluster_api_provider_vcl.Conditions.Getter.{find}
use cluster_api_provider_vcl.Conditions.Distinct.{Distinct}
use cluster_api_provider_vcl.Conditions.Patch.{
  PatchOperation, ApplyOptions, overwrites, apply_loop, deep_equal, changes, removals, new_patch,
}
use cluster_api_provider_vcl.Conditions.Patch.State.{target_type, state_at}
use cluster_api_provider_vcl.Conditions.Patch.Merging.{
  merged, three_way_merge, owned_never_conflict,
}
use cluster_api_provider_vcl.Conditions.Patch.Expected.{deep_equal_self}

-- Every condition of the first list of a type that the test refuses is in the second list.
abbrev pub StaysIn : (ConditionType → Bool) → Conditions → Conditions → Type 0
StaysIn p cs ds =
    (t : ConditionType) (c : Condition) → p t ≡ false → find t cs ≡ some c → find t ds ≡ some c

module _ (p : ConditionType → Bool) where
  tail-StaysIn :
      (c : Condition) (cs ds : Conditions)
      → find c.type cs ≡ none
      → StaysIn p (c ∷ cs) ds
      → StaysIn p cs ds
  unfolding find
  tail-StaysIn c cs ds n h t e f q = h t e f (ground (arith, eq_iff c.type t))

  -- The operation is about a type that the test accepts.
  abbrev pub Accepts : PatchOperation → Type 0
  Accepts op = p (target_type op) ≡ true

  changes-Accepts :
      (before after : Conditions)
      → Distinct after
      → StaysIn p after before
      → All Accepts (changes before after)
  unfolding changes find
  changes-Accepts before [] d h = tt
  changes-Accepts before (c ∷ cs) d h =
      let rest = changes-Accepts before cs d.1 (tail-StaysIn c cs before d.0 h) in
      elim (Bool-cases (p c.type)) [
        | inl a ↦ elim (Option-cases (find c.type before)) [
          | inl e ↦ rw (e, All) (a, rest)
          | inr (b, e) ↦ elim (Bool-cases (deep_equal c b)) [
            | inl q ↦ rw (e, q, All) rest
            | inr q ↦ rw (e, q, All) (a, rest)
          ]
        ]
        | inr a ↦
            let e : find c.type before ≡ some c = h c.type c a (rw (find, eq_refl c.type) refl) in
            rw (e, deep_equal_self c, All) rest
      ]

  removals-Accepts :
      (after before : Conditions)
      → Distinct before
      → StaysIn p before after
      → All Accepts (removals after before)
  unfolding removals find
  removals-Accepts after [] d h = tt
  removals-Accepts after (b ∷ bs) d h =
      let rest = removals-Accepts after bs d.1 (tail-StaysIn b bs after d.0 h) in
      elim (Bool-cases (p b.type)) [
        | inl a ↦ elim (Option-cases (find b.type after)) [
          | inl e ↦ rw (e, All) (a, rest)
          | inr (c, e) ↦ rw (e, All) rest
        ]
        | inr a ↦
            let e : find b.type after ≡ some b = h b.type b a (rw (find, eq_refl b.type) refl) in
            rw (e, All) rest
      ]

  All-append :
      (ops more : List PatchOperation)
      → All Accepts ops
      → All Accepts more
      → All Accepts (ops ++ more)
  All-append [] more h k = k
  All-append (op ∷ ops) more h k = (h.0, All-append ops more h.1 k)

  -- With each type at most once, and the conditions of the types that the test refuses the same
  -- before and after, every operation is about a type that the test accepts.
  pub new_patch-Accepts :
      (before after : Conditions)
      → Distinct before
      → Distinct after
      → ((t : ConditionType) → p t ≡ false → find t after ≡ find t before)
      → All Accepts (new_patch before after)
  unfolding new_patch
  new_patch-Accepts before after d e same =
      All-append (changes before after) (removals after before)
        (changes-Accepts before after e λ t c f q. sym (same t f) ∙ q)
        (removals-Accepts after before d λ t c f q. same t f ∙ q)

-- With each type at most once before, after and in the latest object, and no change but of types
-- that the caller owns or, under the force option, of any, `Apply` meets no conflict whatever the
-- others wrote: each type that was changed reads as it was changed to, and each other one as in
-- the latest object, up to times.
pub apply_loop-overwrites :
    (now : Time) (o : ApplyOptions) (before after latest : Conditions)
    → Distinct before
    → Distinct after
    → Distinct latest
    → ((t : ConditionType) → overwrites o t ≡ false → find t after ≡ find t before)
    → ((apply_loop now o latest (new_patch before after)).error ≡ none)
      × ((t : ConditionType)
          → state_at t (apply_loop now o latest (new_patch before after)).latest
            ≡ merged (find t before) (find t after) (state_at t latest))
apply_loop-overwrites now o before after latest p q d same =
    let e =
      owned_never_conflict now o latest (new_patch before after)
        (new_patch-Accepts (overwrites o) before after p q same) in
    (e, λ t. three_way_merge now o before after latest t p q d e)
