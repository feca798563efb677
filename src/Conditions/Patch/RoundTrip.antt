-- ===== src/Conditions/Patch/RoundTrip.antt =====
-- A patch that is applied to the conditions it was computed from meets no conflict, and gives the
-- state that it was computed for.
use cluster_api_provider_vcl.Conditions.Patch.Expected.{
  IsExpected, Avoids, AreDistinct, expected_loop, deep_equal_self,
}
use cluster_api_provider_vcl.Base.{
  ◌≡◌, refl, ◌∙◌, Option, none, some, [], ◌∷◌, ◌++◌, arith, eq_iff, eq_refl, inl, inr, ◌⊎◌,
}
use cluster_api_provider_vcl.Base.Tests.{Option-cases}
use cluster_api_provider_vcl.Base.Lists.{All, All-imp, All-append}
use cluster_api_provider_vcl.Api.Condition.{Condition, Conditions, ConditionType, Time}
use cluster_api_provider_vcl.Conditions.Getter.{find}
use cluster_api_provider_vcl.Conditions.Distinct.{Distinct}
use cluster_api_provider_vcl.Conditions.Patch.{
  deep_equal, ApplyOptions, apply_loop, changes, removals, new_patch,
}
use cluster_api_provider_vcl.Conditions.Patch.State.{state, state_at, untimed_of_same}
use cluster_api_provider_vcl.Conditions.Patch.Merging.{merged, three_way_merge}

-- The operations of `NewPatch` expect the conditions before, and have distinct types.
changes-IsExpected :
    (before targets : Conditions) → All (λ p. IsExpected before p) (changes before targets)
unfolding changes
changes-IsExpected before [] = tt
changes-IsExpected before (a ∷ targets) = elim (Option-cases (find a.type before)) [
  | inl e ↦ rw (e, changes) (e, changes-IsExpected before targets)
  | inr (b, e) ↦ ground (arith, e, changes-IsExpected before targets)
]

changes-Avoids :
    (t : ConditionType) (before targets : Conditions)
    → find t targets ≡ none
    → Avoids t (changes before targets)
unfolding changes find
changes-Avoids t before [] h = tt
changes-Avoids t before (a ∷ targets) h =
    ground (arith, changes-Avoids t before targets, eq_iff a.type t, eq_iff t a.type)

changes-AreDistinct :
    (before targets : Conditions) → Distinct targets → AreDistinct (changes before targets)
unfolding changes
changes-AreDistinct before [] d = tt
changes-AreDistinct before (a ∷ targets) d =
    ground (arith, changes-Avoids a.type before targets d.0, changes-AreDistinct before targets d.1)

removals-Avoids :
    (t : ConditionType) (after bases : Conditions)
    → (find t bases ≡ none) ⊎ ((a : Condition) × (find t after ≡ some a))
    → Avoids t (removals after bases)
unfolding removals find
removals-Avoids t after [] h = tt
removals-Avoids t after (b ∷ bases) (inl h) =
    ground
      (arith, removals-Avoids t after bases (inl (ground arith)), eq_iff b.type t, eq_iff t b.type)
removals-Avoids t after (b ∷ bases) (inr (a, h)) =
    ground (arith, removals-Avoids t after bases (inr (a, h)), eq_iff t b.type)

removals-AreDistinct :
    (after bases : Conditions) → Distinct bases → AreDistinct (removals after bases)
unfolding removals
removals-AreDistinct after [] d = tt
removals-AreDistinct after (b ∷ bases) d =
    ground
      (arith, removals-Avoids b.type after bases (inl d.0), removals-AreDistinct after bases d.1)

-- In conditions of distinct types each one is found.
abbrev IsFound : Conditions → Condition → Type 0
IsFound cs c = find c.type cs ≡ some c

IsFound-cons :
    (e : Condition) (es : Conditions)
    → find e.type es ≡ none
    → (c : Condition) → IsFound es c
    → IsFound (e ∷ es) c
unfolding find
IsFound-cons e es n c h = ground (arith, eq_iff e.type c.type)

All-IsFound : (cs : Conditions) → Distinct cs → All (λ c. IsFound cs c) cs
unfolding find
All-IsFound [] d = tt
All-IsFound (c ∷ cs) d = (
  rw (eq_refl c.type),
  All-imp (λ e. IsFound cs e) _ cs (IsFound-cons c cs d.0) (All-IsFound cs d.1),
)

removals-IsExpected :
    (before after bases : Conditions)
    → All (λ b. IsFound before b) bases
    → All (λ p. IsExpected before p) (removals after bases)
unfolding removals
removals-IsExpected before after [] h = tt
removals-IsExpected before after (b ∷ bases) h =
    ground (arith, h.0, removals-IsExpected before after bases h.1)

-- The types of the removals are not among the target types.
AreDistinct-append :
    (after bases targets before : Conditions)
    → All (λ a. IsFound after a) targets
    → Distinct targets
    → Distinct bases
    → AreDistinct (changes before targets ++ removals after bases)
unfolding changes
AreDistinct-append after bases [] before f p q = removals-AreDistinct after bases q
AreDistinct-append after bases (a ∷ targets) before f p q =
    let avoid : Avoids a.type (changes before targets ++ removals after bases) =
      All-append _ (changes before targets) (removals after bases)
        (changes-Avoids a.type before targets p.0)
        (removals-Avoids a.type after bases (inr (a, f.0))) in
    ground (arith, avoid, AreDistinct-append after bases targets before f.1 p.1 q)

merged-state : (before after : Option Condition) → merged before after (state before) ≡ state after
unfolding merged deep_equal
merged-state none none = refl
merged-state none (some a) = refl
merged-state (some b) none = refl
merged-state (some b) (some a) = ground (arith, untimed_of_same a b)

-- With each type at most once in both, the patch from `before` to `after`, applied to `before`,
-- meets no conflict under any options, and every type reads in the result as it does in `after`,
-- up to the transition time.
pub apply-new_patch :
    (now : Time) (o : ApplyOptions) (before after : Conditions)
    → Distinct before
    → Distinct after
    → ((apply_loop now o before (new_patch before after)).error ≡ none)
      × ((t : ConditionType)
          → state_at t (apply_loop now o before (new_patch before after)).latest ≡ state_at t after)
unfolding new_patch state_at
apply-new_patch now o before after p q =
    let e =
      expected_loop now o before (changes before after ++ removals after before) p
        (AreDistinct-append after before after before (All-IsFound after q) q p)
        (All-append _ (changes before after) (removals after before)
          (changes-IsExpected before after)
          (removals-IsExpected before after before (All-IsFound before p))) in
    (
      e,
      λ t.
          three_way_merge now o before after before t p q p e
          ∙ merged-state (find t before) (find t after),
    )

changes-found :
    (before targets : Conditions)
    → All (λ a. IsFound before a) targets
    → changes before targets ≡ []
unfolding changes
changes-found before [] h = refl
changes-found before (a ∷ targets) h =
    rw (changes, h.0, deep_equal_self a) (changes-found before targets h.1)

removals-found :
    (after bases : Conditions) → All (λ b. IsFound after b) bases → removals after bases ≡ []
unfolding removals
removals-found after [] h = refl
removals-found after (b ∷ bases) h = rw (removals, h.0) (removals-found after bases h.1)

-- From conditions of distinct types to themselves there is nothing to do.
pub new_patch-same : (cs : Conditions) → Distinct cs → new_patch cs cs ≡ []
unfolding new_patch
new_patch-same cs d =
    rw (changes-found cs cs (All-IsFound cs d), removals-found cs cs (All-IsFound cs d)) refl
