-- ===== src/Conditions/Setter/Canonical.antt =====
-- An object whose conditions are in order and of distinct types is determined by what a reader
-- finds: the conditions are a finite map, and writes commute as those of a map do.
use cluster_api_provider_vcl.Base.{
  ◌≡◌, ◌≢◌, refl, false, none, some, [], ◌∷◌, arith, eq_iff, eq_refl,
}
use mathlib.Core.Path.{ap₂}
use cluster_api_provider_vcl.Base.Lists.{All}
use cluster_api_provider_vcl.Base.Text.{lt_antisymm}
use cluster_api_provider_vcl.Base.Sort.{Ordered}
use cluster_api_provider_vcl.Api.Condition.{Condition, Conditions, ConditionType, Time}
use cluster_api_provider_vcl.Conditions.Getter.{find}
use cluster_api_provider_vcl.Conditions.Distinct.{Distinct}
use cluster_api_provider_vcl.Conditions.Setter.{lexicographic_less, set}
use cluster_api_provider_vcl.Conditions.Setter.Lookup.{find-set, set-Distinct, set-Ordered}

pub record IsCanonical (cs : Conditions) : Type 0 where
  pub distinct : Distinct cs
  pub ordered : Ordered lexicographic_less cs

-- No condition of an ordered list comes before its head.
find-not_less :
    (c e : Condition) (t : ConditionType) (cs : Conditions)
    → All (λ y. lexicographic_less y c ≡ false) cs
    → find t cs ≡ some e
    → lexicographic_less e c ≡ false
unfolding find
find-not_less c e t [] h f = cc
find-not_less c e t (x ∷ xs) h f = ground (arith, find-not_less c e t xs)

-- Conditions of which neither comes first have one type.
less_antisymm :
    (a b : Condition)
    → lexicographic_less a b ≡ false
    → lexicographic_less b a ≡ false
    → a.type ≡ b.type
unfolding lexicographic_less
less_antisymm a b h k =
    ground (arith, eq_iff a.type "Ready", eq_iff b.type "Ready", lt_antisymm a.type b.type)

-- Where two ordered lists read alike, they have the same head.
same_head :
    (a b : Condition) (cs ds : Conditions)
    → Ordered lexicographic_less (a ∷ cs)
    → Ordered lexicographic_less (b ∷ ds)
    → ((t : ConditionType) → find t (a ∷ cs) ≡ find t (b ∷ ds))
    → a ≡ b
unfolding find
same_head a b cs ds p q h = ground (
  arith,
  h a.type,
  h b.type,
  find-not_less b a a.type ds q.0,
  find-not_less a b b.type cs p.0,
  less_antisymm a b,
  eq_iff b.type a.type,
  eq_refl a.type,
  eq_refl b.type,
)

same_tail :
    (a b : Condition) (cs ds : Conditions) (t : ConditionType)
    → a ≡ b
    → find a.type cs ≡ none
    → find b.type ds ≡ none
    → find t (a ∷ cs) ≡ find t (b ∷ ds)
    → find t cs ≡ find t ds
unfolding find
same_tail a b cs ds t e x y h = ground (arith, eq_iff a.type t)

-- Two lists that are ordered, each type at most once, are equal if a reader finds the same in both
-- under every type.
pub IsCanonical-ext :
    (cs ds : Conditions)
    → IsCanonical cs
    → IsCanonical ds
    → ((t : ConditionType) → find t cs ≡ find t ds)
    → cs ≡ ds
unfolding find
IsCanonical-ext [] [] p q h = refl
IsCanonical-ext [] (b ∷ ds) p q h = ground (arith, h b.type, eq_refl b.type)
IsCanonical-ext (a ∷ cs) [] p q h = ground (arith, h a.type, eq_refl a.type)
IsCanonical-ext (a ∷ cs) (b ∷ ds) p q h =
    let e = same_head a b cs ds p.ordered q.ordered h in
    ap₂ ◌∷◌ e (
      IsCanonical-ext cs ds (record { distinct = p.distinct.1; ordered = p.ordered.1 })
        (record { distinct = q.distinct.1; ordered = q.ordered.1 })
        (λ t. same_tail a b cs ds t e p.distinct.0 q.distinct.0 (h t)))

set-IsCanonical :
    (now : Time) (cs : Conditions) (c : Condition) → Distinct cs → IsCanonical (set now cs c).0
set-IsCanonical now cs c d = record {
  distinct = set-Distinct now cs c d;
  ordered = set-Ordered now cs c;
}

-- Writes of two different types commute, their times included, where each type occurs at most
-- once.
pub set_comm :
    (now later : Time) (cs : Conditions) (c d : Condition)
    → Distinct cs
    → c.type ≢ d.type
    → (set later (set now cs c).0 d).0 ≡ (set now (set later cs d).0 c).0
set_comm now later cs c d k n =
    IsCanonical-ext _ _ (set-IsCanonical later (set now cs c).0 d (set-Distinct now cs c k))
      (set-IsCanonical now (set later cs d).0 c (set-Distinct later cs d k))
      λ t. ground (
        arith,
        find-set later (set now cs c).0 d t (set-Distinct now cs c k),
        find-set now cs c t k,
        find-set now cs c d.type k,
        find-set now (set later cs d).0 c t (set-Distinct later cs d k),
        find-set later cs d t k,
        find-set later cs d c.type k,
        eq_iff c.type d.type,
        eq_iff d.type c.type,
        eq_iff c.type t,
        eq_iff d.type t,
      )
