-- ===== src/Conditions/Distinct.antt =====
-- Condition lists in which no type occurs twice, and what the package's sorts do to them.
use cluster_api_provider_vcl.Base.{
  ◌≡◌, refl, Bool, none, some, [], ◌∷◌, ◌++◌, arith, ◌==◌, eq_iff, inl, inr, ◌∙◌,
}
use cluster_api_provider_vcl.Base.Tests.{if◌then◌else◌, Bool-cases, Option-cases}
use cluster_api_provider_vcl.Base.Sort.{insert, sort}
use cluster_api_provider_vcl.Api.Condition.{Condition, Conditions, ConditionType}
use cluster_api_provider_vcl.Conditions.Getter.{find}

abbrev pub Distinct : Conditions → Type 0
Distinct [] = Unit
Distinct (c ∷ cs) = (find c.type cs ≡ none) × Distinct cs

pub find-type :
    (t : ConditionType) (cs : Conditions) {c : Condition} → find t cs ≡ some c → c.type ≡ t
unfolding find
find-type t [] h = cc
find-type t (e ∷ es) {c} h = ground (arith, eq_iff e.type t, find-type t es {c = c})

pub find-append :
    (t : ConditionType) (cs : Conditions) (c : Condition)
    → find t cs ≡ none
    → find t (cs ++ c ∷ []) ≡ (if c.type == t then some c else none)
unfolding find
find-append t [] c h = refl
find-append t (e ∷ es) c h = ground (arith, find-append t es c)

pub find-append_some :
    (t : ConditionType) (cs ds : Conditions) {c : Condition}
    → find t cs ≡ some c
    → find t (cs ++ ds) ≡ some c
unfolding find
find-append_some t [] ds h = cc
find-append_some t (e ∷ es) ds {c} h = ground (arith, find-append_some t es ds {c = c})

pub Distinct-append :
    (cs : Conditions) (c : Condition)
    → find c.type cs ≡ none
    → Distinct cs
    → Distinct (cs ++ c ∷ [])
unfolding find
Distinct-append [] c h d = (refl, tt)
Distinct-append (e ∷ es) c h d = (
  ground (arith, find-append e.type es c, eq_iff e.type c.type, eq_iff c.type e.type),
  Distinct-append es c (ground arith) d.1,
)

module _ (less : Condition → Condition → Bool) where
  find-insert :
      (t : ConditionType) (c : Condition) (cs : Conditions)
      → find c.type cs ≡ none
      → find t (insert less c cs) ≡ (if c.type == t then some c else find t cs)
  unfolding find insert
  find-insert t c [] h = refl
  find-insert t c (e ∷ es) h =
      ground (arith, find-insert t c es, eq_iff e.type t, eq_iff c.type t, eq_iff e.type c.type)

  pub find-sort :
      (t : ConditionType) (cs : Conditions) → Distinct cs → find t (sort less cs) ≡ find t cs
  unfolding find sort
  find-sort t [] d = refl
  find-sort t (c ∷ cs) d =
      rw (find-insert t c (sort less cs) (find-sort c.type cs d.1 ∙ d.0), find-sort t cs d.1)

  Distinct-insert :
      (c : Condition) (cs : Conditions)
      → find c.type cs ≡ none
      → Distinct cs
      → Distinct (insert less c cs)
  unfolding find insert
  Distinct-insert c [] h d = (refl, tt)
  Distinct-insert c (e ∷ es) h d = elim (Bool-cases (less e c)) [
    | inl p ↦ rw p (
        ground (
          arith,
          find-insert e.type c es,
          eq_iff e.type c.type,
          eq_iff c.type e.type,
          Distinct-insert c es,
        ))
    | inr p ↦ rw p (h, d)
  ]

  pub Distinct-sort : (cs : Conditions) → Distinct cs → Distinct (sort less cs)
  unfolding sort
  Distinct-sort [] d = tt
  Distinct-sort (c ∷ cs) d =
      Distinct-insert c (sort less cs) (find-sort c.type cs d.1 ∙ d.0) (Distinct-sort cs d.1)

-- The list with the first condition of the type replaced.
unfoldable pub put : Condition → Conditions → Conditions
put c [] = []
put c (e ∷ es) = let rest = put c es in if e.type == c.type then c ∷ es else e ∷ rest

pub find-put :
    (t : ConditionType) (c e : Condition) (cs : Conditions)
    → find c.type cs ≡ some e
    → find t (put c cs) ≡ (if c.type == t then some c else find t cs)
unfolding find put
find-put t c e [] h = cc
find-put t c e (x ∷ xs) h =
    ground (arith, find-put t c e xs, eq_iff x.type t, eq_iff c.type t, eq_iff x.type c.type)

put-none : (c : Condition) (cs : Conditions) → find c.type cs ≡ none → put c cs ≡ cs
unfolding find put
put-none c [] h = refl
put-none c (x ∷ xs) h = ground (arith, put-none c xs)

pub Distinct-put : (c : Condition) (cs : Conditions) → Distinct cs → Distinct (put c cs)
unfolding put find
Distinct-put c [] d = tt
Distinct-put c (x ∷ xs) d = elim (Option-cases (find c.type xs)) [
  | inl h ↦ ground (arith, eq_iff x.type c.type, put-none c xs h, Distinct-put c xs)
  | inr (e, h) ↦ ground (
    arith,
    find-put x.type c e xs h,
    eq_iff x.type c.type,
    eq_iff c.type x.type,
    Distinct-put c xs,
  )
]
