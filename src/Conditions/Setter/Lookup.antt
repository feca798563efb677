-- ===== src/Conditions/Setter/Lookup.antt =====
-- What a reader finds after `Set` and `Delete`.
use cluster_api_provider_vcl.Base.{
  ◌≡◌, ◌⊎◌, refl, true, Option, none, some, [], ◌∷◌, ◌++◌, arith, ◌==◌, eq_iff, inl, inr, ◌∙◌, ap,
}
use cluster_api_provider_vcl.Base.Tests.{if◌then◌else◌, Option-cases}
use cluster_api_provider_vcl.Base.Lists.{keep}
use cluster_api_provider_vcl.Base.Sort.{sort, Ordered, sort-Ordered}
use cluster_api_provider_vcl.Conditions.Setter.Order.{lexicographic_less-StrictOrder}
use cluster_api_provider_vcl.Api.Condition.{Condition, Conditions, ConditionType, Time}
use cluster_api_provider_vcl.Conditions.Getter.{find}
use cluster_api_provider_vcl.Conditions.Distinct.{
  Distinct, put, find-put, Distinct-put, find-type, find-append, find-append_some, Distinct-append,
  find-sort, Distinct-sort,
}
use cluster_api_provider_vcl.Conditions.Setter.{
  has_same_state, truncate_second, lexicographic_less, replace, stamp, set, delete,
}

-- The condition that an object has after `Set`, by the one that it had: an unchanged one stays,
-- a changed one is stamped with the time, and a new one keeps a time that is already set.
unfoldable pub written : Time → Option Condition → Condition → Condition
unfolding stamp has_same_state
written now none c = stamp now c
written now (some e) c =
    if has_same_state e c then e else record c { last_transition_time = truncate_second now }

-- What is equal in state and in time is equal.
pub same_state-eq :
    (e c : Condition)
    → has_same_state e c ≡ true
    → record c { last_transition_time = e.last_transition_time } ≡ e
unfolding has_same_state
same_state-eq e c h = ground (
  arith,
  eq_iff e.type c.type,
  eq_iff e.status c.status,
  eq_iff e.reason c.reason,
  eq_iff e.severity c.severity,
  eq_iff e.message c.message,
)

written-type :
    (now : Time) (o : Option Condition) (c : Condition)
    → (o ≡ none) ⊎ ((e : Condition) × (o ≡ some e) × (e.type ≡ c.type))
    → (written now o c).type ≡ c.type
unfolding written
written-type now o c h = ground arith

replace-none :
    (now : Time) (c : Condition) (cs : Conditions) → find c.type cs ≡ none → replace now c cs ≡ none
unfolding replace find
replace-none now c [] h = refl
replace-none now c (e ∷ es) h = ground (arith, replace-none now c es)

replace-some :
    (now : Time) (c e : Condition) (cs : Conditions)
    → find c.type cs ≡ some e
    → replace now c cs ≡ some (put (written now (some e) c) cs, written now (some e) c)
unfolding replace find put written
replace-some now c e [] h = cc
replace-some now c e (x ∷ xs) h = ground (
  arith,
  replace-some now c e xs,
  same_state-eq x c,
  eq_iff x.type c.type,
  find-type c.type xs {c = e},
)

set_new :
    (now : Time) (cs : Conditions) (c : Condition)
    → find c.type cs ≡ none
    → set now cs c ≡ (sort lexicographic_less (cs ++ stamp now c ∷ []), stamp now c)
unfolding set
set_new now cs c h = rw (replace-none now c cs h, set)

set_old :
    (now : Time) (cs : Conditions) (c e : Condition)
    → find c.type cs ≡ some e
    → set now cs c
      ≡ (sort lexicographic_less (put (written now (some e) c) cs), written now (some e) c)
unfolding set
set_old now cs c e h = rw (replace-some now c e cs h, set)

stamp-type : (now : Time) (c : Condition) → (stamp now c).type ≡ c.type
unfolding stamp
stamp-type now c = ground arith

-- Both branches of `Set` put a condition of the type in its place, and sort.
abbrev Places : Conditions → Condition → Conditions → Type 0
Places cs w ds =
    Distinct ds × ((t : ConditionType) → find t ds ≡ (if w.type == t then some w else find t cs))

append-Places :
    (cs : Conditions) (w : Condition)
    → find w.type cs ≡ none
    → Distinct cs
    → Places cs w (cs ++ w ∷ [])
append-Places cs w h d = (
  Distinct-append cs w h d,
  λ t. elim (Option-cases (find t cs)) [
    | inl n ↦ rw (find-append t cs w n) (ground arith)
    | inr (e, n) ↦ ground (arith, find-append_some t cs (w ∷ []) n, eq_iff w.type t)
  ],
)

put-Places :
    (cs : Conditions) (w e : Condition)
    → find w.type cs ≡ some e
    → Distinct cs
    → Places cs w (put w cs)
put-Places cs w e h d = (Distinct-put w cs d, λ t. find-put t w e cs h)

sort-Places :
    (cs : Conditions) (w : Condition) (ds : Conditions)
    → Places cs w ds
    → Places cs w (sort lexicographic_less ds)
sort-Places cs w ds p =
    (Distinct-sort lexicographic_less ds p.0, λ t. find-sort lexicographic_less t ds p.0 ∙ p.1 t)

set-Places :
    (now : Time) (cs : Conditions) (c : Condition)
    → Distinct cs
    → Places cs (written now (find c.type cs) c) (set now cs c).0
unfolding written stamp
set-Places now cs c d = elim (Option-cases (find c.type cs)) [
  | inl h ↦
      rw (h, set_new now cs c h)
        (sort-Places cs (stamp now c) _
          (append-Places cs (stamp now c) (rw (stamp-type now c) h) d))
  | inr (e, h) ↦
      rw (h, set_old now cs c e h)
        (sort-Places cs (written now (some e) c) _ (
          put-Places cs (written now (some e) c) e
            (rw (written-type now (some e) c (inr (e, refl, find-type c.type cs h))) h) d))
]

-- The condition that `Set` writes into its argument is the one that the object has afterwards.
pub set-written :
    (now : Time) (cs : Conditions) (c : Condition)
    → (set now cs c).1 ≡ written now (find c.type cs) c
unfolding written
set-written now cs c = elim (Option-cases (find c.type cs)) [
  | inl h ↦ rw (set_new now cs c h, h)
  | inr (e, h) ↦ rw (set_old now cs c e h, h)
]

written-find-type :
    (now : Time) (cs : Conditions) (c : Condition) → (written now (find c.type cs) c).type ≡ c.type
written-find-type now cs c =
    written-type now (find c.type cs) c (elim (Option-cases (find c.type cs)) [
      | inl h ↦ inl h
      | inr (e, h) ↦ inr (e, h, find-type c.type cs h)
    ])

-- Where each type occurs at most once, a reader finds what was written under the type that was
-- set, and under every other type what it found before.
pub find-set :
    (now : Time) (cs : Conditions) (c : Condition) (t : ConditionType)
    → Distinct cs
    → find t (set now cs c).0
      ≡ (if c.type == t then some (written now (find c.type cs) c) else find t cs)
find-set now cs c t d =
    (set-Places now cs c d).1 t
    ∙ ap (λ u. if u == t then some (written now (find c.type cs) c) else find t cs)
        (written-find-type now cs c)

-- `Set` leaves each type at most once, where that was so before.
pub set-Distinct :
    (now : Time) (cs : Conditions) (c : Condition) → Distinct cs → Distinct (set now cs c).0
set-Distinct now cs c d = (set-Places now cs c d).0

-- `Set` leaves the conditions in order, whatever the order was.
pub set-Ordered :
    (now : Time) (cs : Conditions) (c : Condition) → Ordered lexicographic_less (set now cs c).0
set-Ordered now cs c = elim (Option-cases (find c.type cs)) [
  | inl h ↦
      rw (set_new now cs c h) (sort-Ordered lexicographic_less lexicographic_less-StrictOrder _)
  | inr (e, h) ↦
      rw (set_old now cs c e h) (sort-Ordered lexicographic_less lexicographic_less-StrictOrder _)
]

-- A reader finds the conditions of the other types after `Delete`, and none of the deleted type.
pub find-delete :
    (cs : Conditions) (u t : ConditionType)
    → find t (delete cs u) ≡ (if u == t then none else find t cs)
unfolding find delete keep
find-delete [] u t = ground arith
find-delete (c ∷ cs) u t =
    ground (arith, find-delete cs u t, eq_iff c.type t, eq_iff c.type u, eq_iff u t)

pub delete-Distinct : (cs : Conditions) (u : ConditionType) → Distinct cs → Distinct (delete cs u)
unfolding delete keep
delete-Distinct [] u d = tt
delete-Distinct (c ∷ cs) u d = ground (arith, delete-Distinct cs u, find-delete cs u c.type)
