-- ===== src/Base/Sort.antt =====
-- sort.Slice and sort.Sort: a stable insertion sort, which is what the standard library runs on
-- up to twelve elements.
use mathlib.Core.Path.{◌≡◌, refl}
use mathlib.Core.Bool.{Bool, true, false}
use mathlib.Core.List.{List, [], ◌∷◌, Perm}
use mathlib.Core.List.Perm
use native.Mathlib.Omega.{arith}
use mathlib.Core.Logic.{◌≢◌, inl, inr}
use cluster_api_provider_vcl.Base.Tests.{if◌then◌else◌, Bool-cases}
use cluster_api_provider_vcl.Base.Lists.{All}

module _ {ℓ} {A : Type ℓ} (less : A → A → Bool) where
  unfoldable pub insert : A → List A → List A
  insert x [] = x ∷ []
  insert x (y ∷ ys) = let rest = insert x ys in if less y x then y ∷ rest else x ∷ y ∷ ys

  unfoldable pub sort : List A → List A
  sort [] = []
  sort (x ∷ xs) = insert x (sort xs)

  -- What `less` has to be for a sort to make sense.
  pub record StrictOrder : Type ℓ where
    pub asymm : (a b : A) → less a b ≡ true → less b a ≡ false
    pub not_trans : (a b c : A) → less b a ≡ false → less c b ≡ false → less c a ≡ false

  -- No element is less than one before it.
  abbrev pub Ordered : List A → Type 0
  Ordered [] = Unit
  Ordered (x ∷ xs) = All (λ y. less y x ≡ false) xs × Ordered xs

  pub All-insert {κ} : (P : A → Type κ) (x : A) (xs : List A) → P x → All P xs → All P (insert x xs)
  unfolding insert
  All-insert P x [] h hs = (h, tt)
  All-insert P x (y ∷ ys) h hs = elim (Bool-cases (less y x)) [
    | inl e ↦ rw e (hs.0, All-insert P x ys h hs.1)
    | inr e ↦ rw e (h, hs)
  ]

  pub All-sort {κ} : (P : A → Type κ) (xs : List A) → All P xs → All P (sort xs)
  unfolding sort
  All-sort P [] h = tt
  All-sort P (x ∷ xs) h = All-insert P x (sort xs) h.0 (All-sort P xs h.1)

  pub insert-ne-nil : (x : A) (xs : List A) → insert x xs ≢ []
  unfolding insert
  insert-ne-nil x [] e = cc
  insert-ne-nil x (y ∷ ys) e = ground arith

  insert-perm : (x : A) (xs : List A) → Perm (insert x xs) (x ∷ xs)
  unfolding insert
  insert-perm x [] = Perm.refl (x ∷ [])
  insert-perm x (y ∷ ys) = elim (Bool-cases (less y x)) [
    | inl e ↦ rw e (Perm.trans (Perm.cons y (insert-perm x ys)) (Perm.swap x y ys))
    | inr e ↦ rw e (Perm.refl (x ∷ y ∷ ys))
  ]

  pub sort-perm : (xs : List A) → Perm (sort xs) xs
  unfolding sort
  sort-perm [] = Perm.refl []
  sort-perm (x ∷ xs) = Perm.trans (insert-perm x (sort xs)) (Perm.cons x (sort-perm xs))

  sort-fixed : (x : A) (xs : List A) → All (λ y. less y x ≡ false) xs → insert x xs ≡ x ∷ xs
  unfolding insert
  sort-fixed x [] h = refl
  sort-fixed x (y ∷ ys) h = rw (h.0)

  -- Sorting an ordered list changes nothing.
  sort_of_Ordered : (xs : List A) → Ordered xs → sort xs ≡ xs
  unfolding sort
  sort_of_Ordered [] h = refl
  sort_of_Ordered (x ∷ xs) h = rw (sort_of_Ordered xs h.1) (sort-fixed x xs h.0)

module _ {ℓ} {A : Type ℓ} (less : A → A → Bool) (o : StrictOrder less) where
  All-not_less :
      (x y : A) (ys : List A)
      → less y x ≡ false
      → All (λ z. less z y ≡ false) ys
      → All (λ z. less z x ≡ false) ys
  All-not_less x y [] h hs = tt
  All-not_less x y (z ∷ zs) h hs = (o.not_trans x y z h hs.0, All-not_less x y zs h hs.1)

  insert-Ordered : (x : A) (xs : List A) → Ordered less xs → Ordered less (insert less x xs)
  unfolding insert
  insert-Ordered x [] h = (tt, tt)
  insert-Ordered x (y ∷ ys) h = elim (Bool-cases (less y x)) [
    | inl e ↦
        rw e (
          All-insert less (λ z. less z y ≡ false) x ys (o.asymm y x e) h.0,
          insert-Ordered x ys h.1,
        )
    | inr e ↦ rw e ((e, All-not_less x y ys e h.0), h)
  ]

  -- The result of a sort is ordered.
  pub sort-Ordered : (xs : List A) → Ordered less (sort less xs)
  unfolding sort
  sort-Ordered [] = tt
  sort-Ordered (x ∷ xs) = insert-Ordered x (sort less xs) (sort-Ordered xs)
