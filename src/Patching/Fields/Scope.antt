-- ===== src/Patching/Fields/Scope.antt =====
-- What a focused copy of an object has.
use cluster_api_provider_vcl.Base.{
  ◌≡◌, refl, String, Bool, ◌||◌, Option, none, some, [], ◌∷◌, ◌==◌, inl, inr, eq_iff, eq_refl, ◌∙◌,
}
use cluster_api_provider_vcl.Base.Tests.{if◌then◌else◌, Bool-cases}
use cluster_api_provider_vcl.Patching.Fields.{
  PatchType, key, preserve_key, Fields, field_value, unstructured_copy,
}

module _ {J : Type 0} where
  -- The value of a field.
  unfoldable pub field : String → Fields J → Option J
  field k [] = none
  field k ((j, v) ∷ fields) = if j == k then some v else field k fields

  abbrev pub focused : (J → J) → Bool → PatchType → String → Option J → Option J
  focused remove b focus k none = none
  focused remove b focus k (some j) = some (field_value remove b focus k j)

  -- The copy for a patch has the fields that are always kept and the one that the patch is
  -- about, as in the object, except that the conditions are taken out of the status in a patch
  -- of the status of an object with conditions; and it has no other field.
  field-unstructured_copy :
      (remove : J → J) (focus : PatchType) (is_conditions_setter : Bool) (fields : Fields J)
      (k : String)
      → field k (unstructured_copy remove focus is_conditions_setter fields) ≡ (
          if k == key focus || preserve_key k
          then focused remove is_conditions_setter focus k (field k fields)
          else none)
  unfolding field unstructured_copy
  field-unstructured_copy remove focus b [] k =
      elim (Bool-cases (k == key focus || preserve_key k)) [ inl f ↦ rw f refl | inr f ↦ rw f refl ]
  field-unstructured_copy remove focus b ((j, v) ∷ fields) k =
      let rest = field-unstructured_copy remove focus b fields k in
      elim (Bool-cases (j == k)) [
        | inl e ↦ rw ((eq_iff j k).0 e) (elim (Bool-cases (k == key focus || preserve_key k)) [
          | inl f ↦ rw (f, eq_refl k) refl
          | inr f ↦ rw f (rest ∙ rw f refl)
        ])
        | inr e ↦ elim (Bool-cases (j == key focus || preserve_key j)) [
          | inl f ↦ rw (f, e) rest
          | inr f ↦ rw (f, e) rest
        ]
      ]
