-- ===== src/Patching/Fields.antt =====
-- pkg/util/patch/utils.go: an object as its top-level fields, and the part that a patch is about.
pub mod Scope
use cluster_api_provider_vcl.Base.{String, Bool, true, false, ◌&&◌, ◌||◌, List, [], ◌∷◌, ◌==◌}
use cluster_api_provider_vcl.Base.Tests.{if◌then◌else◌}
use cluster_api_provider_vcl.Base.Lists.{exists}

-- `patchType`, whose strings are its keys.
pub data PatchType : Type 0 where
  spec_patch status_patch : PatchType

unfoldable pub key : PatchType → String
key spec_patch = "spec"
key status_patch = "status"

abbrev pub is_status_patch : PatchType → Bool
is_status_patch spec_patch = false
is_status_patch status_patch = true

unfoldable pub preserve_key : String → Bool
preserve_key k = k == "kind" || k == "apiVersion" || k == "metadata"

-- The map of an unstructured object, whose values are the library's.
abbrev pub Fields : Type 0 → Type 0
Fields J = List (String × J)

module _ {J : Type 0} where
  unfoldable pub has_status : Fields J → Bool
  unfolding exists
  has_status fields = exists (λ e. e.0 == "status") fields

  module _ (remove_conditions : J → J) where
    -- A field of the copy. `RemoveNestedField` takes the conditions out of the status of the
    -- copy, which is also that of the object itself, since the copy is shallow.
    abbrev pub field_value : Bool → PatchType → String → J → J
    field_value is_conditions_setter focus k j =
        if is_conditions_setter && is_status_patch focus && k == "status"
        then remove_conditions j
        else j

    -- The loop of `unsafeUnstructuredCopy`.
    unfoldable pub unstructured_copy :
        PatchType → (is_conditions_setter : Bool) → Fields J → Fields J
    unfolding key preserve_key
    unstructured_copy focus is_conditions_setter [] = []
    unstructured_copy focus is_conditions_setter (e ∷ fields) =
        let rest = unstructured_copy focus is_conditions_setter fields in
        if e.0 == key focus || preserve_key e.0
        then (e.0, field_value is_conditions_setter focus e.0 e.1) ∷ rest
        else rest
