-- ===== src/Patching/Kept.antt =====
-- `Patch` leaves the conditions and the flag of the object in memory as they are.
use cluster_api_provider_vcl.Base.{ℕ, ◌≡◌, ◌∙◌, refl, sym, not, ◌&&◌, ◌==◌, List}
use cluster_api_provider_vcl.Api.VCluster.{VCluster}
use cluster_api_provider_vcl.Runtime.{ok}
use cluster_api_provider_vcl.Controllers.Ensures.{
  Ensures, left, Ensures-pure, Ensures-raise, Ensures-if, Ensures-on_world, Ensures-lift,
  Ensures-lift_eq, Ensures-gets, Ensures-gets_vcluster, Ensures-edit, Ensures-bind,
}
use cluster_api_provider_vcl.Controllers.Reconcile.Persists.{IsLike, Patches}
use cluster_api_provider_vcl.Controllers.Reconcile.Survives.{Maintains}
use cluster_api_provider_vcl.Patching.Options.{
  PatchOption, HelperOptions, apply_to_helper, no_helper_options,
}
use cluster_api_provider_vcl.Patching.Fields.{Fields, has_status}
use cluster_api_provider_vcl.Patching.StatusConditions.{Server}
use cluster_api_provider_vcl.Patching.Helper.{
  Library, Helper, calculate_changes, observe, patch, patch_helper,
}

-- An object that is converted to fields, and back with another observed generation, has its
-- conditions and its flag.
abbrev pub Rereads : {W J : Type 0} → Library W J → Type 0
Rereads {W} {J} library =
    (n : ℕ) (v u : VCluster) (fields observed : Fields J)
    → library.to_unstructured v ≡ ok fields
    → library.set_observed_generation n fields ≡ ok observed
    → library.from_unstructured observed v ≡ ok u
    → IsLike v u

IsLike-trans : (v u w : VCluster) → IsLike v u → IsLike u w → IsLike v w
IsLike-trans v u w a b = record {
  conditions = b.conditions ∙ a.conditions;
  initialized = b.initialized ∙ a.initialized;
}

module _ {W J : Type 0} (server : Server W) (library : Library W J) (rereads : Rereads library)
    (v : VCluster) where
  -- The object as it was read, of which `fields` are made.
  IsRead : VCluster → Fields J → VCluster → Type 0
  IsRead b fields u = (IsLike v u × (b ≡ u)) × (library.to_unstructured b ≡ ok fields)

  reread :
      (fields observed : Fields J) (a b u w : VCluster)
      → IsRead a fields u
      → b ≡ u
      → library.set_observed_generation b.metadata.generation fields ≡ ok observed
      → library.from_unstructured observed b ≡ ok w
      → IsLike v w
  unfolding IsRead
  reread fields observed a b u w h e p q =
      IsLike-trans v b w (rw e h.0.0)
        (rereads b.metadata.generation b w fields observed (rw (e, sym h.0.1) h.1) p q)

  observe-IsLike :
      (options : HelperOptions) (a : VCluster) (fields : Fields J)
      → Ensures (IsRead a fields) (observe server library options fields) (λ _. IsLike v) (IsLike v)
  unfolding observe IsRead
  observe-IsLike options a fields =
      Ensures-if (has_status fields && options.include_status_observed_generation) _ _
        (λ e. Ensures-bind _ _ Ensures-gets_vcluster λ b.
          Ensures-bind _ _
            (Ensures-lift_eq (λ u h. h.0.0.0)
              (library.set_observed_generation b.metadata.generation fields))
            λ observed.
              Ensures-bind _ _
                (Ensures-lift_eq (λ u h. h.0.0.0.0) (library.from_unstructured observed b))
                λ w.
                  Ensures-bind _ _
                    (Ensures-edit (λ _. w)
                      λ u h. reread fields observed a b u w h.0.0.0 h.0.0.1 h.0.1 h.1)
                    λ _. Ensures-pure observed λ u h. h)
        (λ e. Ensures-pure fields λ u h. h.0.0)

  patch-Maintains :
      (h : Helper J) (opts : List PatchOption) → Maintains (IsLike v) (patch server library h opts)
  unfolding patch IsRead
  patch-Maintains h opts = Ensures-bind _ _ Ensures-gets_vcluster λ b.
      Ensures-bind _ _ (Ensures-lift (λ u p. p.0) (library.gvk_for_object b)) λ gvk.
        Ensures-bind _ _
          (Ensures-if (not (gvk == h.gvk)) _ _ (λ e. Ensures-raise _ λ u p. p.0)
            (λ e. Ensures-pure {Q = λ _ u. IsLike v u × (b ≡ u)} tt λ u p. p))
          λ _. Ensures-bind _ _ (Ensures-lift_eq (λ u p. p.0) (library.to_unstructured b)) λ fields.
            Ensures-bind _ _ (observe-IsLike (apply_to_helper opts no_helper_options) b fields)
              λ after. Ensures-bind _ _ (Ensures-gets (λ s. s.vcluster)) λ u.
                Ensures-bind _ _ (Ensures-lift (λ u p. p) (calculate_changes server library h u))
                  λ changes. Ensures-on_world (λ u p. p) _

-- Where an object that is converted to fields and back has its conditions and its flag, the patch
-- helper of the program leaves them in memory as they are.
pub patch_helper-Patches :
    {W J : Type 0} (server : Server W) (library : Library W J)
    → Rereads library
    → Patches (patch_helper server library)
unfolding patch_helper
patch_helper-Patches server library rereads h opts s =
    left (IsLike s.vcluster) (patch server library h opts) s
      (patch-Maintains server library rereads s.vcluster h opts)
      (record { conditions = refl; initialized = refl })
