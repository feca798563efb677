-- ===== src/Controllers/Finalizer.antt =====
-- `RemoveFinalizer` and `EnsureFinalizer`.
pub mod Laws
pub mod Stored
use cluster_api_provider_vcl.Base.{
  String, Bool, true, false, not, Option, none, some, List, [], ◌∷◌, ◌++◌, ◌==◌,
}
use cluster_api_provider_vcl.Base.Tests.{if◌then◌else◌, nat_eq}
use cluster_api_provider_vcl.Base.Lists.{length, keep, exists}
use cluster_api_provider_vcl.Api.VCluster.{VCluster}
use cluster_api_provider_vcl.Runtime.{Exec, Result, ok, err, pure, ◌>>=◌, ◌>>◌}
use cluster_api_provider_vcl.Controllers.State.{State, edit}

abbrev pub cleanup_finalizer : String
cleanup_finalizer = "vcluster.loft.sh/cleanup"

abbrev pub with_finalizers : List String → VCluster → VCluster
with_finalizers fs v = record v { metadata = record (v.metadata) { finalizers = fs } }

-- The finalizers that `RemoveFinalizer` leaves.
unfoldable pub without_finalizer : String → List String → List String
unfolding keep
without_finalizer finalizer fs = keep (λ f. not (f == finalizer)) fs

unfoldable pub has_finalizer : String → List String → Bool
unfolding exists
has_finalizer finalizer fs = exists (λ f. f == finalizer) fs

module _ {W : Type 0} (update : VCluster → Exec W VCluster) where
  -- `Update` sends the object, and on success the object is what the server answers.
  unfoldable pub update_object : Exec (State W) (Unit {0})
  update_object s =
      let (r, w) = update s.vcluster s.world in
      elim r [
        | ok v ↦ (ok tt, record { world = w; vcluster = v })
        | err e ↦ (err e, record s { world = w })
      ]

  unfoldable pub remove_finalizer : String → Exec (State W) (Unit {0})
  unfolding ◌>>=◌ edit without_finalizer update_object
  remove_finalizer finalizer s =
      let fs = s.vcluster.metadata.finalizers in
      let fs' = without_finalizer finalizer fs in
      if nat_eq (length fs) 0
      then (ok tt, s)
      else if nat_eq (length fs') (length fs)
      then (ok tt, s)
      else (do edit (with_finalizers fs'); update_object) s

  unfoldable pub ensure_finalizer : String → Exec (State W) (Unit {0})
  unfolding ◌>>=◌ edit has_finalizer update_object
  ensure_finalizer finalizer s =
      let fs = s.vcluster.metadata.finalizers in
      if has_finalizer finalizer fs
      then (ok tt, s)
      else (do edit (with_finalizers (fs ++ finalizer ∷ [])); update_object) s
