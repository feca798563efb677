-- ===== src/Controllers/Reconcile/Persists/Runs.antt =====
-- What the body keeps and the summary, the phase and the server keep, a whole run keeps.
use cluster_api_provider_vcl.Base.{
  String, Bool, true, inl, inr, false, not, ◌&&◌, ◌++◌, List, [], ◌∷◌, some,
}
use cluster_api_provider_vcl.Base.Tests.{if◌then◌else◌, is_some, Bool-cases}
use cluster_api_provider_vcl.Api.VCluster.{VCluster}
use cluster_api_provider_vcl.Runtime.{◌>>◌, Result, ok, err, Exec}
use cluster_api_provider_vcl.Kube.{World, HelmClient, Namespace, NamespacedName}
use cluster_api_provider_vcl.Helm.Secrets.{Codec}
use cluster_api_provider_vcl.Patching.Options.{
  PatchHelper, PatchOption, with_status_observed_generation,
}
use cluster_api_provider_vcl.Controllers.State.{vcluster_setter, State, on_world, edit}
use cluster_api_provider_vcl.Controllers.Ensures.{
  left, leave, Ensures-edit, Ensures-edit_now, Ensures-bind,
}
use cluster_api_provider_vcl.Controllers.Finalizer.{
  cleanup_finalizer, remove_finalizer, ensure_finalizer,
}
use cluster_api_provider_vcl.Controllers.Phase.{reconcile_phase}
use cluster_api_provider_vcl.Controllers.Reconcile.{
  Reply, done, failed, returning, errors_of, patch_options, has_cluster_owner, patch_cluster,
  deferred, release, delete_resources, reply_deleted, reply_namespace, reconcile_delete,
  reconcile_body, reconcile_normal, reconcile_object,
}
use cluster_api_provider_vcl.Controllers.Reconcile.Survives.{Maintains}
use cluster_api_provider_vcl.Controllers.Reconcile.Survives.Steps.{reconcile_body-keeps}
use cluster_api_provider_vcl.Controllers.Reconcile.Persists.{
  Persists, Answers, Patches, reconcile_phase-IsLike, remove_finalizer-Maintains,
  ensure_finalizer-Maintains,
}

module _ {W R H : Type 0} (k : World W R) (helm : HelmClient W) (codec : Codec)
    (helper : PatchHelper W H) (answers : Answers k.update) (patches : Patches helper)
    (P : VCluster → Type 0) (persists : Persists P) where
  Kept : Reply × State W → Type 0
  Kept out = P out.1.vcluster

  Kept-if : (b : Bool) (x y : Reply × State W) → Kept x → Kept y → Kept (if b then x else y)
  Kept-if true x y h k = h
  Kept-if false x y h k = k

  replied :
      (r : Result (Unit {0})) (s : State W)
      → P s.vcluster
      → P (elim r as (λ _. Reply × State W) [ ok _ ↦ (done, s) | err e ↦ (failed e, s) ]).1.vcluster
  replied (ok _) s h = h
  replied (err e) s h = h

  release-keeps : (s : State W) → P s.vcluster → P (release k helm codec helper s).1.vcluster
  unfolding release returning
  release-keeps s h =
      let m = remove_finalizer k.update cleanup_finalizer in
      let (r, s') = m s in
      replied r s'
        (left P m s (remove_finalizer-Maintains P persists k.update answers cleanup_finalizer) h)

  reply_deleted-keeps :
      (r : Result (Unit {0})) (s : State W)
      → P s.vcluster
      → P (reply_deleted k helm codec helper r s).1.vcluster
  unfolding reply_deleted
  reply_deleted-keeps (ok _) s h = release-keeps s h
  reply_deleted-keeps (err e) s h = h

  reply_namespace-keeps :
      (req : NamespacedName) (r : Result Namespace) (s : State W)
      → P s.vcluster
      → P (reply_namespace k helm codec helper req r s).1.vcluster
  unfolding reply_namespace on_world
  reply_namespace-keeps req (err e) s h = h
  reply_namespace-keeps req (ok n) s h = elim (Bool-cases (is_some n.deletion_timestamp)) [
    | inl e ↦ rw e (release-keeps s h)
    | inr e ↦
        let (r, w) = delete_resources k helm codec helper req s.vcluster.metadata.name s.world in
        rw e (reply_deleted-keeps r (record s { world = w }) h)
  ]

  reconcile_delete-keeps :
      (req : NamespacedName) (s : State W)
      → P s.vcluster
      → P (reconcile_delete k helm codec helper req s).1.vcluster
  unfolding reconcile_delete on_world
  reconcile_delete-keeps req s h =
      let (r, w) = k.get_namespace req.namespace s.world in
      reply_namespace-keeps req r (record s { world = w }) h

  -- The patch, after the phase and the summary.
  patched : (h : H) (options : List PatchOption) → Maintains P (helper.patch h options)
  patched h options = record {
    at = λ s p.
        let (r, s') = helper.patch h options s in
        leave (λ v p. p) r s' (persists.like s.vcluster s'.vcluster (patches h options s) p);
  }

  deferred_steps :
      (h : H) (options : List PatchOption)
      → Maintains P (do edit reconcile_phase; patch_cluster k helm codec helper h options)
  unfolding patch_cluster
  deferred_steps h options =
      Ensures-bind _ _
        (Ensures-edit _ λ v p. persists.like v (reconcile_phase v) (reconcile_phase-IsLike v) p)
        λ _.
          Ensures-bind _ _ (Ensures-edit_now k.now _ λ now v p. persists.summarized now v p)
            λ _. patched h (options ++ patch_options)

  deferred-keeps :
      (h : H) (reply : Reply) (s : State W)
      → P s.vcluster
      → P (deferred k helm codec helper h reply s).1.vcluster
  unfolding deferred
  deferred-keeps h reply s p =
      let options : List PatchOption =
        if not (is_some reply.error) then with_status_observed_generation ∷ [] else [] in
      let m : Exec (State W) (Unit {0}) = (do
        edit reconcile_phase
        patch_cluster k helm codec helper h options) in
      let (r, s') = m s in answered r reply s' (left P m s (deferred_steps h options) p)
    where
      answered :
          (r : Result (Unit {0})) (reply : Reply) (t : State W)
          → P t.vcluster
          → P
              (elim r as (λ _. Reply × State W) [
                | ok _ ↦ (reply, t)
                | err e ↦
                    (record reply { error = some (k.new_aggregate (errors_of reply.error e)) }, t)
              ]).1.vcluster
      answered (ok _) reply t p = p
      answered (err e) reply t p = p

  module _ (default_repo default_name : String) where
    helped :
        (o : Result H) (s : State W)
        → P s.vcluster
        → P
            (elim o as (λ _. Reply × State W) [
              | err e ↦ (failed e, s)
              | ok h ↦
                  let (reply, s2) =
                    reconcile_body k helm codec helper default_repo default_name s in
                  deferred k helm codec helper h reply s2
            ]).1.vcluster
    helped (err e) s p = p
    helped (ok h) s p =
        deferred-keeps h _ _ (
          reconcile_body-keeps k helm codec helper P persists.survives default_repo default_name s
            p)

    ensured :
        (r : Result (Unit {0})) (s : State W)
        → P s.vcluster
        → P
            (elim r as (λ _. Reply × State W) [
              | err e ↦ (failed e, s)
              | ok _ ↦ elim (helper.new_helper s.vcluster) [
                | err e ↦ (failed e, s)
                | ok h ↦
                    let (reply, s2) =
                      reconcile_body k helm codec helper default_repo default_name s in
                    deferred k helm codec helper h reply s2
              ]
            ]).1.vcluster
    ensured (err e) s p = p
    ensured (ok _) s p = helped (helper.new_helper s.vcluster) s p

    reconcile_normal-keeps :
        (s : State W)
        → P s.vcluster
        → P (reconcile_normal k helm codec helper default_repo default_name s).1.vcluster
    unfolding reconcile_normal
    reconcile_normal-keeps s p =
        let m = ensure_finalizer k.update cleanup_finalizer in
        let (r, s') = m s in
        ensured r s'
          (left P m s (ensure_finalizer-Maintains P persists k.update answers cleanup_finalizer) p)

    -- What every write keeps, a run of the reconciler on an object keeps, however it ends.
    pub reconcile_object-keeps :
        (cluster_kind_exists : Bool) (req : NamespacedName) (s : State W)
        → P s.vcluster
        → P
            (reconcile_object k helm codec helper default_repo default_name cluster_kind_exists req
              s).1.vcluster
    unfolding reconcile_object Kept
    reconcile_object-keeps cluster_kind_exists req s p =
        Kept-if (is_some s.vcluster.metadata.deletion_timestamp) _ _
          (reconcile_delete-keeps req s p)
          (Kept-if
            (cluster_kind_exists && not (has_cluster_owner s.vcluster.metadata.owner_references)) _
            _ p (reconcile_normal-keeps s p))
