-- ===== src/Controllers/Live/Ends.antt =====
-- A whole run of `Reconcile` on an object, where the world, helm and the patch helper serve it.
use cluster_api_provider_vcl.Base.{◌≡◌, refl, String, Bool, true, false, not, ◌&&◌, some, arith}
use cluster_api_provider_vcl.Base.Tests.{is_some}
use cluster_api_provider_vcl.Runtime.{Result, ok, err, continue, ◌>>=◌}
use cluster_api_provider_vcl.Api.Condition.{Time}
use cluster_api_provider_vcl.Api.VCluster.{VCluster, VClusterStatus}
use cluster_api_provider_vcl.Controllers.Writes.{HasDistinct}
use cluster_api_provider_vcl.Controllers.Finalizer.Laws.{StoresSent}
use cluster_api_provider_vcl.Controllers.Live.Revision.{IsRevision, reconcile_body-IsRevision}
use cluster_api_provider_vcl.Kube.{World, HelmClient, NamespacedName}
use cluster_api_provider_vcl.Helm.Secrets.{Codec}
use cluster_api_provider_vcl.Patching.Options.{PatchHelper}
use cluster_api_provider_vcl.Controllers.State.{State, edit, edit_now}
use cluster_api_provider_vcl.Controllers.Finalizer.{cleanup_finalizer, ensure_finalizer}
use cluster_api_provider_vcl.Controllers.Kubeconfig.Progress.{Synced}
use cluster_api_provider_vcl.Controllers.Reconcile.{
  Reply, failed, errors_of, has_cluster_owner, patch_cluster, deferred, reconcile_body,
  reconcile_normal, reconcile_object,
}
use cluster_api_provider_vcl.Controllers.Reconcile.Converges.{handed}
use cluster_api_provider_vcl.Controllers.Live.{succeeded}
use cluster_api_provider_vcl.Controllers.Live.Serves.{Serves}
use cluster_api_provider_vcl.Controllers.Live.Serves.Body.{in_a_minute, reconcile_body-minute}
use cluster_api_provider_vcl.Controllers.Live.Whole.{
  sent_options, Helps, IsRunning, IsReconcilable, handed-IsRunning, IsLike-IsRunning,
  ensure_finalizer-Succeeds,
}

-- A run that ends without an error, the next one after a minute, with a running object.
abbrev pub IsUp : {W : Type 0} → Reply × State W → Type 0
IsUp out = (out.0 ≡ in_a_minute) × IsRunning out.1.vcluster

module _ {W R H : Type 0} (k : World W R) (helm : HelmClient W) (codec : Codec)
    (helper : PatchHelper W H) (helps : Helps helper) where
  patched :
      (r : Result (Unit {0})) (t : State W) (reply : Reply)
      → r ≡ ok tt
      → reply ≡ in_a_minute
      → IsRunning t.vcluster
      → IsUp (elim r as (λ _. Reply × State W) [
        | ok _ ↦ (reply, t)
        | err e ↦ (record reply { error = some (k.new_aggregate (errors_of reply.error e)) }, t)
      ])
  patched (ok _) t reply e p h = (p, h)
  patched (err x) t reply e p h = ground arith

  deferred-IsUp :
      (v : VCluster) (s : State W)
      → HasDistinct v
      → ((now : Time) → IsRevision v (handed now s.vcluster))
      → Synced true s.vcluster
      → s.vcluster.status.ready ≡ true
      → IsUp (deferred k helm codec helper (helps.made v) in_a_minute s)
  unfolding deferred patch_cluster ◌>>=◌ continue edit edit_now is_some
  deferred-IsUp v s d revised synced ready =
      let (now, w) = k.now s.world in
      let t : State W = record { world = w; vcluster = handed now s.vcluster } in
      let out = helper.patch (helps.made v) sent_options t in
      patched out.0 out.1 in_a_minute (helps.sent v t d (revised now)) refl (
        IsLike-IsRunning (handed now s.vcluster) out.1.vcluster
          (helps.patches (helps.made v) sent_options t)
          (handed-IsRunning now s.vcluster synced ready))

  module _ (name namespace : String) (status : VClusterStatus)
      (serves : Serves k helm name namespace) (default_repo default_name : String) where
    -- From the body on, with the helper that was made of the object.
    body-IsUp :
        (m : H) (reply : Reply) (s : State W)
        → m ≡ helps.made s.vcluster
        → reply ≡ in_a_minute
        → HasDistinct s.vcluster
        → (t : State W) → ((now : Time) → IsRevision s.vcluster (handed now t.vcluster))
        → Synced true t.vcluster
        → t.vcluster.status.ready ≡ true
        → IsUp (deferred k helm codec helper m reply t)
    body-IsUp m reply s e p d t revised synced ready =
        rw (e, p) (deferred-IsUp s.vcluster t d revised synced ready)

    helped :
        (o : Result H) (s : State W)
        → o ≡ ok (helps.made s.vcluster)
        → IsReconcilable name namespace status s.vcluster
        → IsUp (elim o as (λ _. Reply × State W) [
          | err e ↦ (failed e, s)
          | ok h ↦
              let (reply, s2) = reconcile_body k helm codec helper default_repo default_name s in
              deferred k helm codec helper h reply s2
        ])
    helped (err x) s e h = ground arith
    helped (ok m) s e h =
        let (p, synced, ready) =
          reconcile_body-minute k helm codec helper name namespace serves default_repo default_name
            s h.is_named h.deployable h.distinct in
        body-IsUp m _ s (ground arith) p h.distinct _
          (λ now.
            reconcile_body-IsRevision k helm codec helper default_repo default_name now s
              h.distinct)
          synced ready

    ensured :
        (r : Result (Unit {0})) (a : Unit {0}) (s : State W)
        → r ≡ ok a
        → IsReconcilable name namespace status s.vcluster
        → IsUp (elim r as (λ _. Reply × State W) [
          | err e ↦ (failed e, s)
          | ok _ ↦ elim (helper.new_helper s.vcluster) [
            | err e ↦ (failed e, s)
            | ok h ↦
                let (reply, s2) = reconcile_body k helm codec helper default_repo default_name s in
                deferred k helm codec helper h reply s2
          ]
        ])
    ensured (err x) a s e h = ground arith
    ensured (ok _) a s e h = helped (helper.new_helper s.vcluster) s (helps.new_helper s.vcluster) h

    reconcile_normal-IsUp :
        (s : State W)
        → StoresSent status k.update
        → IsReconcilable name namespace status s.vcluster
        → IsUp (reconcile_normal k helm codec helper default_repo default_name s)
    unfolding reconcile_normal
    reconcile_normal-IsUp s stores h =
        let out = ensure_finalizer k.update cleanup_finalizer s in
        let (a, e, kept) =
          succeeded (IsReconcilable name namespace status) (λ _. Unit {0}) out
            ((ensure_finalizer-Succeeds name namespace status k.update stores cleanup_finalizer).at
              s h) in
        ensured out.0 a out.1 e kept

    -- Let these calls succeed in every state of the world: an update of an object with the given
    -- status, which is answered as it is sent; the making of a patch helper, and its patch, with
    -- the options of the reconciler, of an object of the same kind that has at most one condition
    -- of each type and differs in no other condition than Ready, KubeconfigReady,
    -- ControlPlaneInitialized and HelmChartDeployed from the one that the helper was made of;
    -- the upgrade of helm; and what the synchronisation and the readiness check ask for the given
    -- name and namespace. There the secret has the kubeconfig of one cluster and of a user with
    -- a certificate and a key, it can be turned into a rest config with which the virtual cluster
    -- answers, the service has a host or needs none, the kubeconfig can be written and its secret
    -- stored, and the readiness check answers "ok". A patch leaves the conditions and the flag
    -- `initialized` of the object in memory. Then a run on an object with that name, namespace and
    -- status that is not being deleted, has an owner where one is needed, has a release with
    -- a version, and has at most one condition of each type ends without an error, the next one
    -- after a minute, and the object has a True Ready condition, a True ControlPlaneInitialized
    -- condition, at most one condition of each type and the flag `initialized`.
    pub reconcile_object-IsUp :
        (cluster_kind_exists : Bool) (req : NamespacedName) (s : State W)
        → StoresSent status k.update
        → IsReconcilable name namespace status s.vcluster
        → is_some s.vcluster.metadata.deletion_timestamp ≡ false
        → (cluster_kind_exists && not (has_cluster_owner s.vcluster.metadata.owner_references))
          ≡ false
        → IsUp (
            reconcile_object k helm codec helper default_repo default_name cluster_kind_exists req
              s)
    unfolding reconcile_object
    reconcile_object-IsUp cluster_kind_exists req s stores h alive owned =
        rw (alive, owned) (reconcile_normal-IsUp s stores h)
