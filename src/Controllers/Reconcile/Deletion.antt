-- ===== src/Controllers/Reconcile/Deletion.antt =====
-- When the finalizer of an object that is being deleted goes.
use cluster_api_provider_vcl.Base.{◌≡◌, refl, true, false, inl, inr}
use cluster_api_provider_vcl.Base.Tests.{Bool-cases, is_some}
use cluster_api_provider_vcl.Runtime.{Error, Result, ok, err}
use cluster_api_provider_vcl.Kube.{World, HelmClient, Namespace, NamespacedName}
use cluster_api_provider_vcl.Helm.Secrets.{Codec}
use cluster_api_provider_vcl.Patching.Options.{PatchHelper}
use cluster_api_provider_vcl.Controllers.State.{State, on_world}
use cluster_api_provider_vcl.Controllers.Reconcile.{
  Reply, done, failed, release, delete_resources, reply_deleted, reply_namespace, reconcile_delete,
}

module _ {W R H : Type 0} (k : World W R) (helm : HelmClient W) (codec : Codec)
    (helper : PatchHelper W H) where
  abbrev pub at_world : State W → W → State W
  at_world s w = record s { world = w }

  -- The ends of a deletion.
  pub data Deletion (req : NamespacedName) (s : State W) (out : Reply × State W) : Type 0 where
    namespace_unread :
        (e : Error) (w : W)
        → k.get_namespace req.namespace s.world ≡ (err e, w)
        → out ≡ (done, at_world s w)
        → Deletion req s out
    resources_left :
        (n : Namespace) (e : Error) (w w' : W)
        → k.get_namespace req.namespace s.world ≡ (ok n, w)
        → is_some n.deletion_timestamp ≡ false
        → delete_resources k helm codec helper req s.vcluster.metadata.name w ≡ (err e, w')
        → out ≡ (failed e, at_world s w')
        → Deletion req s out
    namespace_deleted :
        (n : Namespace) (w : W)
        → k.get_namespace req.namespace s.world ≡ (ok n, w)
        → is_some n.deletion_timestamp ≡ true
        → out ≡ release k helm codec helper (at_world s w)
        → Deletion req s out
    resources_deleted :
        (n : Namespace) (w w' : W)
        → k.get_namespace req.namespace s.world ≡ (ok n, w)
        → is_some n.deletion_timestamp ≡ false
        → delete_resources k helm codec helper req s.vcluster.metadata.name w ≡ (ok tt, w')
        → out ≡ release k helm codec helper (at_world s w')
        → Deletion req s out

  reply_deleted-Deletion :
      (req : NamespacedName) (s : State W) (n : Namespace) (w w' : W) (r : Result (Unit {0}))
      → k.get_namespace req.namespace s.world ≡ (ok n, w)
      → is_some n.deletion_timestamp ≡ false
      → delete_resources k helm codec helper req s.vcluster.metadata.name w ≡ (r, w')
      → Deletion req s (reply_deleted k helm codec helper r (at_world s w'))
  unfolding reply_deleted
  reply_deleted-Deletion req s n w w' (ok _) p h q = resources_deleted n w w' p h q refl
  reply_deleted-Deletion req s n w w' (err e) p h q = resources_left n e w w' p h q refl

  reply_namespace-Deletion :
      (req : NamespacedName) (s : State W) (r : Result Namespace) (w : W)
      → k.get_namespace req.namespace s.world ≡ (r, w)
      → Deletion req s (reply_namespace k helm codec helper req r (at_world s w))
  unfolding reply_namespace on_world
  reply_namespace-Deletion req s (err e) w p = namespace_unread e w p refl
  reply_namespace-Deletion req s (ok n) w p = elim (Bool-cases (is_some n.deletion_timestamp)) [
    | inl h ↦ rw h (namespace_deleted n w p h refl)
    | inr h ↦
        let (r, w') = delete_resources k helm codec helper req s.vcluster.metadata.name w in
        rw h (reply_deleted-Deletion req s n w w' r p h refl)
  ]

  -- A deletion ends in one of four ways. The namespace cannot be read: no error, and the object is
  -- as it was. The namespace is itself being deleted: the end is that of the removal of the
  -- finalizer. It is not, and the deletion of the helm release and the volume claim fails: the
  -- error is returned, and the object, its finalizer included, is as it was. Or that deletion
  -- succeeds: the end is that of the removal of the finalizer, after it.
  pub reconcile_delete-Deletion :
      (req : NamespacedName) (s : State W)
      → Deletion req s (reconcile_delete k helm codec helper req s)
  unfolding reconcile_delete on_world
  reconcile_delete-Deletion req s =
      let (r, w) = k.get_namespace req.namespace s.world in reply_namespace-Deletion req s r w refl
