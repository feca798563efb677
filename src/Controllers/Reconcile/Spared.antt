-- ===== src/Controllers/Reconcile/Spared.antt =====
-- Objects for which helm deploys nothing.
use cluster_api_provider_vcl.Base.Lists.{length}
use cluster_api_provider_vcl.Base.{
  [], ◌∷◌, ◌++◌, ◌≡◌, ◌∙◌, refl, String, Bool, true, not, ◌&&◌, ◌||◌, ◌==◌, List, Option, none,
  some, inl, inr,
}
use cluster_api_provider_vcl.Base.Tests.{is_some, nat_eq, Bool-cases}
use cluster_api_provider_vcl.Api.VCluster.{VCluster}
use cluster_api_provider_vcl.Runtime.{Result, ok, err, Exec, is_not_found, pure, continue, ◌>>=◌}
use cluster_api_provider_vcl.Runtime.Steady.{
  IsSteady, pure-IsSteady, raise-IsSteady, lift-IsSteady, attempt-IsSteady, bind-IsSteady,
  if-IsSteady, elim_result-count,
}
use cluster_api_provider_vcl.Kube.{World, HelmClient, Namespace, NamespacedName}
use cluster_api_provider_vcl.Helm.Secrets.{
  Release, Codec, get, list, found_latest, latest_of, lookup_string, decode_all, selector_of,
}
use cluster_api_provider_vcl.Patching.Options.{PatchHelper}
use cluster_api_provider_vcl.Controllers.State.{State, on_world, edit}
use cluster_api_provider_vcl.Controllers.Finalizer.{
  with_finalizers, remove_finalizer, update_object, without_finalizer, cleanup_finalizer,
}
use cluster_api_provider_vcl.Controllers.Chart.{delete_helm_chart, reply_release}
use cluster_api_provider_vcl.Controllers.Reconcile.{
  returning, release, ignore_not_found, delete_resources, reply_deleted, reply_namespace,
  reconcile_delete, reconcile_object, has_cluster_owner,
}

-- The object is being deleted, or it has no owner where clusters are a kind of the server.
abbrev pub is_spared : (cluster_kind_exists : Bool) → VCluster → Bool
is_spared there v =
    is_some v.metadata.deletion_timestamp
    || (there && not (has_cluster_owner v.metadata.owner_references))

-- The calls that install nothing.
pub record OnlyUpgrade {W R : Type 0} (k : World W R) (helm : HelmClient W) {C : Type 0}
    (count : W → C) : Type 0 where
  pub get_namespace : (name : String) → IsSteady count (k.get_namespace name)
  pub list_secrets :
      (labels : List (String × String)) (namespace : String)
      → IsSteady count (k.list_secrets labels namespace)
  pub delete_volume_claim : (key : NamespacedName) → IsSteady count (k.delete_volume_claim key)
  pub update : (v : VCluster) → IsSteady count (k.update v)
  pub delete : (name namespace : String) → IsSteady count (helm.delete name namespace)

module _ {W R H : Type 0} (k : World W R) (helm : HelmClient W) (codec : Codec)
    (helper : PatchHelper W H) {C : Type 0} (count : W → C) (o : OnlyUpgrade k helm count) where
  found_latest-IsSteady :
      (name : String) (r : Option Release)
      → IsSteady count (found_latest k.list_secrets codec name r)
  unfolding found_latest
  found_latest-IsSteady name none = raise-IsSteady count Release _
  found_latest-IsSteady name (some r) = pure-IsSteady count r

  list-IsSteady :
      (labels : Option (List (String × String))) (namespace : String)
      → IsSteady count (list k.list_secrets codec labels namespace)
  unfolding list
  list-IsSteady labels namespace =
      let selector = selector_of labels ++ ("owner", "helm") ∷ [] in
      bind-IsSteady count (k.list_secrets selector namespace)
        (λ items. pure (decode_all codec items)) (o.list_secrets selector namespace)
        λ items. pure-IsSteady count (decode_all codec items)

  get-IsSteady :
      (name namespace : String) → IsSteady count (get k.list_secrets codec name namespace)
  unfolding get
  get-IsSteady name namespace =
      let labels = some (("name", name) ∷ []) in
      bind-IsSteady count (list k.list_secrets codec labels namespace)
        (λ rs. found_latest k.list_secrets codec name (latest_of none rs))
        (list-IsSteady labels namespace) λ rs. found_latest-IsSteady name (latest_of none rs)

  reply_release-IsSteady :
      (namespace name : String) (r : Result Release)
      → IsSteady count (reply_release k helm codec namespace name r)
  unfolding reply_release
  reply_release-IsSteady namespace name (err e) =
      if-IsSteady count (not (is_not_found e)) _ _ (raise-IsSteady count (Unit {0}) e)
        (pure-IsSteady count tt)
  reply_release-IsSteady namespace name (ok r) =
      if-IsSteady count (not (lookup_string "owner" r.secret.labels == "helm")) _ _
        (pure-IsSteady count tt) (o.delete name namespace)

  delete_helm_chart-IsSteady :
      (namespace name : String) → IsSteady count (delete_helm_chart k helm codec namespace name)
  unfolding delete_helm_chart
  delete_helm_chart-IsSteady namespace name w =
      let (r, w') = get k.list_secrets codec name namespace w in
      reply_release-IsSteady namespace name r w' ∙ get-IsSteady name namespace w

  delete_resources-IsSteady :
      (req : NamespacedName) (name : String)
      → IsSteady count (delete_resources k helm codec helper req name)
  unfolding delete_resources
  delete_resources-IsSteady req name =
      bind-IsSteady count _ _ (delete_helm_chart-IsSteady req.namespace req.name) λ _.
        bind-IsSteady count _ _ (attempt-IsSteady count _ (o.delete_volume_claim _))
          λ claim. lift-IsSteady count (ignore_not_found k helm codec helper claim)

  -- What is looked at in the world of a state.
  abbrev counted : State W → C
  counted s = count s.world

  pub update_object-IsSteady : IsSteady counted (update_object k.update)
  unfolding update_object
  update_object-IsSteady s =
      elim_result-count counted (k.update s.vcluster s.world).0 _ _ (count s.world)
        (λ v. o.update s.vcluster s.world) λ e. o.update s.vcluster s.world

  remove_finalizer-IsSteady : IsSteady counted (remove_finalizer k.update cleanup_finalizer)
  unfolding remove_finalizer ◌>>=◌ edit continue
  remove_finalizer-IsSteady s =
      let fs = s.vcluster.metadata.finalizers in
      let fs' = without_finalizer cleanup_finalizer fs in
      elim (Bool-cases (nat_eq (length fs) 0)) [
        | inl e ↦ rw e refl
        | inr e ↦ elim (Bool-cases (nat_eq (length fs') (length fs))) [
          | inl f ↦ rw (e, f) refl
          | inr f ↦
              rw (e, f)
                (update_object-IsSteady (record s { vcluster = with_finalizers fs' s.vcluster }))
        ]
      ]

  returning-IsSteady :
      (m : Exec (State W) (Unit {0}))
      → IsSteady counted m
      → (s : State W) → counted (returning m s).1 ≡ counted s
  unfolding returning
  returning-IsSteady m h s =
      elim_result-count counted (m s).0 _ _ (count s.world) (λ _. h s) λ e. h s

  release-IsSteady : (s : State W) → counted (release k helm codec helper s).1 ≡ counted s
  unfolding release
  release-IsSteady = returning-IsSteady _ remove_finalizer-IsSteady

  reply_deleted-IsSteady :
      (r : Result (Unit {0})) (s : State W)
      → counted (reply_deleted k helm codec helper r s).1 ≡ counted s
  unfolding reply_deleted
  reply_deleted-IsSteady (ok _) s = release-IsSteady s
  reply_deleted-IsSteady (err e) s = refl

  reply_namespace-IsSteady :
      (req : NamespacedName) (r : Result Namespace) (s : State W)
      → counted (reply_namespace k helm codec helper req r s).1 ≡ counted s
  unfolding reply_namespace on_world
  reply_namespace-IsSteady req (err e) s = refl
  reply_namespace-IsSteady req (ok n) s = elim (Bool-cases (is_some n.deletion_timestamp)) [
    | inl h ↦ rw h (release-IsSteady s)
    | inr h ↦
        let name = s.vcluster.metadata.name in
        let (r, w) = delete_resources k helm codec helper req name s.world in
        rw h (
          reply_deleted-IsSteady r (record s { world = w })
          ∙ delete_resources-IsSteady req name s.world)
  ]

  pub reconcile_delete-IsSteady :
      (req : NamespacedName) (s : State W)
      → counted (reconcile_delete k helm codec helper req s).1 ≡ counted s
  unfolding reconcile_delete on_world
  reconcile_delete-IsSteady req s =
      let (r, w) = k.get_namespace req.namespace s.world in
      reply_namespace-IsSteady req r (record s { world = w })
      ∙ o.get_namespace req.namespace s.world

  -- Where only an upgrade by helm installs a chart, none is installed for an object that is being
  -- deleted, nor for one without a cluster as its owner where clusters are a kind of the server.
  pub reconcile_object-IsSteady :
      (default_repo default_name : String) (there : Bool) (req : NamespacedName) (s : State W)
      → is_spared there s.vcluster ≡ true
      → count (reconcile_object k helm codec helper default_repo default_name there req s).1.world
        ≡ count s.world
  unfolding reconcile_object
  reconcile_object-IsSteady default_repo default_name there req s h =
      elim (Bool-cases (is_some s.vcluster.metadata.deletion_timestamp)) [
        | inl e ↦ rw e (reconcile_delete-IsSteady req s)
        | inr e ↦
            let f : (there && not (has_cluster_owner s.vcluster.metadata.owner_references)) ≡ true =
              rw e at h in
            rw (e, f) refl
      ]
