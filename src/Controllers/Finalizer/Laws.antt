-- ===== src/Controllers/Finalizer/Laws.antt =====
-- When the finalizer is there, and when the server is asked.
use cluster_api_provider_vcl.Base.{
  ◌<◌, String, true, false, not, ◌≡◌, refl, ap, List, [], ◌∷◌, ◌++◌, ◌==◌, arith, inl, inr, eq_refl,
}
use cluster_api_provider_vcl.Base.Tests.{if◌then◌else◌, Bool-cases}
use cluster_api_provider_vcl.Base.Lists.{length, keep, exists, length-keep-le}
use cluster_api_provider_vcl.Api.VCluster.{VCluster, VClusterStatus}
use cluster_api_provider_vcl.Runtime.{Exec, Result, ok, err}
use cluster_api_provider_vcl.Controllers.State.{State, edit}
use cluster_api_provider_vcl.Controllers.Finalizer.{
  with_finalizers, without_finalizer, has_finalizer, update_object, remove_finalizer,
  ensure_finalizer,
}

has-without : (f : String) (fs : List String) → has_finalizer f (without_finalizer f fs) ≡ false
unfolding has_finalizer without_finalizer keep exists
has-without f [] = refl
has-without f (g ∷ fs) = elim (Bool-cases (g == f)) [
  | inl e ↦ rw e (has-without f fs)
  | inr e ↦ rw (e, e) (has-without f fs)
]

without_absent :
    (f : String) (fs : List String) → has_finalizer f fs ≡ false → without_finalizer f fs ≡ fs
unfolding has_finalizer without_finalizer keep exists
without_absent f [] h = refl
without_absent f (g ∷ fs) h = elim (Bool-cases (g == f)) [
  | inl e ↦ ground arith
  | inr e ↦ ground (arith, without_absent f fs)
]

without-shorter :
    (f : String) (fs : List String)
    → has_finalizer f fs ≡ true
    → length (without_finalizer f fs) < length fs
unfolding has_finalizer without_finalizer keep exists
without-shorter f [] h = ground arith
without-shorter f (g ∷ fs) h = elim (Bool-cases (g == f)) [
  | inl e ↦ ground (arith, length-keep-le (λ x. not (x == f)) fs)
  | inr e ↦ ground (arith, without-shorter f fs)
]

without_added :
    (f : String) (fs : List String)
    → has_finalizer f fs ≡ false
    → without_finalizer f (fs ++ f ∷ []) ≡ fs
unfolding has_finalizer without_finalizer keep exists
without_added f [] h = rw (eq_refl f) refl
without_added f (g ∷ fs) h = elim (Bool-cases (g == f)) [
  | inl e ↦ ground arith
  | inr e ↦ ground (arith, without_added f fs)
]

pub has_added : (f : String) (fs : List String) → has_finalizer f (fs ++ f ∷ []) ≡ true
unfolding has_finalizer exists
has_added f [] = rw (eq_refl f) refl
has_added f (g ∷ fs) = elim (Bool-cases (g == f)) [
  | inl e ↦ rw e refl
  | inr e ↦ rw e (has_added f fs)
]

-- An object with the given status is stored and answered as it is sent. `Update` leaves the status
-- that the server has.
abbrev pub StoresSent : {W : Type 0} → VClusterStatus → (VCluster → Exec W VCluster) → Type 0
StoresSent {W} status update = (v : VCluster) (w : W) → v.status ≡ status → (update v w).0 ≡ ok v

module _ {W : Type 0} (update : VCluster → Exec W VCluster) where
  -- The object that is sent to the server.
  abbrev pub sent : State W → List String → State W
  sent s fs = record s { vcluster = with_finalizers fs s.vcluster }

  -- `RemoveFinalizer` sends the object with the finalizers other than the given one if that
  -- one is there, and answers what the server answers; otherwise it does nothing and succeeds.
  pub remove_finalizer_lem :
      (f : String) (s : State W)
      → remove_finalizer update f s ≡ (
          if has_finalizer f s.vcluster.metadata.finalizers
          then update_object update (sent s (without_finalizer f s.vcluster.metadata.finalizers))
          else (ok tt, s))
  unfolding remove_finalizer edit
  remove_finalizer_lem f s =
      let fs = s.vcluster.metadata.finalizers in
      elim (Bool-cases (has_finalizer f fs)) [
        | inl e ↦ let l = without-shorter f fs e in rw e (ground (arith, l))
        | inr e ↦ rw (e, without_absent f fs e) (ground arith)
      ]

  stored :
      (s : State W)
      → StoresSent s.vcluster.status update
      → update_object update s ≡ (ok tt, record s { world = (update s.vcluster s.world).1 })
  unfolding update_object
  stored s stores =
      ap
        (λ r. elim r as (λ _. Result (Unit {0}) × State W) [
          | ok u ↦ (ok tt, record { world = (update s.vcluster s.world).1; vcluster = u })
          | err e ↦ (err e, record s { world = (update s.vcluster s.world).1 })
        ])
        (stores s.vcluster s.world refl)

  -- The state after the server was sent the object.
  abbrev pub sent_once : State W → State W
  sent_once s = record s { world = (update s.vcluster s.world).1 }

  ensured :
      (f : String) (s : State W)
      → StoresSent s.vcluster.status update
      → has_finalizer f s.vcluster.metadata.finalizers ≡ false
      → ensure_finalizer update f s
        ≡ (ok tt, sent_once (sent s (s.vcluster.metadata.finalizers ++ f ∷ [])))
  unfolding ensure_finalizer edit
  ensured f s stores h = rw h (stored (sent s (s.vcluster.metadata.finalizers ++ f ∷ [])) stores)

  -- Let the server store an object with the status that it has as it is sent, whatever the call does
  -- to the world. Where the finalizer is not there, `EnsureFinalizer` adds it at the end by one
  -- call, and `RemoveFinalizer` after it brings the object back as it was by another one.
  pub remove_finalizer-ensure_finalizer :
      (f : String) (s : State W)
      → StoresSent s.vcluster.status update
      → has_finalizer f s.vcluster.metadata.finalizers ≡ false
      → (ensure_finalizer update f s
          ≡ (ok tt, sent_once (sent s (s.vcluster.metadata.finalizers ++ f ∷ []))))
        × (remove_finalizer update f (ensure_finalizer update f s).1 ≡ (
          ok tt,
          sent_once
              (record { world = (ensure_finalizer update f s).1.world; vcluster = s.vcluster }),
        ))
  remove_finalizer-ensure_finalizer f s stores h =
      let fs = s.vcluster.metadata.finalizers in
      let added = sent_once (sent s (fs ++ f ∷ [])) in
      let p = ensured f s stores h in
      let q = remove_finalizer_lem f added in
      (
        p,
        rw (p, q, has_added f fs, without_added f fs h)
            (stored (record { world = added.world; vcluster = s.vcluster }) stores),
      )
