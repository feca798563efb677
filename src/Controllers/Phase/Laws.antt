-- ===== src/Controllers/Phase/Laws.antt =====
-- The phase that a reconciliation leaves.
use cluster_api_provider_vcl.Base.{
  ◌≡◌, ◌∙◌, sym, refl, ap, String, eq_iff, not, Bool, true, false, ◌&&◌, none, some, [], ◌∷◌, ◌++◌,
  ◌==◌, arith, inl, inr, ◌⊎◌,
}
use cluster_api_provider_vcl.Base.Tests.{if◌then◌else◌, Bool-cases}
use cluster_api_provider_vcl.Base.Lists.{All, exists}
use cluster_api_provider_vcl.Api.Condition.{
  Condition, Conditions, condition_false, severity_error, control_plane_initialized_condition,
}
use cluster_api_provider_vcl.Api.VCluster.{
  VCluster, virtual_cluster_pending, virtual_cluster_deployed, virtual_cluster_failed,
}
use cluster_api_provider_vcl.Controllers.State.{condition_is_true}
use cluster_api_provider_vcl.Controllers.Phase.{first_error, reconcile_phase}

abbrev pub is_error : Condition → Bool
is_error c = c.status == condition_false && c.severity == severity_error

-- The error that is reported: the first of the list.
pub record IsFirstError (c : Condition) (cs : Conditions) : Type 0 where
  pub before : Conditions
  pub after : Conditions
  pub split : cs ≡ before ++ c ∷ after
  pub is_the_error : is_error c ≡ true
  pub none_before : All (λ d. is_error d ≡ false) before

first_error-IsFirstError :
    (cs : Conditions)
    → ((first_error cs ≡ none) × All (λ d. is_error d ≡ false) cs)
      ⊎ ((c : Condition) × (first_error cs ≡ some c) × IsFirstError c cs)
unfolding first_error
first_error-IsFirstError [] = inl (refl, tt)
first_error-IsFirstError (c ∷ cs) = elim (Bool-cases (is_error c)) [
  | inl e ↦ inr (
    c,
    rw e refl,
    record { before = []; after = cs; split = refl; is_the_error = e; none_before = tt },
  )
  | inr e ↦ elim (first_error-IsFirstError cs) [
    | inl (p, a) ↦ inl (rw (e, p) refl, (e, a))
    | inr (d, p, i) ↦ inr (
      d,
      rw (e, p) refl,
      record {
        before = c ∷ i.before;
        after = i.after;
        split = ap (◌∷◌ c) i.split;
        is_the_error = i.is_the_error;
        none_before = (e, i.none_before);
      },
    )
  ]
]

abbrev pub phase_of : VCluster → String
phase_of v =
    if v.status.ready && condition_is_true v control_plane_initialized_condition
    then virtual_cluster_deployed
    else virtual_cluster_pending

-- What the status says of the conditions.
pub data Verdict (v w : VCluster) : Type 0 where
  healthy :
      All (λ d. is_error d ≡ false) v.status.conditions
      → w
        ≡ record v { status = record (v.status) { phase = phase_of v; reason = ""; message = "" } }
      → Verdict v w
  broken :
      (c : Condition)
      → IsFirstError c v.status.conditions
      → w ≡ record v {
        status = record (v.status) {
          phase = virtual_cluster_failed;
          reason = c.reason;
          message = c.message;
        };
      }
      → Verdict v w

pending_lem :
    (p : String)
    → (if not (p == virtual_cluster_pending) then virtual_cluster_pending else p)
      ≡ virtual_cluster_pending
pending_lem p = ground (arith, eq_iff p virtual_cluster_pending)

-- If no condition is False with severity Error, the phase becomes Deployed where the status is
-- ready and ControlPlaneInitialized is True, and Pending elsewhere, with no reason and no
-- message; otherwise it becomes Failed, with the reason and the message of the first such
-- condition. Nothing else of the object changes.
pub reconcile_phase-Verdict : (v : VCluster) → Verdict v (reconcile_phase v)
unfolding reconcile_phase
reconcile_phase-Verdict v = elim (first_error-IsFirstError v.status.conditions) [
  | inl (p, a) ↦ healthy a (rw (reconcile_phase, p, pending_lem v.status.phase) refl)
  | inr (c, p, i) ↦ broken c i (rw (reconcile_phase, p) refl)
]

no_error-exists : (cs : Conditions) → All (λ d. is_error d ≡ false) cs → exists is_error cs ≡ false
unfolding exists
no_error-exists [] a = refl
no_error-exists (c ∷ cs) a = rw (a.0) (no_error-exists cs a.1)

error-exists :
    (before after : Conditions) (c : Condition)
    → is_error c ≡ true
    → exists is_error (before ++ c ∷ after) ≡ true
unfolding exists
error-exists [] after c e = rw e refl
error-exists (d ∷ before) after c e = elim (Bool-cases (is_error d)) [
  | inl f ↦ rw f refl
  | inr f ↦ rw f (error-exists before after c e)
]

-- The phase alone, by whether some condition is an error.
pub reconcile_phase-phase :
    (v : VCluster)
    → (reconcile_phase v).status.phase
      ≡ (if exists is_error v.status.conditions then virtual_cluster_failed else phase_of v)
reconcile_phase-phase v = elim (reconcile_phase-Verdict v) [
  | healthy a e ↦
      ap (λ (w : VCluster). w.status.phase) e ∙ rw (no_error-exists v.status.conditions a) refl
  | broken c i e ↦
      ap (λ (w : VCluster). w.status.phase) e
      ∙ sym (
          ap (λ b. if b then virtual_cluster_failed else phase_of v)
            (ap (exists is_error) i.split ∙ error-exists i.before i.after c i.is_the_error))
]
