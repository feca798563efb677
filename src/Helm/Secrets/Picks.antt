-- ===== src/Helm/Secrets/Picks.antt =====
-- What `Get` answers, by what the server lists.
use mathlib.Core.List.{Mem, not-mem-nil}
use mathlib.Core.Path.{subst}
use native.Mathlib.Bridge.{le_prop}
use cluster_api_provider_vcl.Base.{
  ◌≡◌, ◌≤◌, ◌<◌, refl, String, none, List, [], ◌∷◌, ◌++◌, inl, inr, ◌⊎◌,
}
use cluster_api_provider_vcl.Base.Lists.{All_mem}
use cluster_api_provider_vcl.Runtime.{Result, ok, err, Exec, continue, pure, raise, ◌>>=◌}
use cluster_api_provider_vcl.Kube.{Secret}
use cluster_api_provider_vcl.Helm.Secrets.{
  Release, Codec, decode_all, latest_of, selector_of, no_secret, list, found_latest, get,
}
use cluster_api_provider_vcl.Helm.Secrets.Latest.{IsLatest, latest_of-IsLatest}
use cluster_api_provider_vcl.Helm.Secrets.Released.{
  IsRelease, IsRelease-IsDecoded, IsDecoded-IsRelease,
}
use cluster_api_provider_vcl.Helm.Secrets.Split.{decode_all-IsSplit}
use cluster_api_provider_vcl.Helm.Secrets.Decoded.{mem-decode_all}

-- The release of one of the secrets: those of the secrets before it have smaller versions, those
-- of the secrets after it have none that is greater.
pub record IsNewest (c : Codec) (r : Release) (items : List Secret) : Type 0 where
  pub before : List Secret
  pub after : List Secret
  pub split : items ≡ before ++ r.secret ∷ after
  pub release : IsRelease c r
  pub older : (x : Release) → Mem x.secret before → IsRelease c x → x.version < r.version
  pub newest : (x : Release) → Mem x.secret after → IsRelease c x → x.version ≤ r.version

-- The error of the server, or that no secret it listed has a release, or the newest release.
abbrev pub Picks : Codec → (name : String) → Result (List Secret) → Result Release → Type 0
Picks codec name (err e) result = result ≡ err e
Picks codec name (ok items) result =
    (((x : Release) → Mem x.secret items → ¬ IsRelease codec x) × (result ≡ err (no_secret name)))
    ⊎ ((r : Release) × (result ≡ ok r) × IsNewest codec r items)

-- The latest of what `List` made is the newest of what the server listed.
IsLatest-IsNewest :
    (c : Codec) (r : Release) (items : List Secret)
    → IsLatest r (decode_all c items)
    → IsNewest c r items
IsLatest-IsNewest c r items h =
    let found = decode_all-IsSplit c r items h.before h.after h.split in
    record {
      before = found.before;
      after = found.after;
      split = found.split;
      release = IsDecoded-IsRelease c r found.decodes;
      older = λ x m d.
          All_mem (λ y. y.version < r.version) (λ y. le_prop) h.before h.older
            (subst (λ xs. Mem x xs) found.earlier
              (mem-decode_all c x (IsRelease-IsDecoded c x d) found.before m));
      newest = λ x m d.
          All_mem (λ y. y.version ≤ r.version) (λ y. le_prop) h.after h.newest
            (subst (λ xs. Mem x xs) found.later
              (mem-decode_all c x (IsRelease-IsDecoded c x d) found.after m));
    }

no_release :
    (c : Codec) (items : List Secret)
    → decode_all c items ≡ []
    → (x : Release) → Mem x.secret items
    → ¬ IsRelease c x
no_release c items p x m h =
    not-mem-nil (subst (λ xs. Mem x xs) p (mem-decode_all c x (IsRelease-IsDecoded c x h) items m))

module _ {W : Type 0} (list_secrets : List (String × String) → String → Exec W (List Secret))
    (codec : Codec) (name namespace : String) where
  abbrev answered : Result (List Secret) → W → Result Release × W
  answered listed w =
      continue (continue listed (λ items. pure (decode_all codec items)) w).0
        (λ releases. found_latest list_secrets codec name (latest_of none releases))
        (continue listed (λ items. pure (decode_all codec items)) w).1

  answer :
      (listed : Result (List Secret)) (w : W)
      → Picks codec name listed (answered listed w).0 × ((answered listed w).1 ≡ w)
  unfolding continue pure raise found_latest
  answer (err e) w = (refl, refl)
  answer (ok items) w = elim (latest_of-IsLatest (decode_all codec items)) [
    | inl (p, q) ↦ (inl (no_release codec items p, rw q refl), rw q refl)
    | inr (r, p, q) ↦ (inr (r, rw p refl, IsLatest-IsNewest codec r items q), rw p refl)
  ]

  -- `Get` asks the server once, for the secrets with the label of the name that helm owns, and
  -- leaves the world as this call does. It passes the server's error on, and answers that there is
  -- no such secret just where no secret that was listed has a release; otherwise it gives the
  -- release of the first of the listed secrets whose release has the highest version.
  pub get-Picks :
      (w : W)
      → Picks codec name
          (list_secrets (("name", name) ∷ ("owner", "helm") ∷ []) namespace w).0
          (get list_secrets codec name namespace w).0
        × ((get list_secrets codec name namespace w).1
            ≡ (list_secrets (("name", name) ∷ ("owner", "helm") ∷ []) namespace w).1)
  unfolding get list ◌>>=◌ selector_of
  get-Picks w =
      let (r, w') = list_secrets (("name", name) ∷ ("owner", "helm") ∷ []) namespace w in
      answer r w'
