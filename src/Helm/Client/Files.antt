-- ===== src/Helm/Client/Files.antt =====
-- The temporary files of the client.
use cluster_api_provider_vcl.Base.{
  not, false, eq_refl, ◌++◌, ℕ, zero, suc, ◌≡◌, ◌∙◌, refl, String, Bool, List, [], ◌∷◌, ◌==◌, arith,
  inl, inr,
}
use cluster_api_provider_vcl.Base.Tests.{if◌then◌else◌, Bool-cases}
use cluster_api_provider_vcl.Base.Lists.{keep, exists}
use cluster_api_provider_vcl.Runtime.{
  Result, ok, err, Exec, is_not_found, lift, continue, ◌>>=◌, wrap_error,
}
use cluster_api_provider_vcl.Helm.Options.{UpgradeOptions}
use cluster_api_provider_vcl.Helm.Client.{
  System, keep_written, write_created, write_temp, look, wait_for, write_kube_config, removing,
  with_file, exec, first_args, run_with, run, install, upgrade, rollback, delete, release_exists,
  helm_client,
}
use cluster_api_provider_vcl.Runtime.Steady.{IsSteady, bind-IsSteady, lift-IsSteady}
use cluster_api_provider_vcl.Helm.Args.{chart_args}

-- The file is there besides the others, under a name of its own.
abbrev pub Holds : {W : Type 0} → (W → List String) → (file : String) → List String → W → Type 0
Holds temp file fs w = (temp w ≡ file ∷ fs) × (exists (λ g. g == file) fs ≡ false)

-- The temporary files after a call that makes one if it succeeds.
abbrev pub Made : {W : Type 0} → (W → List String) → List String → Result String × W → Type 0
Made temp fs (ok file, w) = Holds temp file fs w
Made temp fs (err e, w) = temp w ≡ fs

-- What the operating system does to the names of the temporary files, the last one first: a new
-- one is under a new name, and a removal takes its file away and no other.
pub record Tracks {W : Type 0} (s : System W) (temp : W → List String) : Type 0 where
  pub create_temp : (w : W) → Made temp (temp w) (s.create_temp w)
  pub write : (file text : String) (w : W) → temp (s.write file text w).1 ≡ temp w
  pub stat : (file : String) (w : W) → temp (s.stat file w).1 ≡ temp w
  pub run : (path : String) (args : List String) (w : W) → temp (s.run path args w).1 ≡ temp w
  pub remove :
      (file : String) (w : W) → temp (s.remove file w) ≡ keep (λ g. not (g == file)) (temp w)

keep-absent :
    (file : String) (fs : List String)
    → exists (λ g. g == file) fs ≡ false
    → keep (λ g. not (g == file)) fs ≡ fs
unfolding keep exists
keep-absent file [] h = refl
keep-absent file (g ∷ fs) h = elim (Bool-cases (g == file)) [
  | inl e ↦ ground arith
  | inr e ↦ ground (arith, keep-absent file fs)
]

keep-made :
    (file : String) (fs : List String)
    → exists (λ g. g == file) fs ≡ false
    → keep (λ g. not (g == file)) (file ∷ fs) ≡ fs
unfolding keep
keep-made file fs h = rw (eq_refl file) (keep-absent file fs h)

module _ {W : Type 0} (s : System W) (temp : W → List String) (c : Tracks s temp) where
  removed :
      (file : String) (fs : List String) (w : W)
      → Holds temp file fs w
      → temp (s.remove file w) ≡ fs
  removed file fs w h = c.remove file w ∙ rw (h.0) (keep-made file fs h.1)

  keep_written-Made :
      (file : String) (r : Result (Unit {0})) (fs : List String) (w : W)
      → Holds temp file fs w
      → Made temp fs (keep_written s file r w)
  unfolding keep_written
  keep_written-Made file (ok _) fs w h = h
  keep_written-Made file (err e) fs w h = removed file fs w h

  write_created-Made :
      (text : String) (r : Result String) (fs : List String) (w : W)
      → Made temp fs (r, w)
      → Made temp fs (write_created s text r w)
  unfolding write_created
  write_created-Made text (err e) fs w h = h
  write_created-Made text (ok file) fs w h =
      let (r, w') = s.write file text w in
      keep_written-Made file (wrap_error "write temp file" r) fs w' (c.write file text w ∙ h.0, h.1)

  wrap_error-Made :
      (prefix : String) (r : Result String) (fs : List String) (w : W)
      → Made temp fs (r, w)
      → Made temp fs (wrap_error prefix r, w)
  unfolding wrap_error
  wrap_error-Made prefix (ok a) fs w h = h
  wrap_error-Made prefix (err e) fs w h = h

  write_temp-Made : (text : String) (w : W) → Made temp (temp w) (write_temp s text w)
  unfolding write_temp
  write_temp-Made text w =
      let (r, w') = s.create_temp w in
      write_created-Made text (wrap_error "create temp file" r) (temp w) w'
        (wrap_error-Made "create temp file" r (temp w) w' (c.create_temp w))

  look-Made :
      (file : String) (again : Exec W String) (r : Result (Unit {0})) (fs : List String) (w : W)
      → ((u : W) → Holds temp file fs u → Made temp fs (again u))
      → Holds temp file fs w
      → Made temp fs (look s file again r w)
  unfolding look
  look-Made file again (ok _) fs w f h = h
  look-Made file again (err e) fs w f h = elim (Bool-cases (is_not_found e)) [
    | inl b ↦ rw b (f w h)
    | inr b ↦ rw b (removed file fs w h)
  ]

  wait_for-Made :
      (rounds : ℕ) (file : String) (fs : List String) (w : W)
      → Holds temp file fs w
      → Made temp fs (wait_for s rounds file w)
  unfolding wait_for
  wait_for-Made zero file fs w h = h
  wait_for-Made (suc rounds) file fs w h =
      let (r, w') = s.stat file w in
      look-Made file (wait_for s rounds file) r fs w' (wait_for-Made rounds file fs)
        (c.stat file w ∙ h.0, h.1)

  continue-Made :
      (r : Result String) (f : String → Exec W String) (fs : List String) (w : W)
      → Made temp fs (r, w)
      → ((file : String) (u : W) → Holds temp file fs u → Made temp fs (f file u))
      → Made temp fs (continue r f w)
  unfolding continue
  continue-Made (ok file) f fs w h k = k file w h
  continue-Made (err e) f fs w h k = h

  write_kube_config-Made :
      (config : Result String) (w : W) → Made temp (temp w) (write_kube_config s config w)
  unfolding write_kube_config ◌>>=◌ lift continue
  write_kube_config-Made (err e) w = refl
  write_kube_config-Made (ok text) w =
      let (r, w') = write_temp s text w in
      continue-Made r (wait_for s s.wait_rounds) (temp w) w' (write_temp-Made text w)
        λ file u h. wait_for-Made s.wait_rounds file (temp w) u h

  continue-removing :
      {A : Type 0} (r : Result String) (use_file : String → Exec W A) (fs : List String) (w : W)
      → Made temp fs (r, w)
      → ((file : String) → IsSteady temp (use_file file))
      → temp (continue r (λ file. removing s file (use_file file)) w).1 ≡ fs
  unfolding continue removing
  continue-removing (ok file) use_file fs w h k =
      removed file fs (use_file file w).1 (k file w ∙ h.0, h.1)
  continue-removing (err e) use_file fs w h k = h

  with_file-IsSteady :
      {A : Type 0} (make : Exec W String) (use_file : String → Exec W A)
      → ((w : W) → Made temp (temp w) (make w))
      → ((file : String) → IsSteady temp (use_file file))
      → IsSteady temp (with_file s make use_file)
  unfolding with_file ◌>>=◌
  with_file-IsSteady make use_file h k w =
      let (r, w') = make w in continue-removing r use_file (temp w) w' (h w) k

  module _ (streams : Bool) (path : String) (config : Result String) where
    exec-IsSteady : (args : List String) → IsSteady temp (exec s streams path config args)
    unfolding exec
    exec-IsSteady [] w = refl
    exec-IsSteady (name ∷ args) w = c.run path (name ∷ args) w

    run_with-IsSteady :
        (o : UpgradeOptions) (args : List String)
        → IsSteady temp (run_with s streams path config o args)
    unfolding run_with
    run_with-IsSteady o args w = elim (Bool-cases (o.values == "")) [
      | inl e ↦ rw e (exec-IsSteady _ w)
      | inr e ↦ rw e (
          with_file-IsSteady (write_temp s o.values) _ (write_temp-Made o.values)
            (λ file. exec-IsSteady _) w)
    ]

    run-IsSteady :
        (command name namespace : String) (o : UpgradeOptions)
        → IsSteady temp (run s streams path config command name namespace o)
    unfolding run
    run-IsSteady command name namespace o =
        with_file-IsSteady (write_kube_config s config) _ (write_kube_config-Made config) λ file.
          bind-IsSteady temp _ _ (lift-IsSteady temp (chart_args o)) λ chart.
            run_with-IsSteady o
              (first_args s streams path config command name namespace file o chart)

    rollback-IsSteady :
        (name namespace revision : String)
        → IsSteady temp (rollback s streams path config name namespace revision)
    unfolding rollback
    rollback-IsSteady name namespace revision =
        with_file-IsSteady (write_kube_config s config) _ (write_kube_config-Made config) λ file.
          exec-IsSteady (
            "rollback" ∷ name ∷ (if not (revision == "") then revision ∷ [] else [])
            ++ ("--namespace" ∷ namespace ∷ "--kubeconfig" ∷ file ∷ []))

    delete-IsSteady :
        (name namespace : String) → IsSteady temp (delete s streams path config name namespace)
    unfolding delete
    delete-IsSteady name namespace =
        with_file-IsSteady (write_kube_config s config) _ (write_kube_config-Made config) λ file.
          exec-IsSteady ("delete" ∷ name ∷ "--namespace" ∷ namespace ∷ "--kubeconfig" ∷ file ∷ [])

    release_exists-IsSteady :
        (name namespace : String)
        → IsSteady temp (release_exists s streams path config name namespace)
    unfolding release_exists
    release_exists-IsSteady name namespace =
        with_file-IsSteady (write_kube_config s config) _ (write_kube_config-Made config)
          λ file w. c.run path _ w

    -- On a system on which a file is made under a new name and kept, and a removal takes away its
    -- file and no other, every method of a client leaves the temporary files that were there
    -- before, no more and no fewer, whether it succeeds or fails and wherever it fails.
    pub helm_client-IsSteady :
        (name namespace revision : String) (o : UpgradeOptions)
        → IsSteady temp ((helm_client s streams path config).install name namespace o)
          × IsSteady temp ((helm_client s streams path config).upgrade name namespace o)
          × IsSteady temp ((helm_client s streams path config).rollback name namespace revision)
          × IsSteady temp ((helm_client s streams path config).delete name namespace)
          × IsSteady temp ((helm_client s streams path config).exists name namespace)
    unfolding helm_client install upgrade
    helm_client-IsSteady name namespace revision o = (
      run-IsSteady "install" name namespace o,
      run-IsSteady "upgrade" name namespace
          (record o { extra_args = o.extra_args ++ "--install" ∷ [] }),
      rollback-IsSteady name namespace revision,
      delete-IsSteady name namespace,
      release_exists-IsSteady name namespace,
    )
