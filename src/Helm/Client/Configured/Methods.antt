-- ===== src/Helm/Client/Configured/Methods.antt =====
-- The commands that the methods of the client run.
use cluster_api_provider_vcl.Base.{
  ℕ, ◌≡◌, ◌∙◌, refl, String, Bool, Option, List, [], ◌∷◌, ◌++◌, ◌==◌, not, inl, inr,
}
use cluster_api_provider_vcl.Base.Tests.{if◌then◌else◌, Bool-cases}
use cluster_api_provider_vcl.Runtime.{Result, ok, err, Exec, lift, continue, ◌>>=◌}
use cluster_api_provider_vcl.Helm.Options.{UpgradeOptions}
use cluster_api_provider_vcl.Helm.Client.{
  System, write_temp, write_kube_config, removing, with_file, exec, first_args, run_with, run,
  install, upgrade, rollback, delete, release_exists, helm_client,
}
use cluster_api_provider_vcl.Helm.Args.{chart_args, last_args}
use cluster_api_provider_vcl.Runtime.Steady.{IsSteady}
use cluster_api_provider_vcl.Helm.Client.Configured.{
  Passes, here, later, Passes-append, Passes-prefix, Passes-imp, Kept, HasConfig, Files,
}
use cluster_api_provider_vcl.Helm.Client.Configured.Made.{written_config-Kept, write_temp-spares}

module _ {W : Type 0} (s : System W) (config : Result String) (content : W → String → Option String)
    (misled : W → ℕ) (files : Files s config content misled) where
  abbrev Right : W → String → Type 0
  Right = HasConfig config content

  removing-steady :
      {A : Type 0} (Q : String → W → Type 0) (r : Result String) (use_file : String → Exec W A)
      (n : ℕ) (w : W)
      → ((file : String) (u : W) → misled u ≡ n → Q file u → misled (use_file file u).1 ≡ n)
      → Kept misled n Q (r, w)
      → misled (continue r (λ file. removing s file (use_file file)) w).1 ≡ n
  unfolding continue removing
  removing-steady Q (ok file) use_file n w k h =
      files.remove file (use_file file w).1 ∙ k file w h.0 h.1
  removing-steady Q (err e) use_file n w k h = h

  with_file-steady :
      {A : Type 0} (Q : String → W → Type 0) (make : Exec W String) (use_file : String → Exec W A)
      (w : W)
      → ((file : String) (u : W)
          → misled u ≡ misled w
          → Q file u
          → misled (use_file file u).1 ≡ misled w)
      → Kept misled (misled w) Q (make w)
      → misled (with_file s make use_file w).1 ≡ misled w
  unfolding with_file ◌>>=◌
  with_file-steady Q make use_file w k h =
      let (r, w') = make w in removing-steady Q r use_file (misled w) w' k h

  module _ (streams : Bool) (path : String) where
    exec-steady :
        (args : List String) (w : W)
        → Passes (Right w) args
        → misled (exec s streams path config args w).1 ≡ misled w
    unfolding exec
    exec-steady [] w p = refl
    exec-steady (name ∷ args) w p = files.run path (name ∷ args) w p

    run_with-steady :
        (o : UpgradeOptions) (args : List String) (w : W)
        → Passes (Right w) args
        → misled (run_with s streams path config o args w).1 ≡ misled w
    unfolding run_with
    run_with-steady o args w p = elim (Bool-cases (o.values == "")) [
      | inl e ↦ rw e (exec-steady (args ++ last_args o) w (Passes-append args (last_args o) p))
      | inr e ↦ rw e (
          with_file-steady _ (write_temp s o.values) _ w
            (λ file u c k.
              exec-steady (args ++ ("--values" ∷ file ∷ last_args o)) u (
                Passes-append args ("--values" ∷ file ∷ last_args o)
                  (Passes-imp args (λ g (text, q, h). (text, q, k g text h)) p))
              ∙ c)
            (write_temp-spares s config content misled files o.values w))
    ]

    -- With the chart, or its error.
    with_chart-steady :
        (command name namespace file : String) (o : UpgradeOptions) (r : Result (List String))
        (w : W)
        → Right w file
        → misled
            (continue r
              (λ chart.
                run_with s streams path config o
                  (first_args s streams path config command name namespace file o chart))
              w).1
          ≡ misled w
    unfolding continue first_args
    with_chart-steady command name namespace file o (err e) w h = refl
    with_chart-steady command name namespace file o (ok chart) w h =
        run_with-steady o _ w
          (later command _ (later name _ (Passes-prefix chart _ (here file _ h))))

    run-IsSteady :
        (command name namespace : String) (o : UpgradeOptions)
        → IsSteady misled (run s streams path config command name namespace o)
    unfolding run ◌>>=◌ lift
    run-IsSteady command name namespace o w =
        with_file-steady (λ file u. Right u file) (write_kube_config s config) _ w
          (λ file u e h. with_chart-steady command name namespace file o (chart_args o) u h ∙ e)
          (written_config-Kept s config content misled files config w refl)

    rollback-IsSteady :
        (name namespace revision : String)
        → IsSteady misled (rollback s streams path config name namespace revision)
    unfolding rollback
    rollback-IsSteady name namespace revision w =
        with_file-steady (λ file u. Right u file) (write_kube_config s config) _ w
          (λ file u e h.
            exec-steady _ u (
              later "rollback" _ (
                later name _ (
                  Passes-prefix (if not (revision == "") then revision ∷ [] else []) _
                    (later "--namespace" _ (later namespace _ (here file _ h))))))
            ∙ e)
          (written_config-Kept s config content misled files config w refl)

    named_command :
        (command name namespace file : String) (u : W)
        → Right u file
        → Passes (Right u) (command ∷ name ∷ "--namespace" ∷ namespace ∷ "--kubeconfig" ∷ file ∷ [])
    named_command command name namespace file u h =
        later command _ (later name _ (later "--namespace" _ (later namespace _ (here file [] h))))

    delete-IsSteady :
        (name namespace : String) → IsSteady misled (delete s streams path config name namespace)
    unfolding delete
    delete-IsSteady name namespace w =
        with_file-steady (λ file u. Right u file) (write_kube_config s config) _ w
          (λ file u e h. exec-steady _ u (named_command "delete" name namespace file u h) ∙ e)
          (written_config-Kept s config content misled files config w refl)

    release_exists-IsSteady :
        (name namespace : String)
        → IsSteady misled (release_exists s streams path config name namespace)
    unfolding release_exists
    release_exists-IsSteady name namespace w =
        with_file-steady (λ file u. Right u file) (write_kube_config s config) _ w
          (λ file u e h. files.run path _ u (named_command "status" name namespace file u h) ∙ e)
          (written_config-Kept s config content misled files config w refl)

    -- On a system on which a temporary file is a new one and keeps what was written to it, no
    -- method of a client adds to the number of commands that are run without the flag of the
    -- kubeconfig and, as its value, a file that has the configuration of the client.
    pub helm_client-configured :
        (name namespace revision : String) (o : UpgradeOptions)
        → IsSteady misled ((helm_client s streams path config).install name namespace o)
          × IsSteady misled ((helm_client s streams path config).upgrade name namespace o)
          × IsSteady misled ((helm_client s streams path config).rollback name namespace revision)
          × IsSteady misled ((helm_client s streams path config).delete name namespace)
          × IsSteady misled ((helm_client s streams path config).exists name namespace)
    unfolding helm_client install upgrade
    helm_client-configured name namespace revision o = (
      run-IsSteady "install" name namespace o,
      run-IsSteady "upgrade" name namespace
          (record o { extra_args = o.extra_args ++ "--install" ∷ [] }),
      rollback-IsSteady name namespace revision,
      delete-IsSteady name namespace,
      release_exists-IsSteady name namespace,
    )
