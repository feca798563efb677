-- ===== src/Helm/Client.antt =====
-- pkg/helm/helm.go: the client, which runs the helm binary on a kubeconfig in a temporary file.
pub mod Files
pub mod Configured
use Prim.Native.String.{◌++◌ as append}
use text.Mathlib.Text.{find? as index_of}
use cluster_api_provider_vcl.Helm.Args.{
  option_args, flag_args, chart_args, join_values, set_args, last_args,
}
use cluster_api_provider_vcl.Base.{
  ℕ, zero, suc, String, Bool, true, false, not, Option, none, some, List, [], ◌∷◌, ◌++◌, ◌==◌,
}
use cluster_api_provider_vcl.Base.Tests.{if◌then◌else◌, is_some}
use cluster_api_provider_vcl.Runtime.{
  Error, Result, ok, err, Exec, errorf, is_not_found, pure, raise, lift, ◌>>=◌, ◌>>◌, wrap_error,
}
use cluster_api_provider_vcl.Kube.{HelmClient}
use cluster_api_provider_vcl.Kube.Config.{KubeConfig}
use cluster_api_provider_vcl.Helm.Options.{UpgradeOptions}

-- The calls of the operating system. `remove` drops its error, as the code does. The output of a
-- command is there whether it fails or not.
pub record System (W : Type 0) : Type 0 where
  pub create_temp : Exec W String
  pub write : (file text : String) → Exec W (Unit {0})
  pub remove : (file : String) → W → W
  pub stat : (file : String) → Exec W (Unit {0})
  pub run : (path : String) → List String → W → (String × Result (Unit {0})) × W
  -- how often a look every 50 milliseconds fits into a minute
  pub wait_rounds : ℕ

module _ {W : Type 0} (s : System W) where
  -- A file that could not be written is removed.
  unfoldable pub keep_written : (file : String) → Result (Unit {0}) → Exec W String
  keep_written file (ok _) w = (ok file, w)
  keep_written file (err e) w = (err e, s.remove file w)

  unfoldable pub write_created : (text : String) → Result String → Exec W String
  unfolding keep_written wrap_error
  write_created text (err e) w = (err e, w)
  write_created text (ok file) w =
      let (r, w') = s.write file text w in keep_written file (wrap_error "write temp file" r) w'

  -- A new temporary file with a text in it.
  unfoldable pub write_temp : (text : String) → Exec W String
  unfolding write_created wrap_error
  write_temp text w =
      let (r, w') = s.create_temp w in write_created text (wrap_error "create temp file" r) w'

  unfoldable pub look : (file : String) → Exec W String → Result (Unit {0}) → Exec W String
  look file again (ok _) w = (ok file, w)
  look file again (err e) w = if is_not_found e then again w else (err e, s.remove file w)

  -- The wait until the file is there; when the minute is over, it is taken to be.
  unfoldable pub wait_for : ℕ → (file : String) → Exec W String
  unfolding look
  wait_for zero file w = (ok file, w)
  wait_for (suc rounds) file w =
      let (r, w') = s.stat file w in look file (wait_for rounds file) r w'

  -- The marshalled configuration, or the error of the marshalling, goes into a file.
  unfoldable pub write_kube_config : Result String → Exec W String
  unfolding write_temp wait_for
  write_kube_config config = do
    text ← lift config
    file ← write_temp text
    wait_for s.wait_rounds file

  -- The `defer` that removes the file, whatever becomes of the call.
  unfoldable pub removing : {A : Type 0} → (file : String) → Exec W A → Exec W A
  removing file m w = let (r, w') = m w in (r, s.remove file w')

  unfoldable pub with_file : {A : Type 0} → Exec W String → (String → Exec W A) → Exec W A
  unfolding removing
  with_file make use_file = do file ← make; removing file (use_file file)

  -- The answer of a command, by its first argument. With streams its output is not read.
  unfoldable pub command_result :
      (streams : Bool) → String → String → Result (Unit {0}) → Result (Unit {0})
  command_result streams name output (ok _) = ok tt
  command_result true name output (err e) = err e
  command_result false name output (err e) =
      if is_some (index_of output "release: not found")
      then ok tt
      else err (errorf (append "error executing helm " (append name (append ": " output))))

  module _ (streams : Bool) (path : String) (config : Result String) where
    unfoldable pub exec : List String → Exec W (Unit {0})
    unfolding command_result
    exec [] w = (ok tt, w)
    exec (name ∷ args) w =
        let ((output, r), w') = s.run path (name ∷ args) w in
        (command_result streams name output r, w')

    -- The arguments up to the values, by the file of the kubeconfig.
    unfoldable pub first_args :
        (command name namespace kube_config : String) → UpgradeOptions → List String → List String
    unfolding flag_args
    first_args command name namespace kube_config o chart =
        command ∷ name ∷ chart
        ++ ("--kubeconfig" ∷ kube_config ∷ "--namespace" ∷ namespace ∷ o.extra_args
            ++ flag_args "--create-namespace" o.create_namespace)

    unfoldable pub run_with : UpgradeOptions → List String → Exec W (Unit {0})
    unfolding with_file exec last_args write_temp
    run_with o args =
        if o.values == ""
        then exec (args ++ last_args o)
        else with_file (write_temp o.values)
            λ file. exec (args ++ ("--values" ∷ file ∷ last_args o))

    unfoldable pub run : (command name namespace : String) → UpgradeOptions → Exec W (Unit {0})
    unfolding with_file write_kube_config first_args chart_args run_with
    run command name namespace o = with_file (write_kube_config config) λ kube_config. do
      chart ← lift (chart_args o)
      run_with o (first_args command name namespace kube_config o chart)

    unfoldable pub install : (name namespace : String) → UpgradeOptions → Exec W (Unit {0})
    unfolding run
    install name namespace o = run "install" name namespace o

    unfoldable pub upgrade : (name namespace : String) → UpgradeOptions → Exec W (Unit {0})
    unfolding run
    upgrade name namespace o =
        run "upgrade" name namespace (record o { extra_args = o.extra_args ++ "--install" ∷ [] })

    unfoldable pub rollback : (name namespace revision : String) → Exec W (Unit {0})
    unfolding with_file write_kube_config exec
    rollback name namespace revision = with_file (write_kube_config config) λ kube_config. exec (
        "rollback" ∷ name ∷ (if not (revision == "") then revision ∷ [] else [])
        ++ ("--namespace" ∷ namespace ∷ "--kubeconfig" ∷ kube_config ∷ []))

    unfoldable pub delete : (name namespace : String) → Exec W (Unit {0})
    unfolding with_file write_kube_config exec
    delete name namespace = with_file (write_kube_config config) λ kube_config.
        exec ("delete" ∷ name ∷ "--namespace" ∷ namespace ∷ "--kubeconfig" ∷ kube_config ∷ [])

    unfoldable pub status_result : String → Result (Unit {0}) → Result Bool
    status_result output (ok _) = ok true
    status_result output (err e) =
        if is_some (index_of output "release: not found")
        then ok false
        else err (errorf (append "error executing helm status: " output))

    unfoldable pub release_exists : (name namespace : String) → Exec W Bool
    unfolding with_file write_kube_config status_result
    release_exists name namespace = with_file (write_kube_config config) λ kube_config w.
        let args =
          "status" ∷ name ∷ "--namespace" ∷ namespace ∷ "--kubeconfig" ∷ kube_config ∷ [] in
        let ((output, r), w') = s.run path args w in (status_result output r, w')

    -- The interface `Client`.
    unfoldable pub helm_client : HelmClient W
    unfolding install upgrade rollback delete release_exists
    helm_client = record {
      install = install;
      upgrade = upgrade;
      rollback = rollback;
      delete = delete;
      exists = release_exists;
    }

-- The struct `client`, of whose streams the code asks whether there is one for the output.
pub record Client : Type 0 where
  pub config : KubeConfig
  pub helm_path : String
  pub has_stdout : Bool

abbrev pub command_path : String
command_path = "./helm"

unfoldable pub new_client : KubeConfig → Client
new_client config = record { config = config; helm_path = command_path; has_stdout = false }

unfoldable pub new_client_with_streams :
    (helm_path : String) → KubeConfig → (has_stdout : Bool) → Client
new_client_with_streams helm_path config has_stdout = record {
  config = config;
  helm_path = helm_path;
  has_stdout = has_stdout;
}

-- The methods of a client, which marshal its configuration with `clientcmd.Write`.
unfoldable pub methods_of :
    {W : Type 0} → System W → (write_config : KubeConfig → Result String) → Client → HelmClient W
unfolding helm_client
methods_of s write_config c = helm_client s c.has_stdout c.helm_path (write_config c.config)
