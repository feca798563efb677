-- ===== src/Controllers/Steady/Program.antt =====
-- A run of `Reconcile` with the helm client and the patch helper of the program.
use cluster_api_provider_vcl.Base.{ℕ, ◌≡◌, String, Bool, Option, List}
use cluster_api_provider_vcl.Runtime.{Result}
use cluster_api_provider_vcl.Runtime.Steady.{IsSteady}
use cluster_api_provider_vcl.Kube.{World, HelmClient, NamespacedName}
use cluster_api_provider_vcl.Helm.Options.{no_upgrade_options}
use cluster_api_provider_vcl.Helm.Secrets.{Codec}
use cluster_api_provider_vcl.Helm.Client.{System, helm_client}
use cluster_api_provider_vcl.Helm.Client.Files.{Tracks, helm_client-IsSteady}
use cluster_api_provider_vcl.Helm.Client.Configured.{Files}
use cluster_api_provider_vcl.Helm.Client.Configured.Methods.{helm_client-configured}
use cluster_api_provider_vcl.Patching.StatusConditions.{Server}
use cluster_api_provider_vcl.Patching.Helper.{Library, patch_helper}
use cluster_api_provider_vcl.Patching.Steady.{ServerKeeps, patch-IsSteady}
use cluster_api_provider_vcl.Controllers.Reconcile.{reconcile}
use cluster_api_provider_vcl.Controllers.Steady.{WorldKeeps}
use cluster_api_provider_vcl.Controllers.Steady.Whole.{Keeps, reconcile-IsSteady}

module _ {W R J : Type 0} (k : World W R) (codec : Codec) (server : Server W)
    (library : Library W J) (s : System W) (streams : Bool) (path : String)
    (config : Result String) where
  abbrev client : HelmClient W
  client = helm_client s streams path config

  client-Keeps :
      {C : Type 0} (count : W → C)
      → WorldKeeps k count
      → ServerKeeps server library count
      → ((name namespace : String) → IsSteady count (client.delete name namespace))
      → Keeps k client (patch_helper server library) count
  unfolding patch_helper
  client-Keeps count world api delete = record {
    world = world;
    delete = delete;
    patch = patch-IsSteady server library count api;
  }

  module _ (default_repo default_name : String) (there : Bool) (req : NamespacedName) where
    -- On a system on which a file is made under a new name and kept, and a removal takes away its
    -- file and no other, and where no call of the API server or of the virtual cluster makes or
    -- removes one, a run of `Reconcile` leaves the temporary files that were there before, no more
    -- and no fewer, whatever fails in it.
    pub reconcile-files :
        (temp : W → List String)
        → WorldKeeps k temp
        → ServerKeeps server library temp
        → Tracks s temp
        → (w : W)
        → temp
            (reconcile k client codec
              (patch_helper server library)
              default_repo
              default_name
              there
              req
              w).1
          ≡ temp w
    reconcile-files temp world api c =
        reconcile-IsSteady k client codec (patch_helper server library) temp
          (client-Keeps temp world api λ name namespace.
            (helm_client-IsSteady s temp c streams path config name namespace ""
              no_upgrade_options).3)
          (λ name namespace o.
            (helm_client-IsSteady s temp c streams path config name namespace "" o).1)
          default_repo default_name there req

    -- On a system on which a temporary file is a new one and keeps what was written to it, a run
    -- of `Reconcile` adds nothing to the number of helm commands that are run without the flag of
    -- the kubeconfig and, as its value, a file that has the configuration of the client, if no
    -- call of the API server or of the virtual cluster does.
    pub reconcile-configured :
        (content : W → String → Option String) (misled : W → ℕ)
        → WorldKeeps k misled
        → ServerKeeps server library misled
        → Files s config content misled
        → (w : W)
        → misled
            (reconcile k client codec
              (patch_helper server library)
              default_repo
              default_name
              there
              req
              w).1
          ≡ misled w
    reconcile-configured content misled world api f =
        reconcile-IsSteady k client codec (patch_helper server library) misled
          (client-Keeps misled world api λ name namespace.
            (helm_client-configured s config content misled f streams path name namespace ""
              no_upgrade_options).3)
          (λ name namespace o.
            (helm_client-configured s config content misled f streams path name namespace "" o).1)
          default_repo default_name there req
