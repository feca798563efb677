-- ===== src/Helm/Args.antt =====
-- pkg/helm/helm.go: the arguments that the options of an upgrade become.
use Prim.Native.String.{◌++◌ as append}
use cluster_api_provider_vcl.Base.{String, Bool, not, List, [], ◌∷◌, ◌++◌, ◌==◌}
use cluster_api_provider_vcl.Base.Tests.{if◌then◌else◌}
use cluster_api_provider_vcl.Runtime.{Result, ok, err, errorf}
use cluster_api_provider_vcl.Helm.Options.{UpgradeOptions}

unfoldable pub option_args : (flag value : String) → List String
option_args flag value = if not (value == "") then flag ∷ value ∷ [] else []

unfoldable pub flag_args : (flag : String) → Bool → List String
flag_args flag b = if b then flag ∷ [] else []

-- The chart: a path, or a name with its repository.
unfoldable pub chart_args : UpgradeOptions → Result (List String)
unfolding option_args
chart_args o =
    if not (o.path == "")
    then ok (o.path ∷ [])
    else if not (o.chart == "")
    then (if o.repo == ""
        then err (errorf "chart repo cannot be null")
        else ok (
            o.chart ∷ "--repo" ∷ o.repo ∷ option_args "--version" o.version
            ++ (option_args "--username" o.username ++ option_args "--password" o.password)))
    else ok []

-- The loop that joins the entries of a map, from what it has so far.
unfoldable pub join_values : String → List (String × String) → String
join_values so_far [] = so_far
join_values so_far ((k, v) ∷ rest) =
    let comma = if not (so_far == "") then append so_far "," else so_far in
    join_values (append comma (append k (append "=" v))) rest

unfoldable pub set_args : (flag : String) → List (String × String) → List String
unfolding join_values
set_args flag [] = []
set_args flag (e ∷ es) = flag ∷ join_values "" (e ∷ es) ∷ []

unfoldable pub last_args : UpgradeOptions → List String
unfolding set_args flag_args
last_args o =
    set_args "--set" o.set_values
    ++ (set_args "--set-string" o.set_string_values
        ++ (flag_args "--force" o.force
            ++ (flag_args "--atomic" o.atomic
                ++ flag_args "--insecure-skip-tls-verify" o.insecure_skip_tls_verify)))
