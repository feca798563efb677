-- ===== src/Helm/Index.antt =====
-- pkg/helm/repository/repository.go: the index of a repository, and the charts made of it.
pub mod Charts
use Prim.Native.String.{◌++◌ as append}
use text.Mathlib.Text.{starts_with}
use cluster_api_provider_vcl.Base.{
  ℕ, String, Bool, true, false, not, ◌&&◌, ◌||◌, Option, none, some, List, [], ◌∷◌, ◌==◌,
}
use cluster_api_provider_vcl.Base.Tests.{if◌then◌else◌, nat_eq}
use cluster_api_provider_vcl.Base.Decimal.{decimal}
use cluster_api_provider_vcl.Base.Slashes.{
  split_slashes, trim_suffix, trim_prefix, trim_right, drop_first,
}
use cluster_api_provider_vcl.Runtime.{
  Error, Result, ok, err, Exec, errorf, pure, lift, ◌>>=◌, ◌>>◌, wrapped, wrap_result, wrap_error,
}
use cluster_api_provider_vcl.Helm.Metadata.{Metadata, Chart}

-- The entries of an index, in the order in which the map is walked. A pointer to the metadata may
-- be nil.
pub record Entries : Type 0 where
  pub api_version : String
  pub entries : List (String × List (Option Metadata))

pub record Definition : Type 0 where
  pub name : String
  pub url : String
  pub username : String
  pub password : String
  pub insecure : Bool

-- The loop over the versions. `none` is the panic at a nil pointer.
unfoldable pub versions_of : List (Option Metadata) → Option (List String)
versions_of [] = some []
versions_of (none ∷ rest) = none
versions_of (some m ∷ rest) = elim (versions_of rest) [
  | none ↦ none
  | some versions ↦ some (m.version ∷ versions)
]

unfoldable pub chart_of : Definition → Metadata → List String → Chart
chart_of d m versions = record {
  metadata = m;
  versions = versions;
  repository = record {
    name = d.name;
    url = d.url;
    username = d.username;
    password = d.password;
    insecure = d.insecure;
  };
}

unfoldable pub add_versions :
    Definition → Metadata → Option (List String) → List Chart → Option (List Chart)
unfolding chart_of
add_versions d m none charts = none
add_versions d m (some versions) charts = some (chart_of d m versions ∷ charts)

-- An entry without metadata has no chart.
unfoldable pub add_chart : Definition → List (Option Metadata) → List Chart → Option (List Chart)
unfolding versions_of add_versions
add_chart d [] charts = some charts
add_chart d (none ∷ rest) charts = none
add_chart d (some m ∷ rest) charts = add_versions d m (versions_of (some m ∷ rest)) charts

-- The loop over the entries.
unfoldable pub build_charts :
    Definition → List (String × List (Option Metadata)) → Option (List Chart)
unfolding add_chart
build_charts d [] = some []
build_charts d ((key, metadatas) ∷ rest) = elim (build_charts d rest) [
  | none ↦ none
  | some charts ↦ add_chart d metadatas charts
]

unfoldable pub index_url : Definition → String
index_url d = append (trim_right d.url) "/index.yaml"

unfoldable pub skipping : Definition → (doing : String) → String
skipping d doing = append "skipping repo " (
    append d.name (
      append ", because of error "
        (append doing (append " app store repository index " (append (index_url d) ": ")))))
