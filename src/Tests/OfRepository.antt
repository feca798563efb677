-- ===== src/Tests/OfRepository.antt =====
-- The theorems on the chart repository client, on a small archive, an index of two entries and a
-- network that counts the open bodies.
use Prim.Native.Nat.{◌-◌}
use cluster_api_provider_vcl.Base.{
  ℕ, suc, ◌≡◌, refl, String, false, ◌==◌, some, Option, List, [], ◌∷◌,
}
use cluster_api_provider_vcl.Base.Tests.{if◌then◌else◌}
use cluster_api_provider_vcl.Base.Slashes.{
  split_slashes, trim_suffix, trim_prefix, trim_right, drop_first,
}
use cluster_api_provider_vcl.Runtime.{ok, errorf}
use cluster_api_provider_vcl.Helm.Metadata.{Metadata, Chart}
use cluster_api_provider_vcl.Helm.Repository.{
  Network, chart_url, credentials, resolve, parse_readme_values, parse_repository,
}
use cluster_api_provider_vcl.Helm.Index.{Definition, index_url}
use cluster_api_provider_vcl.Helm.Archive.{
  Archive, broken, member, Header, type_reg, type_dir, read_archive, is_named, take_readme,
  take_values, discard,
}
use cluster_api_provider_vcl.Helm.Archive.Scan.{IsScan, read_archive-IsScan}
use cluster_api_provider_vcl.Helm.Index.Charts.{BuildsOrPanics, build_charts-BuildsOrPanics}
use cluster_api_provider_vcl.Runtime.Steady.{IsSteady}
use cluster_api_provider_vcl.Helm.Repository.Bodies.{Opens, parse-IsSteady}
use cluster_api_provider_vcl.Tests.Fixtures.{vcluster_metadata}

abbrev regular : String → Header
regular name = record { typeflag = type_reg; name = name }

-- What stands behind the second text is not read.
abbrev archive : Archive
archive =
    member (record { typeflag = type_dir; name = "vcluster" }) (ok "")
      (member (regular "vcluster/values.yaml") (ok "a: 1") (
        member (regular "vcluster/Chart.yaml") (ok "name: vcluster")
          (member (regular "vcluster/README.md") (ok "# vcluster") (broken (errorf "cut off")))))

read_archive-both : read_archive archive "" "" ≡ ok ("# vcluster", "a: 1")
unfolding read_archive is_named take_readme take_values discard split_slashes
read_archive-both = refl

read_archive-IsScan_example : IsScan "" "" archive (read_archive archive "" "")
read_archive-IsScan_example = read_archive-IsScan archive "" ""

abbrev definition : Definition
definition = record {
  name = "loft";
  url = "https://charts.loft.sh/";
  username = "$USER";
  password = "secret";
  insecure = false;
}

abbrev entries : List (String × List (Option Metadata))
entries =
    ("empty", [])
    ∷ ("vcluster", some (vcluster_metadata "0.20.0" []) ∷ some (vcluster_metadata "0.19.5" []) ∷ [])
    ∷ []

build_charts-BuildsOrPanics_example : BuildsOrPanics definition entries
build_charts-BuildsOrPanics_example = build_charts-BuildsOrPanics definition entries

-- The state is the number of open bodies.
abbrev counting : Network ℕ (Unit {0})
counting = record {
  getenv = λ name. if name == "USER" then "admin" else "";
  check_url = λ url. ok tt;
  send = λ client request n. (ok tt, suc n);
  read_all = λ body n. (ok "index", n);
  read_gzip = λ body n. (ok archive, n);
  close = λ body n. n - 1;
  unmarshal = λ text. ok (record { api_version = "v1"; entries = entries });
}

counting-Opens : Opens counting (λ n. n)
counting-Opens = record {
  send = λ client request n. refl;
  read_all = λ body n. refl;
  read_gzip = λ body n. refl;
  close = λ body n. refl;
}

abbrev chart : Chart
chart = record {
  metadata = vcluster_metadata "0.20.0" ("charts/vcluster-0.20.0.tgz" ∷ []);
  versions = "0.20.0" ∷ [];
  repository = record {
    name = "loft";
    url = "https://charts.loft.sh/";
    username = "";
    password = "";
    insecure = false;
  };
}

parse-IsSteady_example :
    IsSteady {W = ℕ} (λ n. n) (parse_readme_values counting chart)
    × IsSteady {W = ℕ} (λ n. n) (parse_repository counting definition)
parse-IsSteady_example = parse-IsSteady counting (λ n. n) counting-Opens chart definition

chart_url-relative :
    chart_url "https://charts.loft.sh/" "/charts/vcluster-0.20.0.tgz"
    ≡ "https://charts.loft.sh/charts/vcluster-0.20.0.tgz"
unfolding chart_url trim_suffix trim_prefix
chart_url-relative = refl

index_url-definition : index_url definition ≡ "https://charts.loft.sh/index.yaml"
unfolding index_url trim_right
index_url-definition = refl

credentials-env : credentials counting "$USER" "secret" ≡ some ("admin", "secret")
unfolding credentials resolve drop_first
credentials-env = refl
