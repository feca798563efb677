-- ===== src/Helm/Repository.antt =====
-- pkg/helm/repository/repository.go: the client of a chart repository.
pub mod Bodies
use Prim.Native.String.{◌++◌ as append}
use text.Mathlib.Text.{starts_with}
use cluster_api_provider_vcl.Helm.Index.{
  Entries, Definition, versions_of, chart_of, add_versions, add_chart, build_charts, index_url,
  skipping,
}
use cluster_api_provider_vcl.Helm.Archive.{
  Archive, end, broken, member, Header, type_reg, type_dir, is_named, unknown_type, take_readme,
  take_values, discard, read_archive,
}
use cluster_api_provider_vcl.Base.{
  ℕ, String, Bool, true, false, not, ◌&&◌, ◌||◌, Option, none, some, List, [], ◌∷◌, ◌==◌,
}
use cluster_api_provider_vcl.Base.Tests.{if◌then◌else◌, nat_eq}
use cluster_api_provider_vcl.Base.Decimal.{decimal}
use cluster_api_provider_vcl.Base.Slashes.{
  split_slashes, trim_suffix, trim_prefix, trim_right, drop_first,
}
use cluster_api_provider_vcl.Runtime.{
  Error, Result, ok, err, Exec, errorf, pure, lift, ◌>>=◌, ◌>>◌, wrapped, wrap_result, wrap_error,
}
use cluster_api_provider_vcl.Helm.Metadata.{Metadata, Chart}

-- `http.Client`, with its timeout in seconds, 0 for none, and a GET request of it.
pub record HttpClient : Type 0 where
  pub timeout : ℕ
  pub insecure_skip_verify : Bool

pub record Request : Type 0 where
  pub url : String
  pub basic_auth : Option (String × String)

-- The libraries' calls, over the bodies of the answers.
pub record Network (W B : Type 0) : Type 0 where
  pub getenv : String → String
  -- the error of `NewRequestWithContext` for a URL that does not parse
  pub check_url : String → Result (Unit {0})
  pub send : HttpClient → Request → Exec W B
  pub read_all : B → Exec W String
  -- `gzip.NewReader`, and the tar reader on what it uncompresses
  pub read_gzip : B → Exec W Archive
  pub close : B → W → W
  pub unmarshal : String → Result Entries

-- The first URL of a chart, put behind that of its repository where it is relative.
unfoldable pub chart_url : (repository url : String) → String
chart_url repository url =
    if not (starts_with url "http://") && not (starts_with url "https://")
    then append (trim_suffix repository) (append "/" (trim_prefix url))
    else url

module _ {W B : Type 0} (n : Network W B) where
  -- A name or a password with a dollar sign is that of a variable of the environment.
  unfoldable pub resolve : String → String
  resolve s = if starts_with s "$" then n.getenv (drop_first s) else s

  unfoldable pub credentials : (username password : String) → Option (String × String)
  unfolding resolve
  credentials username password =
      if not (username == "") && not (password == "")
      then some (resolve username, resolve password)
      else none

  unfoldable pub new_request : HttpClient → (url username password : String) → Exec W B
  unfolding credentials
  new_request client url username password = do
    lift (n.check_url url)
    n.send client (record { url = url; basic_auth = credentials username password })

  -- The body is closed when the function returns.
  unfoldable pub closing : {A : Type 0} → B → Exec W A → Exec W A
  closing body m w = let (r, w') = m w in (r, n.close body w')

  unfoldable pub get : HttpClient → (url username password : String) → Exec W String
  unfolding new_request closing
  get client url username password = do
    body ← new_request client url username password
    closing body (n.read_all body)

  unfoldable pub read_chart : B → Exec W (String × String)
  unfolding wrap_error read_archive
  read_chart body = do
    archive ← λ w. let (r, w') = n.read_gzip body w in (wrap_error "read gzip" r, w')
    lift (read_archive archive "" "")

  unfoldable pub read_url : Chart → List String → Exec W (String × String)
  unfolding new_request closing read_chart chart_url
  read_url chart [] = pure ("", "")
  read_url chart (url ∷ rest) = do
    body ←
        new_request (record { timeout = 0; insecure_skip_verify = true })
          (chart_url chart.repository.url url) chart.repository.username chart.repository.password
    closing body (read_chart body)

  unfoldable pub parse_readme_values : Chart → Exec W (String × String)
  unfolding read_url
  parse_readme_values chart = read_url chart chart.metadata.urls

  unfoldable pub parse_repository : Definition → Exec W (Option (List Chart))
  unfolding get build_charts skipping index_url
  parse_repository d = do
    body ← wrapped (skipping d "retrieving") (
        get (record { timeout = 20; insecure_skip_verify = true }) (index_url d) d.username
          d.password)
    entries ← lift (wrap_result (skipping d "parsing") (n.unmarshal body))
    pure (build_charts d entries.entries)
