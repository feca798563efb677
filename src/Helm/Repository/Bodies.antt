-- ===== src/Helm/Repository/Bodies.antt =====
-- The bodies of the answers, which are closed whatever becomes of the call.
use Prim.Native.Nat.{◌-◌}
use cluster_api_provider_vcl.Base.{ℕ, suc, ◌≡◌, refl, String, List, [], ◌∷◌, arith}
use cluster_api_provider_vcl.Runtime.{Result, ok, err, Exec, continue, lift, ◌>>=◌}
use cluster_api_provider_vcl.Runtime.Steady.{
  IsSteady, pure-IsSteady, lift-IsSteady, bind-IsSteady, wrapped-IsSteady,
}
use cluster_api_provider_vcl.Helm.Metadata.{Chart}
use cluster_api_provider_vcl.Helm.Repository.{
  Network, HttpClient, Request, credentials, new_request, closing, get, read_chart, read_url,
  parse_readme_values, parse_repository, chart_url,
}
use cluster_api_provider_vcl.Helm.Index.{Definition, index_url, skipping, build_charts}
use cluster_api_provider_vcl.Helm.Archive.{read_archive}

-- How many bodies are open after a call that opens one if it succeeds.
abbrev pub Counted : {W A : Type 0} → (W → ℕ) → ℕ → Result A × W → Type 0
Counted count n (ok a, w) = count w ≡ suc n
Counted count n (err e, w) = count w ≡ n

-- What the HTTP library does to the number of bodies that are open.
pub record Opens {W B : Type 0} (n : Network W B) (count : W → ℕ) : Type 0 where
  pub send :
      (client : HttpClient) (request : Request) (w : W)
      → Counted count (count w) (n.send client request w)
  pub read_all : (body : B) (w : W) → count (n.read_all body w).1 ≡ count w
  pub read_gzip : (body : B) (w : W) → count (n.read_gzip body w).1 ≡ count w
  pub close : (body : B) (w : W) → count (n.close body w) ≡ count w - 1

module _ {W B : Type 0} (n : Network W B) (count : W → ℕ) (o : Opens n count) where
  continue-closing :
      {A : Type 0} (r : Result B) (use_body : B → Exec W A) (k : ℕ) (w : W)
      → Counted count k (r, w)
      → ((body : B) → IsSteady count (use_body body))
      → count (continue r (λ body. closing n body (use_body body)) w).1 ≡ k
  unfolding continue closing
  continue-closing (ok body) use_body k w h c =
      omega (arith, h, c body w, o.close body (use_body body w).1)
  continue-closing (err e) use_body k w h c = h

  new_request-Counted :
      (client : HttpClient) (url username password : String) (w : W)
      → Counted count (count w) (new_request n client url username password w)
  unfolding new_request ◌>>=◌ lift
  new_request-Counted client url username password w = checked (n.check_url url)
    where
      checked :
          (r : Result (Unit {0}))
          → Counted count (count w) (
              continue r
                (λ _.
                  n.send client
                    (record { url = url; basic_auth = credentials n username password }))
                w)
      checked (ok _) = unfold continue in o.send client _ w
      checked (err e) = unfold continue in refl

  requested-IsSteady :
      {A : Type 0} (client : HttpClient) (url username password : String) (use_body : B → Exec W A)
      → ((body : B) → IsSteady count (use_body body))
      → IsSteady count
          (new_request n client url username password >>= λ body. closing n body (use_body body))
  unfolding ◌>>=◌
  requested-IsSteady client url username password use_body c w =
      let (r, w') = new_request n client url username password w in
      continue-closing r use_body (count w) w' (new_request-Counted client url username password w)
        c

  read_chart-IsSteady : (body : B) → IsSteady count (read_chart n body)
  unfolding read_chart
  read_chart-IsSteady body =
      bind-IsSteady count _ _ (o.read_gzip body)
        λ archive. lift-IsSteady count (read_archive archive "" "")

  read_url-IsSteady : (chart : Chart) (urls : List String) → IsSteady count (read_url n chart urls)
  unfolding read_url
  read_url-IsSteady chart [] = pure-IsSteady count ("", "")
  read_url-IsSteady chart (url ∷ rest) =
      requested-IsSteady _ (chart_url chart.repository.url url) chart.repository.username
        chart.repository.password (read_chart n) read_chart-IsSteady

  get-IsSteady :
      (client : HttpClient) (url username password : String)
      → IsSteady count (get n client url username password)
  unfolding get
  get-IsSteady client url username password =
      requested-IsSteady client url username password n.read_all o.read_all

  -- With a library that opens a body for an answer and for nothing else, the reading of a chart
  -- and that of an index leave as many bodies open as there were, whether they succeed or fail and
  -- wherever they fail.
  pub parse-IsSteady :
      (chart : Chart) (d : Definition)
      → IsSteady count (parse_readme_values n chart) × IsSteady count (parse_repository n d)
  unfolding parse_readme_values parse_repository
  parse-IsSteady chart d = (
    read_url-IsSteady chart chart.metadata.urls,
    bind-IsSteady count _ _
        (wrapped-IsSteady count (skipping d "retrieving") _
          (get-IsSteady _ (index_url d) d.username d.password))
        λ body.
          bind-IsSteady count _ _ (lift-IsSteady count _)
            λ entries. pure-IsSteady count (build_charts d entries.entries),
  )
